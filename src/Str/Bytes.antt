-- ===== src/Str/Bytes.antt =====
-- `memset`, `memcpy`, `memmove`, `memcmp` and `memchr` of string.c. The memory is a function of the
-- address, its values are bytes, and pointers wrap at 64 bits.
use arm_os.Base.{ℕ, zero, suc, ◌+◌, ◌-◌, ◌%◌, ◌==◌, ltb, leb, if◌then◌else◌, update, add64}

abbrev pub Memory : Type 0
Memory = ℕ → ℕ

-- The `int` of a comparison: `less n` is -n.
pub data Difference : Type 0 where
  at_least : ℕ → Difference
  less : ℕ → Difference

abbrev pub subtract : ℕ → ℕ → Difference
subtract a b = if leb b a then at_least (a - b) else less (b - a)

-- `for (i = i; i < n; i++) p[i] = c`, with `rounds` bytes to go.
unfoldable pub set_loop : (rounds i s c : ℕ) → Memory → Memory
set_loop zero i s c mem = mem
set_loop (suc k) i s c mem = set_loop k (i + 1) s c (update mem (add64 s i) c)

unfoldable pub memset : (s c n : ℕ) → Memory → Memory
unfolding set_loop
memset s c n mem = set_loop n 0 s (c % 256) mem

unfoldable pub copy_loop : (rounds i dest src : ℕ) → Memory → Memory
copy_loop zero i dest src mem = mem
copy_loop (suc k) i dest src mem =
    copy_loop k (i + 1) dest src (update mem (add64 dest i) (mem (add64 src i)))

-- `for (i = n; i > 0; i--)`.
unfoldable pub copy_back_loop : (i dest src : ℕ) → Memory → Memory
copy_back_loop zero dest src mem = mem
copy_back_loop (suc i) dest src mem =
    copy_back_loop i dest src (update mem (add64 dest i) (mem (add64 src i)))

unfoldable pub memcpy : (dest src n : ℕ) → Memory → Memory
unfolding copy_loop
memcpy dest src n mem = copy_loop n 0 dest src mem

unfoldable pub memmove : (dest src n : ℕ) → Memory → Memory
unfolding copy_loop copy_back_loop
memmove dest src n mem =
    if ltb dest src then copy_loop n 0 dest src mem else copy_back_loop n dest src mem

unfoldable pub compare_loop : (rounds i p1 p2 : ℕ) → Memory → Difference
compare_loop zero i p1 p2 mem = at_least 0
compare_loop (suc k) i p1 p2 mem =
    let rest = compare_loop k (i + 1) p1 p2 mem in
    let a = mem (add64 p1 i) in let b = mem (add64 p2 i) in if a == b then rest else subtract a b

unfoldable pub memcmp : (s1 s2 n : ℕ) → Memory → Difference
unfolding compare_loop
memcmp s1 s2 n mem = compare_loop n 0 s1 s2 mem

unfoldable pub search_bytes : (rounds i p ch : ℕ) → Memory → ℕ
search_bytes zero i p ch mem = 0
search_bytes (suc k) i p ch mem =
    let rest = search_bytes k (i + 1) p ch mem in if mem (add64 p i) == ch then add64 p i else rest

-- The address of the byte, 0 for NULL.
unfoldable pub memchr : (s c n : ℕ) → Memory → ℕ
unfolding search_bytes
memchr s c n mem = search_bytes n 0 s (c % 256) mem
