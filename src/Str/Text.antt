-- ===== src/Str/Text.antt =====
-- The functions of string.c on strings. A walk to the end of a string has fuel, and `none` means that
-- it ran out; a string of `k` characters takes `k + 1` rounds. `strdup` allocates and is left out.
use arm_os.Base.{
  ℕ, zero, suc, ◌+◌, ◌-◌, ◌%◌, ◌&&◌, not, Option, none, some, ◌==◌, if◌then◌else◌, update, add64,
}
use arm_os.Str.Bytes.{Memory, Difference, at_least, subtract}

unfoldable pub len_loop : (fuel len s : ℕ) → Memory → Option ℕ
len_loop zero len s mem = none
len_loop (suc k) len s mem =
    let rest = len_loop k (len + 1) s mem in if mem (add64 s len) == 0 then some len else rest

unfoldable pub strlen : (fuel s : ℕ) → Memory → Option ℕ
unfolding len_loop
strlen fuel s mem = len_loop fuel 0 s mem

-- `while (*src) *d++ = *src++; *d = '\0'`.
unfoldable pub copy_text : (fuel d src : ℕ) → Memory → Option Memory
copy_text zero d src mem = none
copy_text (suc k) d src mem =
    let rest = copy_text k (add64 d 1) (add64 src 1) (update mem d (mem src)) in
    if mem src == 0 then some (update mem d 0) else rest

unfoldable pub strcpy : (fuel dest src : ℕ) → Memory → Option Memory
unfolding copy_text
strcpy fuel dest src mem = copy_text fuel dest src mem

-- `for (; i < n; i++) dest[i] = '\0'`.
unfoldable pub pad_loop : (rounds i dest : ℕ) → Memory → Memory
pad_loop zero i dest mem = mem
pad_loop (suc k) i dest mem = pad_loop k (i + 1) dest (update mem (add64 dest i) 0)

-- `for (; i < n && src[i] != '\0'; i++) dest[i] = src[i]`: the final `i` and the memory.
unfoldable pub bounded_copy : (rounds i dest src : ℕ) → Memory → ℕ × Memory
bounded_copy zero i dest src mem = (i, mem)
bounded_copy (suc k) i dest src mem =
    let rest = bounded_copy k (i + 1) dest src (update mem (add64 dest i) (mem (add64 src i))) in
    if mem (add64 src i) == 0 then (i, mem) else rest

unfoldable pub strncpy : (dest src n : ℕ) → Memory → Memory
unfolding pad_loop bounded_copy
strncpy dest src n mem =
    let (i, copied) = bounded_copy n 0 dest src mem in pad_loop (n - i) i dest copied

-- `while (*d) d++`.
unfoldable pub end_loop : (fuel d : ℕ) → Memory → Option ℕ
end_loop zero d mem = none
end_loop (suc k) d mem =
    let rest = end_loop k (add64 d 1) mem in if mem d == 0 then some d else rest

unfoldable pub strcat : (fuel dest src : ℕ) → Memory → Option Memory
unfolding end_loop copy_text
strcat fuel dest src mem = elim (end_loop fuel dest mem) [
  | none ↦ none
  | some d ↦ copy_text fuel d src mem
]

unfoldable pub strncat : (fuel dest src n : ℕ) → Memory → Option Memory
unfolding end_loop bounded_copy
strncat fuel dest src n mem = elim (end_loop fuel dest mem) [
  | none ↦ none
  | some d ↦ let (i, copied) = bounded_copy n 0 d src mem in some (update copied (add64 d i) 0)
]

unfoldable pub strcmp : (fuel s1 s2 : ℕ) → Memory → Option Difference
strcmp zero s1 s2 mem = none
strcmp (suc k) s1 s2 mem =
    let rest = strcmp k (add64 s1 1) (add64 s2 1) mem in
    if not (mem s1 == 0) && (mem s1 == mem s2) then rest else some (subtract (mem s1) (mem s2))

unfoldable pub bounded_compare : (rounds i s1 s2 : ℕ) → Memory → Difference
bounded_compare zero i s1 s2 mem = at_least 0
bounded_compare (suc k) i s1 s2 mem =
    let rest = bounded_compare k (i + 1) s1 s2 mem in
    let a = mem (add64 s1 i) in
    let b = mem (add64 s2 i) in
    if not (a == b) then subtract a b else if a == 0 then at_least 0 else rest

unfoldable pub strncmp : (s1 s2 n : ℕ) → Memory → Difference
unfolding bounded_compare
strncmp s1 s2 n mem = bounded_compare n 0 s1 s2 mem

-- The end of the string counts as found for the character 0.
unfoldable pub strchr : (fuel s c : ℕ) → Memory → Option ℕ
strchr zero s c mem = none
strchr (suc k) s c mem =
    let rest = strchr k (add64 s 1) c mem in
    if mem s == 0 then some (if c == 0 then s else 0) else if mem s == c % 256 then some s else rest

unfoldable pub last_loop : (fuel s c last : ℕ) → Memory → Option ℕ
last_loop zero s c last mem = none
last_loop (suc k) s c last mem =
    let rest = last_loop k (add64 s 1) c (if mem s == c % 256 then s else last) mem in
    if mem s == 0 then some (if c == 0 then s else last) else rest

unfoldable pub strrchr : (fuel s c : ℕ) → Memory → Option ℕ
unfolding last_loop
strrchr fuel s c mem = last_loop fuel s c 0 mem

-- `while (*h && *n && *h == *n)`: where `n` stops.
unfoldable pub match_loop : (fuel h n : ℕ) → Memory → Option ℕ
match_loop zero h n mem = none
match_loop (suc k) h n mem =
    let rest = match_loop k (add64 h 1) (add64 n 1) mem in
    if not (mem h == 0) && (not (mem n == 0) && (mem h == mem n)) then rest else some n

unfoldable pub strstr_loop : (fuel haystack needle : ℕ) → Memory → Option ℕ
unfolding match_loop
strstr_loop zero haystack needle mem = none
strstr_loop (suc k) haystack needle mem =
    let rest = strstr_loop k (add64 haystack 1) needle mem in
    let found : Option ℕ = elim (match_loop k haystack needle mem) [
      | none ↦ none
      | some n ↦ if mem n == 0 then some haystack else rest
    ] in
    if mem haystack == 0 then some 0 else found

unfoldable pub strstr : (fuel haystack needle : ℕ) → Memory → Option ℕ
unfolding strstr_loop
strstr fuel haystack needle mem =
    if mem needle == 0 then some haystack else strstr_loop fuel haystack needle mem
