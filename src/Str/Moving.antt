-- ===== src/Str/Moving.antt =====
-- `memmove` of string.c copies as if through a buffer, whether or not the two ranges overlap.
use arm_os.Base.{
  ℕ, zero, suc, ◌+◌, ◌-◌, ◌<◌, ◌≤◌, ◌≡◌, arith, ◌&&◌, ltb, leb, if◌then◌else◌, Bool-cases, inl, inr,
  u64_mod, add64, update,
}
use arm_os.Str.Bytes.{Memory, copy_loop, copy_back_loop, memmove}

-- The memory after a move, as one function of the memory before.
abbrev pub moved : (dest src n : ℕ) → Memory → Memory
moved dest src n mem x = if leb dest x && ltb x (dest + n) then mem (src + (x - dest)) else mem x

-- Forward, from `i` on, where the destination lies below the source.
copy_loop-moved :
    (k i dest src x : ℕ) (mem : Memory)
    → dest < src
    → src + (i + k) ≤ u64_mod
    → copy_loop k i dest src mem x ≡ moved (dest + i) (src + i) k mem x
unfolding copy_loop
copy_loop-moved zero i dest src x mem d b = ground arith
copy_loop-moved (suc k) i dest src x mem d b =
    ground (
      arith,
      copy_loop-moved k (i + 1) dest src x (update mem (add64 dest i) (mem (add64 src i))) d,
    )

copy_back_loop-moved :
    (i dest src x : ℕ) (mem : Memory)
    → src ≤ dest
    → dest + i ≤ u64_mod
    → copy_back_loop i dest src mem x ≡ moved dest src i mem x
unfolding copy_back_loop
copy_back_loop-moved zero dest src x mem d b = ground arith
copy_back_loop-moved (suc i) dest src x mem d b =
    ground
      (arith, copy_back_loop-moved i dest src x (update mem (add64 dest i) (mem (add64 src i))) d)

-- If neither range passes 2 ^ 64, every byte of the destination is what the source held before, and
-- every other byte is unchanged.
pub memmove-moved :
    (dest src n x : ℕ) (mem : Memory)
    → dest + n ≤ u64_mod
    → src + n ≤ u64_mod
    → memmove dest src n mem x ≡ moved dest src n mem x
unfolding memmove
memmove-moved dest src n x mem b c = elim (Bool-cases (ltb dest src)) [
  | inl e ↦ rw e (ground (arith, copy_loop-moved n 0 dest src x mem (ground arith) (omega arith)))
  | inr e ↦ rw e (copy_back_loop-moved n dest src x mem (ground arith) b)
]
