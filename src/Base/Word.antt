-- ===== src/Base/Word.antt =====
-- 64-bit words as native numbers: the wrap-around is written out.
use Prim.Native.Nat.{ℕ, ◌+◌, ◌-◌, ◌*◌, ◌/◌, ◌%◌, ◌^◌}

abbrev pub u64_mod : ℕ
u64_mod = 2 ^ 64

abbrev pub add64 : ℕ → ℕ → ℕ
add64 a b = (a + b) % u64_mod

abbrev pub sub64 : ℕ → ℕ → ℕ
sub64 a b = (a + u64_mod - b) % u64_mod

abbrev pub mul64 : ℕ → ℕ → ℕ
mul64 a b = a * b % u64_mod

-- `x & ~(a - 1)` for a power of two `a`, given as the number itself.
abbrev pub align_down : ℕ → ℕ → ℕ
align_down x a = x / a * a

-- `(x + (a - 1)) & ~(a - 1)`.
abbrev pub align_up : ℕ → ℕ → ℕ
align_up x a = align_down (add64 x (a - 1)) a
