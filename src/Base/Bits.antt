-- ===== src/Base/Bits.antt =====
-- Laws of the bit operations at variables, from the digit recursion that they stand for.
use Prim.Native.Nat.{
  ℕ, zero, suc, ◌+◌, ◌-◌, ◌*◌, ◌/◌, ◌%◌, ◌^◌, ◌≤◌, ◌<◌, digits, bitwise, differ, bit_xor,
  bit_xor-bitwise, bit_or, bit_or-bitwise, max,
}
use mathlib.Core.Path.{◌≡◌, refl, sym, ap, ap₂, ◌∙◌}
use native.Mathlib.Nat.{le_refl, pow-suc, mod-add-div, div-div-eq-div-mul}
use native.Mathlib.Omega.{arith}
use arm_os.Base.Tests.{◌==◌, if◌then◌else◌}

module _ (z : ℕ → ℕ) (f : ℕ → ℕ → ℕ) where
  -- The fuel of the recursion is enough once it reaches the first number.
  digits_enough : (n m a b : ℕ) → a ≤ n → a ≤ m → digits z f n a b ≡ digits z f m a b
  digits_enough zero zero a b p q = refl
  digits_enough zero (suc m) zero b p q = refl
  digits_enough zero (suc m) (suc a) b p q = absurd (omega arith)
  digits_enough (suc n) zero zero b p q = refl
  digits_enough (suc n) zero (suc a) b p q = absurd (omega arith)
  digits_enough (suc n) (suc m) zero b p q = refl
  digits_enough (suc n) (suc m) (suc a) b p q =
      rw (digits_enough n m (suc a / 2) (b / 2) (omega arith) (omega arith))

  bitwise_lowest :
      (a b : ℕ)
      → bitwise z f (suc a) b ≡ bitwise z f (suc a / 2) (b / 2) * 2 + f (suc a % 2) (b % 2)
  bitwise_lowest a b =
      omega (arith, digits_enough a (suc a / 2) (suc a / 2) (b / 2) (omega arith) (le_refl _))

bit_xor_lowest : (a b : ℕ) → bit_xor a b ≡ bit_xor (a / 2) (b / 2) * 2 + differ (a % 2) (b % 2)
bit_xor_lowest zero b = simp bit_xor-bitwise (omega arith)
bit_xor_lowest (suc a) b = simp bit_xor-bitwise (bitwise_lowest (λ y. y) differ a b)

differ-zero : (x : ℕ) → differ x 0 ≡ x
differ-zero zero = refl
differ-zero (suc x) = refl

differ-one : (x : ℕ) → x < 2 → differ x 1 ≡ 1 - x
differ-one zero h = refl
differ-one (suc zero) h = refl
differ-one (suc (suc x)) h = absurd (omega arith)

bit_xor-zero_fuel : (n a : ℕ) → a ≤ n → bit_xor a 0 ≡ a
bit_xor-zero_fuel n zero h = refl
bit_xor-zero_fuel zero (suc a) h = absurd (omega arith)
bit_xor-zero_fuel (suc n) (suc a) h = omega (
  arith,
  bit_xor_lowest (suc a) 0,
  bit_xor-zero_fuel n (suc a / 2) (omega arith),
  differ-zero (suc a % 2),
)

bit_xor-zero : (a : ℕ) → bit_xor a 0 ≡ a
bit_xor-zero a = bit_xor-zero_fuel a a (le_refl a)

le_of_div-pos : (a t : ℕ) → 0 < a / t → t ≤ a
le_of_div-pos a t h = grind (arith, mod-add-div a t)

-- Exclusive or with a power of two turns over one digit.
pub bit_xor-pow :
    (k a : ℕ) → bit_xor a (2 ^ k) ≡ (if a / 2 ^ k % 2 == 0 then a + 2 ^ k else a - 2 ^ k)
bit_xor-pow zero a = ground (arith, bit_xor_lowest a 1, bit_xor-zero (a / 2), differ-one (a % 2))
bit_xor-pow (suc k) a =
    let t = 2 ^ k in
    let double : 2 ^ suc k ≡ 2 * t = omega (arith, pow-suc 2 k) in
    let halved : 2 * t / 2 ≡ t = omega arith in
    let even : 2 * t % 2 ≡ 0 = omega arith in
    let low : bit_xor a (2 * t) ≡ bit_xor (a / 2) t * 2 + a % 2 =
      bit_xor_lowest a (2 * t)
      ∙ ap₂ (λ u v. bit_xor (a / 2) u * 2 + differ (a % 2) v) halved even
      ∙ ap (λ v. bit_xor (a / 2) t * 2 + v) (differ-zero (a % 2)) in
    rw double (
      ground (arith, low, bit_xor-pow k (a / 2), div-div-eq-div-mul a 2 t, le_of_div-pos (a / 2) t))

bit_or_lowest : (a b : ℕ) → bit_or a b ≡ bit_or (a / 2) (b / 2) * 2 + max (a % 2) (b % 2)
bit_or_lowest zero b = simp bit_or-bitwise (omega arith)
bit_or_lowest (suc a) b = simp bit_or-bitwise (bitwise_lowest (λ y. y) max a b)

bit_or-zero_fuel : (n a : ℕ) → a ≤ n → bit_or a 0 ≡ a
bit_or-zero_fuel n zero h = refl
bit_or-zero_fuel zero (suc a) h = absurd (omega arith)
bit_or-zero_fuel (suc n) (suc a) h =
    omega (arith, bit_or_lowest (suc a) 0, bit_or-zero_fuel n (suc a / 2) (omega arith))

pub bit_or-zero : (a : ℕ) → bit_or a 0 ≡ a
bit_or-zero a = bit_or-zero_fuel a a (le_refl a)

bit_or-halves : (a b : ℕ) → bit_or a b / 2 ≡ bit_or (a / 2) (b / 2)
bit_or-halves a b = omega (arith, bit_or_lowest a b)

-- The lowest bit of an or.
pub bit_or-parity : (a b : ℕ) → bit_or a b % 2 ≡ max (a % 2) (b % 2)
bit_or-parity a b = omega (arith, bit_or_lowest a b)

div_one : (x : ℕ) → x / 1 ≡ x
div_one x = omega arith

-- A shift of an or is the or of the shifts.
pub bit_or-shift : (k a b : ℕ) → bit_or a b / 2 ^ k ≡ bit_or (a / 2 ^ k) (b / 2 ^ k)
bit_or-shift zero a b = rw (div_one a, div_one b, div_one (bit_or a b)) refl
bit_or-shift (suc k) a b =
    let t = 2 ^ k in
    let double : 2 ^ suc k ≡ 2 * t = omega (arith, pow-suc 2 k) in
    rw double (
      sym (div-div-eq-div-mul (bit_or a b) 2 t)
      ∙ ap (λ (x : ℕ). x / t) (bit_or-halves a b)
      ∙ bit_or-shift k (a / 2) (b / 2)
      ∙ ap₂ bit_or (div-div-eq-div-mul a 2 t) (div-div-eq-div-mul b 2 t))

-- An or with a power of two above the number adds it.
pub bit_or-pow : (k a : ℕ) → a < 2 ^ k → bit_or a (2 ^ k) ≡ a + 2 ^ k
bit_or-pow zero a small = let none_left : a ≡ 0 = omega arith in rw none_left refl
bit_or-pow (suc k) a small =
    let t = 2 ^ k in
    let double : 2 ^ suc k ≡ 2 * t = omega (arith, pow-suc 2 k) in
    let halved : 2 * t / 2 ≡ t = omega arith in
    let half : a / 2 < t = omega (arith, rw double at small) in
    let rest : bit_or (a / 2) (2 * t / 2) ≡ a / 2 + t =
      ap (bit_or (a / 2)) halved ∙ bit_or-pow k (a / 2) half in
    rw double (omega (arith, bit_or_lowest a (2 * t), rest))
