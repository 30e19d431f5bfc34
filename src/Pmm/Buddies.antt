-- ===== src/Pmm/Buddies.antt =====
-- The blocks of each order and their buddies: sizes, addresses, and how blocks lie in one another.
use native.Mathlib.Nat.{
  pow-suc, one-le-pow, mul-div_cancel, div-div-eq-div-mul, div-add-mod', add-mul, mul_assoc,
  zero-mul, mul-le-mul_right,
}
use arm_os.Base.{
  ℕ, zero, suc, ◌+◌, ◌-◌, ◌*◌, ◌/◌, ◌%◌, ◌^◌, ◌<◌, ◌≤◌, ◌≡◌, refl, arith, ◌==◌, ltb, if◌then◌else◌,
  Bool-cases, inl, inr, bit_xor, ap, sym, ◌∙◌, ◌⊎◌, u64_mod,
}
use arm_os.Base.Bits.{bit_xor-pow}
use arm_os.Pmm.State.{block_bytes}

-- The true size of a block; `block_bytes` is this modulo 2 ^ 64.
abbrev pub block_size : ℕ → ℕ
block_size order = 2 ^ order * 4096

pow_page : (o : ℕ) → block_size o ≡ 2 ^ (o + 12)
pow_page zero = refl
pow_page (suc o) =
    let e : suc o + 12 ≡ suc (o + 12) = omega arith in
    rw e (omega (arith, pow-suc 2 o, pow-suc 2 (o + 12), pow_page o))

pub block_size-suc : (o : ℕ) → block_size (suc o) ≡ 2 * block_size o
block_size-suc o = omega (arith, pow-suc 2 o)

pub block_size-pos : (o : ℕ) → 4096 ≤ block_size o
block_size-pos o = omega (arith, one-le-pow o 2)

-- The buddy of the `q`-th block of its order is its neighbour.
pub buddy_lem :
    (o q frame : ℕ)
    → frame ≡ q * block_size o
    → block_size o < u64_mod
    → bit_xor frame (block_bytes o)
      ≡ (if q % 2 == 0 then frame + block_size o else frame - block_size o)
buddy_lem o q frame e b =
    let bytes : block_bytes o ≡ block_size o = omega arith in
    let quotient : frame / block_size o ≡ q =
      ap (λ (f : ℕ). f / block_size o) e ∙ mul-div_cancel q (omega (arith, block_size-pos o)) in
    let turned : bit_xor frame (block_size o)
        ≡ (if frame / block_size o % 2 == 0 then frame + block_size o else frame - block_size o) =
      rw (pow_page o) (bit_xor-pow (o + 12) frame) in
    rw bytes (ground (arith, turned, quotient))

-- A block and its buddy, the `q`-th and its neighbour, make up a block of twice the size.
pub record Pair (q b frame buddy : ℕ) : Type 0 where
  pub aligned : (if ltb frame buddy then frame else buddy) ≡ q / 2 * (2 * b)
  pub start : (if ltb frame buddy then frame else buddy) ≤ frame
  pub end : frame + b ≤ (if ltb frame buddy then frame else buddy) + 2 * b
  pub size : (b ≤ frame) ⊎ (b ≤ buddy)
  pub other_start : (if ltb frame buddy then frame else buddy) ≤ buddy
  pub other_end : buddy + b ≤ (if ltb frame buddy then frame else buddy) + 2 * b

pub Pair_lem :
    (q b frame buddy : ℕ)
    → 0 < b
    → frame ≡ q * b
    → buddy ≡ (if q % 2 == 0 then frame + b else frame - b)
    → Pair q b frame buddy
Pair_lem q b frame buddy pos e f = elim (Bool-cases (q % 2 == 0)) [
  | inl even ↦
      let up : buddy ≡ frame + b = ground arith in
      let whole : q ≡ q / 2 * 2 = ground arith in
      let sum : q * b ≡ q / 2 * (2 * b) = omega (arith, ap (λ (t : ℕ). t * b) whole) in
      record {
        aligned = ground arith;
        start = ground arith;
        end = ground arith;
        size = inr (omega arith);
        other_start = ground arith;
        other_end = ground arith;
      }
  | inr odd ↦
      let down : buddy ≡ frame - b = ground arith in
      let whole : q ≡ q / 2 * 2 + 1 = ground arith in
      let sum : q * b ≡ q / 2 * (2 * b) + b = omega (arith, ap (λ (t : ℕ). t * b) whole) in
      record {
        aligned = ground arith;
        start = ground arith;
        end = ground arith;
        size = inl (omega arith);
        other_start = ground arith;
        other_end = ground arith;
      }
]

-- The block of an order that an address lies in.
abbrev pub block_at : (address order : ℕ) → ℕ
block_at address order = address / block_size order * block_size order

pub block_at-suc : (x o : ℕ) → block_at x (suc o) ≡ x / block_size o / 2 * (2 * block_size o)
block_at-suc x o =
    let size = block_size-suc o in
    let twice : block_size o * 2 ≡ block_size (suc o) = omega (arith, size) in
    let half : x / block_size o / 2 ≡ x / block_size (suc o) =
      div-div-eq-div-mul x (block_size o) 2 ∙ ap (λ (t : ℕ). x / t) twice in
    rw half (ap (λ (t : ℕ). x / block_size (suc o) * t) size)

bit_mul : (r b : ℕ) → r < 2 → r * b ≤ b
bit_mul zero b h = omega (arith, zero-mul b)
bit_mul (suc zero) b h = omega arith
bit_mul (suc (suc r)) b h = absurd (omega (arith, h))

-- A block lies in the block of each higher order.
pub block_at-nests :
    (x o k : ℕ)
    → (block_at x (o + k) ≤ block_at x o)
      × (block_at x o + block_size o ≤ block_at x (o + k) + block_size (o + k))
block_at-nests x o zero = let e : o + 0 ≡ o = omega arith in rw e (omega arith, omega arith)
block_at-nests x o (suc k) =
    let e : o + suc k ≡ suc (o + k) = omega arith in
    let (low, high) = block_at-nests x o k in
    let q = x / block_size (o + k) in
    let b = block_size (o + k) in
    let up = block_at-suc x (o + k) in
    let size = block_size-suc (o + k) in
    let split : q * b ≡ q / 2 * (2 * b) + q % 2 * b = omega (
      arith,
      ap (λ (t : ℕ). t * b) (sym (div-add-mod' q 2)),
      add-mul (q / 2 * 2) (q % 2) b,
      mul_assoc (q / 2) 2 b,
    ) in
    let bit : q % 2 * b ≤ b = bit_mul (q % 2) b (omega arith) in
    rw e (omega (arith, low, up, split), omega (arith, high, up, split, size, bit))

-- The buddy of a block of order `o + k` does not meet the pages of the block.
pub buddy-apart :
    (x o : ℕ)
    → block_size o ≤ 2 ^ 63
    → let buddy = bit_xor (block_at x o) (block_bytes o) in
      (buddy / 4096 < block_at x o / 4096) ⊎ (block_at x o / 4096 + 2 ^ o ≤ buddy / 4096)
buddy-apart x o bound =
    let q = x / block_size o in
    let turned = buddy_lem o q (block_at x o) refl (omega (arith, bound)) in
    let some = block_size-pos o in
    elim (Bool-cases (q % 2 == 0)) [
      | inl even ↦ inr (ground (arith, turned, even))
      | inr odd ↦
          let least : 1 * block_size o ≤ q * block_size o =
            mul-le-mul_right {m = 1} {n = q} (block_size o) (ground (arith, odd)) in
          inl (ground (arith, turned, odd, least, some, one-le-pow o 2))
    ]
