-- ===== src/Slab/Layout.antt =====
-- Where the slots of a slab lie: the sizes that `k_slab_create_cache` computes, and the tests of
-- `k_slab_free` on the address of a slot.
use native.Mathlib.Nat.{mul-div_cancel, mul-le-mul_right, mul-le-mul_left, suc-mul}
use arm_os.Base.{
  ℕ, suc, ◌+◌, ◌*◌, ◌/◌, ◌%◌, ◌^◌, ◌≤◌, ◌<◌, ◌≡◌, ◌≢◌, sym, ap, ◌∙◌, false, leb, ltb, ◌||◌, add64,
  sub64, arith,
}
use arm_os.Slab.State.{KSlabCache, slot_addr, get_payload_start}
use arm_os.Slab.Release.{slot_of, misplaced}

-- The slots of a cache, `start` bytes into a page, fit in the page; all pages but the last.
pub record IsLaid (c : KSlabCache) : Type 0 where
  pub start : ℕ
  pub starts :
      (n : ℕ) → suc n < 2 ^ 52 → get_payload_start (n * 4096) c.alignment ≡ n * 4096 + start
  pub behind : 24 ≤ start
  pub wide : 4 ≤ c.obj_size
  pub fits : start + c.slots_per_slab * c.obj_size ≤ 4096

-- The two tests with the page of the address replaced by a number equal to it.
module _ (c : KSlabCache) (x b : ℕ) (e : x / 4096 * 4096 ≡ b) where
  slot_of-eq : slot_of x c ≡ sub64 x (get_payload_start b c.alignment) / c.obj_size % 2 ^ 32
  unfolding slot_of
  slot_of-eq = ap (λ p. sub64 x (get_payload_start p c.alignment) / c.obj_size % 2 ^ 32) e

  misplaced-eq : misplaced x c ≡ (
      ltb x (get_payload_start b c.alignment)
      || leb (add64 b 4096) x
      || leb c.slots_per_slab (slot_of x c))
  unfolding misplaced
  misplaced-eq =
      ap
        (λ p.
          ltb x (get_payload_start p c.alignment)
          || leb (add64 p 4096) x
          || leb c.slots_per_slab (slot_of x c))
        e

module _ (c : KSlabCache) (laid : IsLaid c) (n i : ℕ) (page : suc n < 2 ^ 52)
    (slot : i < c.slots_per_slab) where
  -- A slot ends where the next one begins, within the page.
  pub slot_within : laid.start + i * c.obj_size + c.obj_size ≤ 4096
  slot_within =
      omega (arith, laid.fits, suc-mul i c.obj_size, mul-le-mul_right {m = suc i} c.obj_size slot)

  pub slot_at : slot_addr (n * 4096) i c ≡ n * 4096 + laid.start + i * c.obj_size
  unfolding slot_addr
  slot_at = rw (laid.starts n page) (omega (arith, slot_within))

  pub page_of_slot : slot_addr (n * 4096) i c / 4096 * 4096 ≡ n * 4096
  page_of_slot = rw slot_at (omega (arith, slot_within, laid.wide))

  small_slot : i < 4096
  small_slot = omega (arith, slot_within, laid.wide, mul-le-mul_left i laid.wide)

  pub slot_of-slot_addr : slot_of (slot_addr (n * 4096) i c) c ≡ i
  slot_of-slot_addr =
      let gone : sub64 (n * 4096 + laid.start + i * c.obj_size) (n * 4096 + laid.start)
          ≡ i * c.obj_size =
        omega (arith, slot_within) in
      let back : i * c.obj_size / c.obj_size ≡ i =
        mul-div_cancel i {n = c.obj_size} (omega (arith, laid.wide)) in
      let low : i % 2 ^ 32 ≡ i = omega (arith, small_slot) in
      slot_of-eq c (slot_addr (n * 4096) i c) (n * 4096) page_of_slot
      ∙ rw (laid.starts n page, slot_at, gone, back) low

  pub slot-misplaced : misplaced (slot_addr (n * 4096) i c) c ≡ false
  slot-misplaced =
      misplaced-eq c (slot_addr (n * 4096) i c) (n * 4096) page_of_slot
      ∙ rw (slot_of-slot_addr, laid.starts n page, slot_at) (ground (arith, slot_within, laid.wide))

module _ (c : KSlabCache) (laid : IsLaid c) (n i : ℕ) (page : suc n < 2 ^ 52)
    (slot : i < c.slots_per_slab) where
  -- The page of a slot is the page of no other slab.
  pub slot-apart :
      (m j : ℕ)
      → suc m < 2 ^ 52
      → j < c.slots_per_slab
      → m ≢ n
      → slot_addr (m * 4096) j c ≢ slot_addr (n * 4096) i c
  slot-apart m j page' slot' ne e =
      let same : m * 4096 ≡ n * 4096 =
        sym (page_of_slot c laid m j page' slot')
        ∙ ap (λ x. x / 4096 * 4096) e
        ∙ page_of_slot c laid n i page slot in
      ne (omega (arith, same))

  -- Two slots of a page.
  pub slot-differs :
      (j : ℕ) → j < c.slots_per_slab → j ≢ i → slot_addr (n * 4096) j c ≢ slot_addr (n * 4096) i c
  slot-differs j slot' ne e = ne (
      sym (slot_of-slot_addr c laid n j page slot')
      ∙ ap (λ x. slot_of x c) e
      ∙ slot_of-slot_addr c laid n i page slot)

  pub slot-not_null : slot_addr (n * 4096) i c ≢ 0
  slot-not_null e = omega (arith, e, slot_at c laid n i page slot, laid.behind)

pub slots_few : (c : KSlabCache) → IsLaid c → c.slots_per_slab < 2 ^ 32
slots_few c laid = omega (arith, laid.fits, mul-le-mul_left c.slots_per_slab laid.wide)
