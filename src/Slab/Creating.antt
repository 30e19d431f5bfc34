-- ===== src/Slab/Creating.antt =====
-- What `k_slab_create_cache` promises of the cache it answers.
use native.Mathlib.Nat.{
  mul-mod_left, div-add-mod', mul-zero, zero-mul, suc-mul, add-mul, add-mul-div_right,
  lt-div-mul-add, div-mul-le_self, mul_assoc, le-div_iff_mul-le,
}
use arm_os.Base.{
  ℕ, zero, suc, ◌+◌, ◌-◌, ◌*◌, ◌/◌, ◌%◌, ◌^◌, ◌≤◌, ◌<◌, ◌≡◌, refl, ap, ◌∙◌, false, ltb, add64,
  align_up, arith, ok, Bool-cases, ◌⊎◌, inl, inr,
}
use arm_os.Vmm.State.{Backend, Vmm}
use arm_os.Slab.State.{KSlabCache, slot_addr, get_payload_start}
use arm_os.Slab.Cache.{aligned_obj_size, payload_room, new_cache, refuses, k_slab_create_cache}
use arm_os.Slab.Release.{slot_of, misplaced}
use arm_os.Slab.Layout.{IsLaid, slot_within, slot_at, slot_of-slot_addr, slot-misplaced}

-- The slot `i` of a slab on page `n`: behind the header and in the page, aligned, one slot behind
-- the one in front, and what `k_slab_free` takes its address for.
unfoldable pub IsPlaced : (a n i : ℕ) → KSlabCache → Type 0
IsPlaced a n i c =
    (n * 4096 + 24 ≤ slot_addr (n * 4096) i c)
    × (slot_addr (n * 4096) i c + c.obj_size ≤ n * 4096 + 4096)
    × (slot_addr (n * 4096) i c % a ≡ 0)
    × (slot_addr (n * 4096) i c ≡ slot_addr (n * 4096) 0 c + i * c.obj_size)
    × (misplaced (slot_addr (n * 4096) i c) c ≡ false)
    × (slot_of (slot_addr (n * 4096) i c) c ≡ i)

divisor-pos : (a m : ℕ) → m * a ≡ 4096 → 0 < a
divisor-pos zero m e = absurd (omega (arith, e, mul-zero m))
divisor-pos (suc k) m e = omega arith

-- A divisor of 4096 is the whole or at most the half.
divisor_cases : (a m : ℕ) → m * a ≡ 4096 → (a ≡ 4096) ⊎ (a ≤ 2048)
divisor_cases a zero e = absurd (omega (arith, e, zero-mul a))
divisor_cases a (suc zero) e = inl (omega (arith, e))
divisor_cases a (suc (suc k)) e = inr (omega (arith, e, suc-mul (suc k) a, suc-mul k a))

small_divisor : (a m : ℕ) → m * a ≡ 4096 → a ≤ 3 → 4 % a ≡ 0
small_divisor zero m e h = absurd (omega (arith, e, mul-zero m))
small_divisor (suc zero) m e h = refl
small_divisor (suc (suc zero)) m e h = refl
small_divisor (suc (suc (suc zero))) m e h = absurd (omega (arith, e))
small_divisor (suc (suc (suc (suc k)))) m e h = absurd (omega (arith, h))

-- Products by a quotient that is not 0.
once : (q a : ℕ) → 1 ≤ q * a → a ≤ q * a
once zero a h = absurd (omega (arith, h, zero-mul a))
once (suc k) a h = omega (arith, suc-mul k a)

-- An alignment that divides the size of a page.
module _ (a m : ℕ) (divides : m * a ≡ 4096) where
  positive : 0 < a
  positive = divisor-pos a m divides

  at_most : a ≤ 4096
  at_most = elim (divisor_cases a m divides) [ inl e ↦ omega (arith, e) | inr h ↦ omega (arith, h) ]

  abbrev payload : ℕ
  payload = (23 + a) / a * a

  payload_align : align_up 24 a ≡ payload
  payload_align =
      let sum : add64 24 (a - 1) ≡ 23 + a = omega (arith, positive, at_most) in
      ap (λ x. x / a * a) sum

  payload_least : 24 ≤ payload
  payload_least = omega (arith, lt-div-mul-add {a = 23 + a} {b = a} positive)

  payload_most : payload ≤ 4096
  payload_most = elim (divisor_cases a m divides) [
    | inl e ↦ rw e (omega arith)
    | inr h ↦ omega (arith, h, div-mul-le_self (23 + a) a)
  ]

  pub payload_start : (n : ℕ) → suc n < 2 ^ 52 → get_payload_start (n * 4096) a ≡ n * 4096 + payload
  unfolding get_payload_start
  payload_start n page =
      let whole : n * m * a ≡ n * 4096 = mul_assoc n m a ∙ ap (λ x. n * x) divides in
      let sum : add64 (add64 (n * 4096) 24) (a - 1) ≡ 23 + a + n * m * a =
        omega (arith, positive, at_most, whole) in
      ap (λ x. x / a * a) sum
      ∙ ap (λ q. q * a) (add-mul-div_right (23 + a) (n * m) {z = a} positive)
      ∙ add-mul ((23 + a) / a) (n * m) a
      ∙ omega (arith, whole)

  -- The sizes of a cache that is not refused.
  module _ (root size out : ℕ) (accepted : refuses size a out ≡ false) where
    room : payload_room a ≡ 4096 - payload
    unfolding payload_room
    room = rw payload_align (omega (arith, payload_most))

    obj_size_wide : 4 ≤ aligned_obj_size size a
    unfolding aligned_obj_size
    obj_size_wide = ground arith

    obj_size_fits : aligned_obj_size size a ≤ 4096 - payload
    unfolding refuses
    obj_size_fits = rw (← room) (ground arith)

    pub new_cache-IsLaid : IsLaid (new_cache root size a)
    unfolding new_cache
    new_cache-IsLaid = record {
      start = payload;
      starts = payload_start;
      behind = payload_least;
      wide = obj_size_wide;
      fits =
          rw room (
            omega
              (arith, payload_most, div-mul-le_self (4096 - payload) (aligned_obj_size size a)));
    }

    pub slots-pos : 1 ≤ (new_cache root size a).slots_per_slab
    unfolding new_cache
    slots-pos =
        let fits : 1 * aligned_obj_size size a ≤ 4096 - payload = omega (arith, obj_size_fits) in
        rw room (
          (le-div_iff_mul-le {k = aligned_obj_size size a} {x = 1} {y = 4096 - payload}
              (omega (arith, obj_size_wide))).1
            fits)

    pub obj_size_holds : size + a ≤ 2 ^ 64 → size ≤ (new_cache root size a).obj_size
    unfolding new_cache aligned_obj_size
    obj_size_holds h =
        let sum : add64 size (a - 1) ≡ size + a - 1 = omega (arith, positive, at_most, h) in
        let least = lt-div-mul-add {a = size + a - 1} {b = a} positive in
        rw sum (ground (arith, least, positive))

    obj_size_aligned : size + a ≤ 2 ^ 64 → aligned_obj_size size a % a ≡ 0
    unfolding aligned_obj_size refuses
    obj_size_aligned h =
        let sum : add64 size (a - 1) ≡ size + a - 1 = omega (arith, positive, at_most, h) in
        let some_bytes : 1 ≤ size = ground (arith, accepted) in
        let q = (size + a - 1) / a in
        let least = lt-div-mul-add {a = size + a - 1} {b = a} positive in
        let reaches : 1 ≤ q * a = omega (arith, least, some_bytes, positive) in
        rw sum (elim (Bool-cases (ltb (q * a) 4)) [
          | inl few ↦ rw few (small_divisor a m divides (ground (arith, once q a reaches, few)))
          | inr many ↦ rw many (mul-mod_left q a)
        ])

    slot_aligned :
        size + a ≤ 2 ^ 64 → (n i : ℕ) → (n * 4096 + payload + i * aligned_obj_size size a) % a ≡ 0
    slot_aligned h n i =
        let s = aligned_obj_size size a in
        let whole : n * m * a ≡ n * 4096 = mul_assoc n m a ∙ ap (λ x. n * x) divides in
        let wide : s / a * a ≡ s = omega (arith, div-add-mod' s a, obj_size_aligned h) in
        let spread : i * (s / a) * a ≡ i * s = mul_assoc i (s / a) a ∙ ap (λ x. i * x) wide in
        let total : n * 4096 + payload + i * s ≡ (n * m + (23 + a) / a + i * (s / a)) * a = omega (
          arith,
          whole,
          spread,
          add-mul (n * m + (23 + a) / a) (i * (s / a)) a,
          add-mul (n * m) ((23 + a) / a) a,
        ) in
        rw total (mul-mod_left (n * m + (23 + a) / a + i * (s / a)) a)

    new_cache-IsPlaced :
        size + a ≤ 2 ^ 64
        → (n i : ℕ) → suc n < 2 ^ 52
        → i < (new_cache root size a).slots_per_slab
        → IsPlaced a n i (new_cache root size a)
    unfolding IsPlaced new_cache new_cache-IsLaid
    new_cache-IsPlaced h n i page slot =
        let laid = new_cache-IsLaid in
        let cache = new_cache root size a in
        let at = slot_at cache laid n i page slot in
        let first = slot_at cache laid n 0 page slots-pos in
        let ends = slot_within cache laid n i page slot in
        (
          rw at (omega (arith, payload_least)),
          rw at (omega (arith, ends)),
          rw at (slot_aligned h n i),
          rw (at, first) (omega (arith, zero-mul (aligned_obj_size size a))),
          slot-misplaced cache laid n i page slot,
          slot_of-slot_addr cache laid n i page slot,
        )

module _ {b : Backend} (root size a out : ℕ) (v : Vmm b) (vaddr : ℕ) (c : KSlabCache)
    (made : (k_slab_create_cache root size a out v).0 ≡ ok (vaddr, c)) where
  created : (refuses size a out ≡ false) × (c ≡ new_cache root size a)
  unfolding k_slab_create_cache
  created = ground (arith, made)

  pub create_cache-slots :
      (m : ℕ)
      → m * a ≡ 4096
      → size + a ≤ 2 ^ 64
      → (n i : ℕ) → suc n < 2 ^ 52
      → i < c.slots_per_slab
      → (size ≤ c.obj_size) × (1 ≤ c.slots_per_slab) × IsPlaced a n i c
  create_cache-slots m divides h n i page slot =
      let (accepted, made_as) = created in
      rw made_as (
        obj_size_holds a m divides root size out accepted h,
        slots-pos a m divides root size out accepted,
        new_cache-IsPlaced a m divides root size out accepted h n i page (rw made_as at slot),
      )
