-- ===== src/Pmm/Reserving.antt =====
-- The pages that `pmm_reserve_range` takes.
use native.Mathlib.Nat.{one-le-pow, div-mul-le_self, lt-div-mul-add}
use native.Mathlib.Decide.{dec_lt}
use arm_os.Base.{
  ℕ, zero, suc, ◌+◌, ◌-◌, ◌/◌, ◌%◌, ◌^◌, ◌<◌, ◌≤◌, ◌≡◌, refl, arith, true, false, ◌==◌, ◌||◌, not,
  ltb, Bool-cases, inl, inr, ap, ok, tt, add64, align_down, ◌∙◌,
}
use arm_os.Pmm.State.{Pmm, list_remove, to_index, block_pages}
use arm_os.Pmm.Marks.{mark_pages-at}
use arm_os.Pmm.Reserve.{as_reserved, reserve_block, after_block, reserve_loop, reserve_range}

-- A page is in the aligned block of its size that `&` with the mask finds.
block_bounds :
    (index o : ℕ)
    → (align_down index (block_pages o) ≤ index)
      × (index < align_down index (block_pages o) + block_pages o)
block_bounds index o =
    (div-mul-le_self index (2 ^ o), lt-div-mul-add (omega (arith, one-le-pow o 2)))

reserve_block-at :
    (index i : ℕ) (s : Pmm)
    → ((s.meta_array i).is_free ≡ false → ((reserve_block index s).meta_array i).is_free ≡ false)
      × (index ≤ i
          → i < after_block index s
          → ((reserve_block index s).meta_array i).is_free ≡ false)
unfolding reserve_block after_block list_remove
reserve_block-at index i s =
    let o = (s.meta_array index).order in
    let base = align_down index (block_pages o) in
    let marked = mark_pages-at (block_pages o) base as_reserved s.meta_array i in
    let bounds = block_bounds index o in
    (λ f. ground (arith, marked), λ l u. ground (arith, marked, bounds.0))

after_block-gt : (index : ℕ) (s : Pmm) → index < after_block index s
unfolding after_block
after_block-gt index s = (block_bounds index (s.meta_array index).order).1

reserve_loop-keeps :
    (k index end i : ℕ) (s : Pmm)
    → (s.meta_array i).is_free ≡ false
    → ((reserve_loop k index end s).meta_array i).is_free ≡ false
unfolding reserve_loop
reserve_loop-keeps zero index end i s f = f
reserve_loop-keeps (suc k) index end i s f = elim (Bool-cases (ltb index end)) [
  | inr e ↦ rw e f
  | inl e ↦ elim (Bool-cases (s.meta_array index).is_free) [
    | inl g ↦ rw (e, g) (reserve_loop-keeps k _ end i _ ((reserve_block-at index i s).0 f))
    | inr g ↦ rw (e, g) (reserve_loop-keeps k _ end i s f)
  ]
]

reserve_loop_clears :
    (k index end i : ℕ) (s : Pmm)
    → end ≤ index + k
    → index ≤ i
    → i < end
    → ((reserve_loop k index end s).meta_array i).is_free ≡ false
unfolding reserve_loop
reserve_loop_clears zero index end i s f l u = absurd (omega arith)
reserve_loop_clears (suc k) index end i s f l u =
    let go : ltb index end ≡ true = ground arith in
    elim (Bool-cases (s.meta_array index).is_free) [
      | inl g ↦ elim (dec_lt i (after_block index s)) [
        | yes below ↦
            rw (go, g) (reserve_loop-keeps k _ end i _ ((reserve_block-at index i s).1 l below))
        | no above ↦
            rw (go, g)
              (reserve_loop_clears k (after_block index s) end i (reserve_block index s)
                (omega (arith, after_block-gt index s)) (omega arith) u)
      ]
      | inr g ↦ elim (dec_lt index i) [
        | yes later ↦
            rw (go, g) (reserve_loop_clears k (index + 1) end i s (omega arith) (omega arith) u)
        | no here ↦
            let same : i ≡ index = omega arith in
            rw (go, g)
              (reserve_loop-keeps k _ end i s (ap (λ (n : ℕ). (s.meta_array n).is_free) same ∙ g))
      ]
    ]

-- Reserving a page-aligned range of at least one byte that ends within the managed pages succeeds,
-- and afterwards no page that the range touches is free.
pub reserve_range_clears :
    (start sz i : ℕ) (s : Pmm)
    → start % 4096 ≡ 0
    → 0 < sz
    → to_index start + add64 sz 4095 / 4096 ≤ s.total_pages
    → ((reserve_range start sz s).0 ≡ ok tt)
      × (to_index start ≤ i
          → i < to_index start + add64 sz 4095 / 4096
          → ((reserve_range start sz s).1.meta_array i).is_free ≡ false)
unfolding reserve_range
reserve_range_clears start sz i s al pos inside =
    let last = to_index start + add64 sz 4095 / 4096 in
    let good : (not (start % 4096 == 0) || (sz == 0)) ≡ false = ground arith in
    let room : ltb s.total_pages last ≡ false = ground arith in
    rw (good, room)
      (
        refl,
        λ l u.
            reserve_loop_clears (last - to_index start) (to_index start) last i s (omega arith) l u,
      )
