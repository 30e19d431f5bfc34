-- ===== src/Pmm/Orders.antt =====
-- Every operation of pmm.c leaves each page with an order that names a free list.
use arm_os.Base.{
  ℕ, zero, suc, ◌+◌, ◌-◌, ◌<◌, ◌≤◌, arith, ◌==◌, ◌||◌, ltb, leb, Bool-cases, inl, inr, add64,
  bit_xor, not, update, ◌%◌, ◌/◌,
}
use arm_os.Pmm.State.{
  Pmm, mark_taken, mark_free, as_taken, as_free, block_pages, block_bytes, list_add, list_remove,
  kv_to_paddr, to_index,
}
use arm_os.Pmm.Marks.{mark_pages-HasOrders, HasOrders}
use arm_os.Pmm.Alloc.{split_loop, claim}
use arm_os.Pmm.Free.{Merged, merge_loop, give_back, free_page, retain, release}
use arm_os.Pmm.Reserve.{as_reserved, reserve_block, reserve_loop, reserve_range}

pub mark_free-HasOrders :
    (index order : ℕ) (s : Pmm) → order < 64 → HasOrders s → HasOrders (mark_free index order s)
unfolding mark_free
mark_free-HasOrders index order s h o =
    mark_pages-HasOrders (block_pages order) index (as_free order) s.meta_array o (λ i. h)

pub mark_taken-HasOrders :
    (index order : ℕ) (s : Pmm) → HasOrders s → HasOrders (mark_taken index order s)
unfolding mark_taken
mark_taken-HasOrders index order s o =
    mark_pages-HasOrders (block_pages order) index as_taken s.meta_array o o

pub split_loop-HasOrders :
    (k p phys : ℕ) (s : Pmm) → p + k ≤ 64 → HasOrders s → HasOrders (split_loop k p phys s)
unfolding split_loop list_add
split_loop-HasOrders zero p phys s h o = o
split_loop-HasOrders (suc k) p phys s h o =
    split_loop-HasOrders k p phys _ (omega arith) (mark_free-HasOrders _ (p + k) s (omega arith) o)

pub claim-HasOrders :
    (found p node : ℕ) (s : Pmm)
    → p ≤ found
    → found < 64
    → HasOrders s
    → HasOrders (claim found p node s).1
unfolding claim list_remove
claim-HasOrders found p node s h i o =
    let phys = kv_to_paddr s node in
    let removed = list_remove found node s in
    let split =
      split_loop-HasOrders (found - p) p phys (mark_taken (to_index phys) found removed)
        (omega arith) (mark_taken-HasOrders (to_index phys) found removed o) in
    λ j. ground (arith, split j)

merge_loop-HasOrders :
    (k order frame : ℕ) (s : Pmm) → HasOrders s → HasOrders (merge_loop k order frame s).state
unfolding merge_loop list_remove
merge_loop-HasOrders zero order frame s o = o
merge_loop-HasOrders (suc k) order frame s o =
    let buddy = bit_xor frame (block_bytes order) in
    let index = to_index buddy in
    let m = s.meta_array index in
    elim (Bool-cases (leb s.total_pages index || (not m.is_free || not (m.order == order)))) [
      | inl e ↦ rw e o
      | inr e ↦ rw e (merge_loop-HasOrders k (order + 1) _ _ (mark_taken-HasOrders index order _ o))
    ]

pub merge_loop-order :
    (k order frame : ℕ) (s : Pmm) → (merge_loop k order frame s).order ≤ order + k
unfolding merge_loop
merge_loop-order zero order frame s = omega arith
merge_loop-order (suc k) order frame s =
    let buddy = bit_xor frame (block_bytes order) in
    let index = to_index buddy in
    let m = s.meta_array index in
    elim (Bool-cases (leb s.total_pages index || (not m.is_free || not (m.order == order)))) [
      | inl e ↦ rw e (omega arith)
      | inr e ↦ rw e (omega (arith, merge_loop-order k (order + 1) _ _))
    ]

give_back-HasOrders :
    (freed : ℕ) (m : Merged) → m.order < 64 → HasOrders m.state → HasOrders (give_back freed m)
unfolding give_back list_add
give_back-HasOrders freed m h o = mark_free-HasOrders (to_index m.frame) m.order m.state h o

pub free_page-HasOrders : (p frame : ℕ) (s : Pmm) → HasOrders s → HasOrders (free_page p frame s).1
unfolding free_page
free_page-HasOrders p frame s o = elim (Bool-cases (leb 64 p || not (frame % 4096 == 0))) [
  | inl e ↦ rw e o
  | inr e ↦ rw e (
      give_back-HasOrders (block_bytes p) (merge_loop (63 - p) p frame s)
        (ground (arith, merge_loop-order (63 - p) p frame s))
        (merge_loop-HasOrders (63 - p) p frame s o))
]

pub retain-HasOrders : (frame : ℕ) (s : Pmm) → HasOrders s → HasOrders (retain frame s).1
unfolding retain
retain-HasOrders frame s o i = ground (arith, o i, o (to_index frame))

pub release-HasOrders : (frame : ℕ) (s : Pmm) → HasOrders s → HasOrders (release frame s).1
unfolding release
release-HasOrders frame s o =
    let index = to_index frame in
    let m = s.meta_array index in
    let dropped = record s {
      meta_array = update s.meta_array index (record m { ref_count = m.ref_count - 1 });
    } in
    let low : HasOrders dropped = λ i. ground (arith, o i, o index) in
    elim (Bool-cases (leb s.total_pages index || m.is_free)) [
      | inl e ↦ rw e o
      | inr e ↦ elim (Bool-cases (ltb 0 m.ref_count)) [
        | inr e' ↦ rw (e, e') o
        | inl e' ↦ elim (Bool-cases (m.ref_count - 1 == 0)) [
          | inl z ↦ rw (e, e', z) (free_page-HasOrders m.order frame dropped low)
          | inr z ↦ rw (e, e', z) low
        ]
      ]
    ]

pub reserve_block-HasOrders :
    (index : ℕ) (s : Pmm) → HasOrders s → HasOrders (reserve_block index s)
unfolding reserve_block list_remove
reserve_block-HasOrders index s o =
    mark_pages-HasOrders (block_pages (s.meta_array index).order) _ as_reserved s.meta_array o
      (λ i. omega arith)

reserve_loop-HasOrders :
    (k index end : ℕ) (s : Pmm) → HasOrders s → HasOrders (reserve_loop k index end s)
unfolding reserve_loop
reserve_loop-HasOrders zero index end s o = o
reserve_loop-HasOrders (suc k) index end s o = elim (Bool-cases (ltb index end)) [
  | inr e ↦ rw e o
  | inl e ↦ elim (Bool-cases (s.meta_array index).is_free) [
    | inl f ↦ rw (e, f) (reserve_loop-HasOrders k _ end _ (reserve_block-HasOrders index s o))
    | inr f ↦ rw (e, f) (reserve_loop-HasOrders k _ end s o)
  ]
]

pub reserve_range-HasOrders :
    (start sz : ℕ) (s : Pmm) → HasOrders s → HasOrders (reserve_range start sz s).1
unfolding reserve_range
reserve_range-HasOrders start sz s o =
    let last = to_index start + add64 sz 4095 / 4096 in
    elim (Bool-cases (not (start % 4096 == 0) || (sz == 0))) [
      | inl e ↦ rw e o
      | inr e ↦ elim (Bool-cases (ltb s.total_pages last)) [
        | inl e' ↦ rw (e, e') o
        | inr e' ↦ rw (e, e') (reserve_loop-HasOrders _ (to_index start) last s o)
      ]
    ]
