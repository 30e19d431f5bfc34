-- ===== src/Pmm/Alloc.antt =====
-- `pmm_alloc_page`, `pmm_alloc_aligned` and `pmm_alloc_in_range` of pmm.c.
use arm_os.Base.{
  ℕ, zero, suc, ◌+◌, ◌-◌, ◌%◌, Bool, ◌||◌, not, Option, none, some, ◌==◌, ltb, leb, if◌then◌else◌,
  update, add64, sub64, bit_and, Result, ok, err, enomem, einval,
}
use arm_os.Pmm.State.{
  Pmm, max_order, page_size, to_kv, kv_to_paddr, to_index, block_pages, block_bytes, list_add,
  list_remove, mark_taken, mark_free,
}

-- `while (current_order > page_order)`: the upper half of the block goes to the list of its order.
-- `rounds` is the difference of the two orders.
unfoldable pub split_loop : (rounds page_order phys : ℕ) → Pmm → Pmm
split_loop zero page_order phys s = s
split_loop (suc k) page_order phys s =
    let order = page_order + k in
    let buddy = add64 phys (block_bytes order) in
    split_loop k page_order phys
      (list_add order (to_kv s buddy) (mark_free (to_index buddy) order s))

-- What the three allocators do with the block that they chose: unlink it, clear its pages, split off
-- what is not needed, and set the first page's metadata.
unfoldable pub claim : (found page_order node : ℕ) → Pmm → ℕ × Pmm
claim found page_order node s =
    let phys = kv_to_paddr s node in
    let index = to_index phys in
    let cleared = mark_taken index found (list_remove found node s) in
    let split = split_loop (found - page_order) page_order phys cleared in
    let m = split.meta_array index in
    (
      phys,
      record split {
        meta_array = update split.meta_array index (record m { order = page_order; ref_count = 1 });
        free_memory_bytes = sub64 split.free_memory_bytes (block_bytes page_order);
      },
    )

abbrev pub claimed : ℕ × Pmm → Result ℕ × Pmm
claimed (phys, s) = (ok phys, s)

-- The search for the first order with a block.
unfoldable pub alloc_loop : (rounds current page_order : ℕ) → Pmm → Result ℕ × Pmm
alloc_loop zero current page_order s = (err enomem, s)
alloc_loop (suc k) current page_order s =
    let head = (s.orders current).head in
    let rest = alloc_loop k (current + 1) page_order s in
    if head == 0 then rest else claimed (claim current page_order head s)

-- `out` is the pointer where the frame is written, 0 for NULL.
unfoldable pub alloc_page : (page_order out : ℕ) → Pmm → Result ℕ × Pmm
unfolding alloc_loop
alloc_page page_order out s =
    if leb max_order page_order || (out == 0)
    then (err einval, s)
    else alloc_loop (max_order - page_order) page_order page_order s

-- `while ((1UL << target_order) < count)`, `none` where the order leaves the range.
unfoldable pub order_loop : (rounds target count : ℕ) → Option ℕ
order_loop zero target count = none
order_loop (suc k) target count =
    let rest = order_loop k (target + 1) count in
    if ltb (block_pages target) count then rest else some target

unfoldable pub order_of : ℕ → Option ℕ
unfolding order_loop
order_of count = order_loop max_order 0 count

-- The walk over the list of one order for a block that passes the test. A list that is a cycle
-- never ends it; `fuel` bounds the steps, and running out counts as no block.
unfoldable pub walk : (fuel : ℕ) → (ℕ → Bool) → (curr : ℕ) → Pmm → Option ℕ
walk zero test curr s = none
walk (suc k) test curr s =
    let rest = walk k test (s.nodes curr).next s in
    if curr == 0 then none else if test (kv_to_paddr s curr) then some curr else rest

unfoldable pub search_loop : (rounds : ℕ) → (ℕ → Bool) → (current target : ℕ) → Pmm → Result ℕ × Pmm
search_loop zero test current target s = (err enomem, s)
search_loop (suc k) test current target s =
    let list = s.orders current in
    let rest = search_loop k test (current + 1) target s in
    elim (walk (suc list.block_count) test list.head s) [
      | none ↦ rest
      | some node ↦ claimed (claim current target node s)
    ]

unfoldable pub alloc_aligned : (count alignment out : ℕ) → Pmm → Result ℕ × Pmm
unfolding search_loop
alloc_aligned count alignment out s =
    if (count == 0)
      || ltb alignment page_size
      || not (bit_and alignment (alignment - 1) == 0)
      || (out == 0)
    then (err einval, s)
    else elim (order_of count) [
      | none ↦ (err einval, s)
      | some target ↦
          search_loop (max_order - target) (λ phys. phys % alignment == 0) target target s
    ]

unfoldable pub alloc_in_range : (count max_addr out : ℕ) → Pmm → Result ℕ × Pmm
unfolding search_loop
alloc_in_range count max_addr out s =
    if (count == 0) || (out == 0) then (err einval, s) else elim (order_of count) [
      | none ↦ (err einval, s)
      | some target ↦
          search_loop (max_order - target) (λ phys. leb (add64 phys (block_bytes target)) max_addr)
            target target s
    ]
