-- ===== src/Pmm/Reserve.antt =====
-- `pmm_reserve_range` and the two queries of pmm.c.
use arm_os.Base.{
  ℕ, zero, suc, ◌+◌, ◌-◌, ◌%◌, ◌/◌, ◌||◌, not, false, ◌==◌, ltb, if◌then◌else◌, add64, sub64,
  align_down, Unit, tt, Result, ok, err, einval,
}
use arm_os.Pmm.State.{
  PageMeta, Pmm, page_size, to_kv, to_index, index_to_paddr, block_pages, block_bytes, list_remove,
  mark_pages,
}

abbrev pub as_reserved : PageMeta → PageMeta
as_reserved m = record m { is_free = false; ref_count = 1; order = 0 }

-- The whole free block that holds the page `index` leaves its list and is marked as taken.
unfoldable pub reserve_block : (index : ℕ) → Pmm → Pmm
reserve_block index s =
    let order = (s.meta_array index).order in
    let base = align_down index (block_pages order) in
    let removed = list_remove order (to_kv s (index_to_paddr base)) s in
    record removed {
      meta_array = mark_pages (block_pages order) base as_reserved removed.meta_array;
      free_memory_bytes = sub64 removed.free_memory_bytes (block_bytes order);
    }

-- The index from which the loop goes on after a block.
unfoldable pub after_block : (index : ℕ) → Pmm → ℕ
after_block index s =
    let order = (s.meta_array index).order in
    align_down index (block_pages order) + block_pages order

-- `for (idx = start; idx < end; idx++)`. Each round goes on past its page, so `end - start` rounds
-- are enough.
unfoldable pub reserve_loop : (rounds index end : ℕ) → Pmm → Pmm
unfolding after_block
reserve_loop zero index end s = s
reserve_loop (suc k) index end s =
    let m = s.meta_array index in
    let next = if m.is_free then after_block index s else index + 1 in
    let rest = reserve_loop k next end (if m.is_free then reserve_block index s else s) in
    if ltb index end then rest else s

unfoldable pub reserve_range : (start sz : ℕ) → Pmm → Result (Unit {0}) × Pmm
unfolding reserve_loop
reserve_range start sz s =
    let first = to_index start in
    let last = first + add64 sz (page_size - 1) / page_size in
    if not (start % page_size == 0) || (sz == 0)
    then (ok tt, s)
    else if ltb s.total_pages last
    then (err einval, s)
    else (ok tt, reserve_loop (last - first) first last s)

unfoldable pub get_total_memory : Pmm → ℕ
get_total_memory s = s.total_memory_bytes

unfoldable pub get_free_memory : Pmm → ℕ
get_free_memory s = s.free_memory_bytes
