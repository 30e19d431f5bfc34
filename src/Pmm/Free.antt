-- ===== src/Pmm/Free.antt =====
-- `pmm_free_page`, `pmm_retain` and `pmm_release` of pmm.c.
use arm_os.Base.{
  ℕ, zero, suc, ◌+◌, ◌-◌, ◌%◌, ◌^◌, ◌||◌, not, ◌==◌, ltb, leb, if◌then◌else◌, update, add64,
  bit_xor, Unit, tt, Result, ok, err, efault, einval,
}
use arm_os.Pmm.State.{
  Pmm, max_order, page_size, to_kv, to_index, block_bytes, list_add, list_remove, mark_taken,
  mark_free,
}

-- Where the merging ends: the order and the frame of the merged block, and the state without the
-- buddies that it took in.
pub record Merged : Type 0 where
  pub order : ℕ
  pub frame : ℕ
  pub state : Pmm

-- `while (current_order < PMM_MAX_ORDER - 1)`; `rounds` is `63 - current_order`.
unfoldable pub merge_loop : (rounds order frame : ℕ) → Pmm → Merged
merge_loop zero order frame s = record { order = order; frame = frame; state = s }
merge_loop (suc k) order frame s =
    let buddy = bit_xor frame (block_bytes order) in
    let index = to_index buddy in
    let m = s.meta_array index in
    let rest =
      merge_loop k (order + 1) (if ltb frame buddy then frame else buddy)
        (mark_taken index order (list_remove order (to_kv s buddy) s)) in
    if leb s.total_pages index || (not m.is_free || not (m.order == order))
    then record { order = order; frame = frame; state = s }
    else rest

-- The merged block goes to its list, and the freed bytes are counted.
unfoldable pub give_back : (freed : ℕ) → Merged → Pmm
give_back freed m =
    let marked = mark_free (to_index m.frame) m.order m.state in
    let added = list_add m.order (to_kv m.state m.frame) marked in
    record added { free_memory_bytes = add64 added.free_memory_bytes freed }

unfoldable pub free_page : (page_order frame : ℕ) → Pmm → Result (Unit {0}) × Pmm
unfolding merge_loop give_back
free_page page_order frame s =
    if leb max_order page_order || not (frame % page_size == 0) then (err einval, s) else (
      ok tt,
      give_back (block_bytes page_order)
          (merge_loop (max_order - 1 - page_order) page_order frame s),
    )

unfoldable pub retain : ℕ → Pmm → Result (Unit {0}) × Pmm
retain frame s =
    let index = to_index frame in
    let m = s.meta_array index in
    if leb s.total_pages index || m.is_free then (err efault, s) else (
      ok tt,
      record s {
        meta_array =
            update s.meta_array index (record m { ref_count = (m.ref_count + 1) % 2 ^ 32 });
      },
    )

unfoldable pub release : ℕ → Pmm → Result (Unit {0}) × Pmm
unfolding free_page
release frame s =
    let index = to_index frame in
    let m = s.meta_array index in
    let dropped = record s {
      meta_array = update s.meta_array index (record m { ref_count = m.ref_count - 1 });
    } in
    if leb s.total_pages index || m.is_free
    then (err efault, s)
    else if ltb 0 m.ref_count
    then (if m.ref_count - 1 == 0 then free_page m.order frame dropped else (ok tt, dropped))
    else (err efault, s)
