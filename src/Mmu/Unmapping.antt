-- ===== src/Mmu/Unmapping.antt =====
-- `pt_unmap` of pt.c.
use arm_os.Base.{
  ℕ, zero, suc, ◌+◌, Bool, true, ◌&&◌, not, ◌==◌, if◌then◌else◌, add64, mul64, Unit, tt, Result, ok,
  err, einval,
}
use arm_os.Mmu.Entry.{extract_indices, pte_valid, page_mask, ps_4kb, ps_2mb, ps_1gb}
use arm_os.Mmu.Cpu.{pt_invalidate}
use arm_os.Mmu.State.{FrameSource, Mmu, set_entry, release_frame}

-- The loop of `is_pt_empty` over the first `k` entries; the order of the reads does not matter.
unfoldable pub all_zero : (k : ℕ) → (ℕ → ℕ) → Bool
all_zero zero row = true
all_zero (suc k) row = (row k == 0) && all_zero k row

unfoldable pub is_pt_empty : (ℕ → ℕ) → Bool
unfolding all_zero
is_pt_empty row = all_zero 512 row

module _ {b : FrameSource} where
  -- An empty table is released and its entry `i` in `parent` cleared.
  unfoldable pub prune : (table parent i : ℕ) → Mmu b → Mmu b
  unfolding set_entry
  prune table parent i m =
      if is_pt_empty (m.tables table) then set_entry parent i 0 (release_frame table m) else m

  unfoldable pub pt_unmap_single_page : (l0 vaddr pg_size : ℕ) → Mmu b → Mmu b
  unfolding set_entry prune
  pt_unmap_single_page l0 vaddr pg_size m =
      let idx = extract_indices vaddr in
      let e0 = m.tables l0 idx.l0_index in
      let l1 = page_mask e0 in
      let prune_l1 = λ (s : Mmu b). prune l1 l0 idx.l0_index s in
      let e1 = m.tables l1 idx.l1_index in
      let l2 = page_mask e1 in
      let prune_l2 = λ (s : Mmu b). prune_l1 (prune l2 l1 idx.l1_index s) in
      let e2 = m.tables l2 idx.l2_index in
      let l3 = page_mask e2 in
      let cleared = if pg_size == ps_4kb then set_entry l3 idx.l3_index 0 m else m in
      if not (pte_valid e0)
      then m
      else if pg_size == ps_1gb
      then prune_l1 (set_entry l1 idx.l1_index 0 m)
      else if not (pte_valid e1)
      then m
      else if pg_size == ps_2mb
      then prune_l2 (set_entry l2 idx.l2_index 0 m)
      else if not (pte_valid e2)
      then m
      else prune_l2 (prune l3 l2 idx.l2_index cleared)

  -- The loop over the pages that are left.
  unfoldable pub unmap_pages : (k i l0 virt pg_size : ℕ) → Mmu b → Mmu b
  unfolding pt_unmap_single_page
  unmap_pages zero i l0 virt pg_size m = m
  unmap_pages (suc k) i l0 virt pg_size m =
      unmap_pages k (i + 1) l0 virt pg_size
        (pt_unmap_single_page l0 (add64 virt (mul64 i pg_size)) pg_size m)

  unfoldable pub pt_unmap : (root virt pg_count pg_size : ℕ) → Mmu b → Result (Unit {0}) × Mmu b
  unfolding unmap_pages
  pt_unmap root virt pg_count pg_size m =
      let m' = unmap_pages pg_count 0 root virt pg_size m in
      if root == 0
      then (err einval, m)
      else (ok tt, record m' { cpu = pt_invalidate virt pg_count pg_size m'.cpu })
