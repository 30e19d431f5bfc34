-- ===== src/Mmu/Protecting.antt =====
-- `pt_protect` of pt.c.
use arm_os.Base.{
  ℕ, zero, suc, ◌+◌, not, bit_or, ◌==◌, if◌then◌else◌, add64, mul64, Unit, tt, Result, ok, err,
  einval, efault,
}
use arm_os.Mmu.Entry.{
  extract_indices, pte_valid, page_mask, pte_addr, with_descriptor, ps_4kb, ps_2mb, ps_1gb,
}
use arm_os.Mmu.Cpu.{pt_invalidate}
use arm_os.Mmu.State.{FrameSource, Mmu, on_ok, set_entry}

module _ {b : FrameSource} where
  unfoldable pub pt_protect_single_page :
      (l0 vaddr pg_size f : ℕ) → Mmu b → Result (Unit {0}) × Mmu b
  unfolding set_entry
  pt_protect_single_page l0 vaddr pg_size f m =
      let idx = extract_indices vaddr in
      let e0 = m.tables l0 idx.l0_index in
      let l1 = page_mask e0 in
      let e1 = m.tables l1 idx.l1_index in
      let l2 = page_mask e1 in
      let e2 = m.tables l2 idx.l2_index in
      let l3 = page_mask e2 in
      let e3 = m.tables l3 idx.l3_index in
      if not (pte_valid e0)
      then (err efault, m)
      else if not (pte_valid e1)
      then (err efault, m)
      else if pg_size == ps_1gb
      then (ok tt, set_entry l1 idx.l1_index (bit_or (pte_addr e1) f) m)
      else if not (pte_valid e2)
      then (err efault, m)
      else if pg_size == ps_2mb
      then (ok tt, set_entry l2 idx.l2_index (bit_or (pte_addr e2) f) m)
      else if not (pg_size == ps_4kb)
      then (ok tt, m)
      else if not (pte_valid e3)
      then (err efault, m)
      else (ok tt, set_entry l3 idx.l3_index (with_descriptor (bit_or (pte_addr e3) f)) m)

  -- The loop over the pages that are left; it stops at the first failure.
  unfoldable pub protect_pages : (k i l0 virt pg_size f : ℕ) → Mmu b → Result (Unit {0}) × Mmu b
  unfolding pt_protect_single_page
  protect_pages zero i l0 virt pg_size f m = (ok tt, m)
  protect_pages (suc k) i l0 virt pg_size f m =
      on_ok (pt_protect_single_page l0 (add64 virt (mul64 i pg_size)) pg_size f m)
        λ _ m'. protect_pages k (i + 1) l0 virt pg_size f m'

  unfoldable pub pt_protect : (root virt pg_count pg_size f : ℕ) → Mmu b → Result (Unit {0}) × Mmu b
  unfolding protect_pages
  pt_protect root virt pg_count pg_size f m =
      if root == 0
      then (err einval, m)
      else on_ok (protect_pages pg_count 0 root virt pg_size f m)
          λ _ m'. (ok tt, record m' { cpu = pt_invalidate virt pg_count pg_size m'.cpu })
