-- ===== src/Mmu/Mapping.antt =====
-- `pt_map` and `pt_alloc` of pt.c. The code returns its error numbers negated.
use arm_os.Base.{
  ℕ, zero, suc, ◌+◌, ◌%◌, ◌||◌, not, ltb, ◌==◌, if◌then◌else◌, add64, mul64, Unit, tt, Result, ok,
  err, einval, eoverflow,
}
use arm_os.Mmu.Entry.{extract_indices, ps_2mb, ps_1gb, block_entry, page_entry}
use arm_os.Mmu.Cpu.{pt_invalidate}
use arm_os.Mmu.State.{FrameSource, Mmu, on_ok, clear_table, resolve, place}

module _ {b : FrameSource} where
  unfoldable pub pt_map_single_page :
      (l0 vaddr paddr pg_size f : ℕ) → Mmu b → Result (Unit {0}) × Mmu b
  unfolding resolve place
  pt_map_single_page l0 vaddr paddr pg_size f m =
      let idx = extract_indices vaddr in
      on_ok (resolve l0 idx.l0_index m) λ l1 m1.
        if pg_size == ps_1gb
        then place l1 idx.l1_index (block_entry ps_1gb paddr f) m1
        else on_ok (resolve l1 idx.l1_index m1) λ l2 m2.
          if pg_size == ps_2mb
          then place l2 idx.l2_index (block_entry ps_2mb paddr f) m2
          else on_ok (resolve l2 idx.l2_index m2)
              λ l3 m3. place l3 idx.l3_index (page_entry paddr f) m3

  -- The loop over the pages that are left; it stops at the first failure.
  unfoldable pub map_pages : (k i l0 virt phys pg_size f : ℕ) → Mmu b → Result (Unit {0}) × Mmu b
  unfolding pt_map_single_page
  map_pages zero i l0 virt phys pg_size f m = (ok tt, m)
  map_pages (suc k) i l0 virt phys pg_size f m =
      on_ok
        (pt_map_single_page l0 (add64 virt (mul64 i pg_size)) (add64 phys (mul64 i pg_size)) pg_size
          f m)
        λ _ m'. map_pages k (i + 1) l0 virt phys pg_size f m'

  unfoldable pub pt_map :
      (root virt phys pg_count pg_size f : ℕ) → Mmu b → Result (Unit {0}) × Mmu b
  unfolding map_pages
  pt_map root virt phys pg_count pg_size f m =
      if root == 0
      then (err einval, m)
      else if not (virt % pg_size == 0) || not (phys % pg_size == 0)
      then (err einval, m)
      else if ltb (add64 virt (mul64 pg_count pg_size)) virt
      then (err eoverflow, m)
      else on_ok (map_pages pg_count 0 root virt phys pg_size f m)
          λ _ m'. (ok tt, record m' { cpu = pt_invalidate virt pg_count pg_size m'.cpu })

  -- The clearing goes through the physical address itself and not through the direct map; the two
  -- are one here.
  unfoldable pub pt_alloc : (out_root : ℕ) → Mmu b → Result ℕ × Mmu b
  unfolding clear_table
  pt_alloc out_root m =
      let (r, frames) = b.alloc_page m.frames in
      let m1 = record m { frames = frames } in
      let done : Result ℕ × Mmu b = elim r [
        | err e ↦ (err e, m1)
        | ok t ↦ (ok t, clear_table t m1)
      ] in
      if out_root == 0 then (err einval, m) else done
