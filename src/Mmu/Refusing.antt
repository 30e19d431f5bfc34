-- ===== src/Mmu/Refusing.antt =====
-- Errors of `pt_map`, and what `pt_protect` does to a block.
use arm_os.Mmu.Cpu.{pt_invalidate}
use arm_os.Base.{
  ℕ, suc, ◌/◌, ◌%◌, ◌^◌, ◌<◌, ◌≡◌, refl, ap, ◌∙◌, inl, inr, Bool, true, false, ◌&&◌, ◌==◌,
  Bool-cases, arith, tt, Result, ok, err, eexist, efault, bit_or, ◌≢◌, add64, mul64, Unit,
}
use arm_os.Base.Bits.{bit_or-parity}
use arm_os.Mmu.Entry.{
  extract_indices, pte_valid, has_table_bit, page_mask, pte_addr, page_entry, ps_4kb, ps_2mb,
}
use arm_os.Mmu.State.{FrameSource, Mmu, set_entry, resolve, place, on_ok}
use arm_os.Mmu.Translating.{l0_entry, l1_entry, l2_entry, l3_entry, decide, walk}
use arm_os.Mmu.Mapping.{pt_map_single_page}
use arm_os.Mmu.Protecting.{pt_protect_single_page, pt_protect, protect_pages}
use arm_os.Mmu.Clearing.{meets_block, walk-decide}
use arm_os.Mmu.Unmapped.{set_entry_self, block_among_table, block_among_table2}
use arm_os.Mmu.Owned.{IsTree}
use arm_os.Mmu.Mapped.{set_entry-other}
use arm_os.Mmu.Reading.{single_page, decide_tables_inv}

module _ {b : FrameSource} where
  resolve_there :
      (t i : ℕ) (m : Mmu b)
      → pte_valid (m.tables t i) ≡ true
      → resolve t i m ≡ (ok (page_mask (m.tables t i)), m)
  unfolding resolve
  resolve_there t i m v = rw v refl

  place_there :
      (t i e : ℕ) (m : Mmu b) → pte_valid (m.tables t i) ≡ true → place t i e m ≡ (err eexist, m)
  unfolding place
  place_there t i e m v = rw v refl

  -- Where `pt_translate` finds the address `v` in a page and not in a block, mapping a small page at
  -- `v` is refused with EEXIST, and nothing changes: no table, no frame.
  pub map_mapped :
      (root v p f : ℕ) (m : Mmu b) (r : ℕ × ℕ)
      → walk m.tables root v ≡ ok r
      → meets_block m.tables root v ≡ false
      → pt_map_single_page root v p ps_4kb f m ≡ (err eexist, m)
  map_mapped root v p f m r h free =
      let idx = extract_indices v in
      let e0 = l0_entry m.tables root v in
      let e1 = l1_entry m.tables root v in
      let e2 = l2_entry m.tables root v in
      let d : decide v e0 e1 e2 (l3_entry m.tables root v) ≡ ok r = unfold walk in h in
      let (v0, v1, v2, v3) = decide_tables_inv v e0 e1 e2 (l3_entry m.tables root v) r d in
      let t1 = block_among_table e0 e1 e2 v0 v1 free in
      let t2 = block_among_table2 e0 e1 e2 v0 v1 (v2 t1) free in
      single_page root v p f m
      ∙ ap
          (λ (x : Result ℕ × Mmu b). on_ok x λ l1 m1. on_ok (resolve l1 idx.l1_index m1) λ l2 m2.
            on_ok (resolve l2 idx.l2_index m2) λ l3 m3. place l3 idx.l3_index (page_entry p f) m3)
          (resolve_there root idx.l0_index m v0)
      ∙ ap
          (λ (x : Result ℕ × Mmu b). on_ok x λ l2 m2.
            on_ok (resolve l2 idx.l2_index m2) λ l3 m3. place l3 idx.l3_index (page_entry p f) m3)
          (resolve_there (page_mask e0) idx.l1_index m v1)
      ∙ ap (λ (x : Result ℕ × Mmu b). on_ok x λ l3 m3. place l3 idx.l3_index (page_entry p f) m3)
          (resolve_there (page_mask e1) idx.l2_index m (v2 t1))
      ∙ place_there (page_mask e2) idx.l3_index (page_entry p f) m (v3 t1 t2)

decide_no_block :
    (v e0 e1 e2 e3 : ℕ)
    → pte_valid e0 ≡ true
    → pte_valid e1 ≡ true
    → has_table_bit e1 ≡ true
    → pte_valid e2 ≡ false
    → decide v e0 e1 e2 e3 ≡ err efault
unfolding decide
decide_no_block v e0 e1 e2 e3 v0 v1 t1 v2 = rw (v0, v1, t1, v2) refl

-- A block of 2 MB behind tables of its own.
module _ {b : FrameSource} (owned : b.State → ℕ → Bool) (level : ℕ → ℕ) (root v f : ℕ) (m : Mmu b)
    (tree : IsTree owned level root m) (v0 : pte_valid (l0_entry m.tables root v) ≡ true)
    (v1 : pte_valid (l1_entry m.tables root v) ≡ true)
    (t1 : has_table_bit (l1_entry m.tables root v) ≡ true)
    (v2 : pte_valid (l2_entry m.tables root v) ≡ true) where
  abbrev l2 : ℕ
  l2 = page_mask (l1_entry m.tables root v)

  abbrev new_entry : ℕ
  new_entry = bit_or (pte_addr (l2_entry m.tables root v)) f

  abbrev written : Mmu b
  written = set_entry l2 (extract_indices v).l2_index new_entry m

  protect_block : pt_protect_single_page root v ps_2mb f m ≡ (ok tt, written)
  unfolding pt_protect_single_page
  protect_block = rw (v0, v1, v2) refl

  -- The table of the block lies two levels down.
  l1_level :
      (owned m.frames (page_mask (l0_entry m.tables root v)) ≡ true)
      × (level (page_mask (l0_entry m.tables root v)) ≡ 1)
  l1_level =
      let i = (extract_indices v).l0_index in
      let (o, l) =
        tree.down root i tree.root_owned (omega (arith, tree.root_level)) v0 (tree.top i v0) in
      (o, l ∙ ap suc tree.root_level)

  l2_level : level l2 ≡ 2
  l2_level =
      let (o, l) = l1_level in
      (tree.down (page_mask (l0_entry m.tables root v)) (extract_indices v).l1_index o (omega arith)
        v1 t1).1
      ∙ ap suc l

  apart : (g x : ℕ) → level g < 2 → ((g == l2) && (x == (extract_indices v).l2_index)) ≡ false
  apart g x high = elim (Bool-cases (g == l2)) [
    | inr e ↦ rw e refl
    | inl e ↦
        let same : g ≡ l2 = ground arith in absurd (omega (arith, ap level same, l2_level, high))
  ]

  cleared_bit : f % 2 ≡ 0 → pte_valid new_entry ≡ false
  cleared_bit even =
      let lowest = bit_or-parity (pte_addr (l2_entry m.tables root v)) f in
      let zero_bit : new_entry % 2 ≡ 0 = omega (arith, lowest) in rw zero_bit refl

  -- The call on the one block: the entry is written, and the translation buffer is told.
  protect_call :
      root ≢ 0
      → v < 2 ^ 64
      → pt_protect root v 1 ps_2mb f m
        ≡ (ok tt, record written { cpu = pt_invalidate v 1 ps_2mb written.cpu })
  protect_call live word =
      let at : add64 v (mul64 0 ps_2mb) ≡ v = omega arith in
      let no_root : (root == 0) ≡ false = ground arith in
      let finish = λ (x : Result (Unit {0}) × Mmu b).
        on_ok (on_ok x λ _ m'. (ok tt, m'))
          λ _ m'. (ok tt, record m' { cpu = pt_invalidate v 1 ps_2mb m'.cpu }) in
      unfold pt_protect protect_pages in
      rw no_root (
        ap (λ (x : ℕ). finish (pt_protect_single_page root x ps_2mb f m)) at
        ∙ ap finish protect_block)

  -- In a tree of tables, where the entries of the first three levels on the way to `v` are valid and
  -- the second one is a table, `pt_protect` of the one block of 2 MB at `v`, with flags whose bit 0
  -- is 0, as that of every flag of `mmu_flags` is, reports success and takes the block out of the
  -- translation: the walk to every address that shares the first three indices with `v` then ends in
  -- EFAULT.
  pub protect_block-unmaps :
      f % 2 ≡ 0
      → root ≢ 0
      → v < 2 ^ 64
      → ((pt_protect root v 1 ps_2mb f m).0 ≡ ok tt)
        × ((w : ℕ)
            → w / 2 ^ 21 ≡ v / 2 ^ 21
            → walk (pt_protect root v 1 ps_2mb f m).1.tables root w ≡ err efault)
  protect_block-unmaps even live word =
      let idx = extract_indices v in
      let (o1, n1) = l1_level in
      let e0 = l0_entry m.tables root v in
      let e1 = l1_entry m.tables root v in
      rw (protect_call live word) (
        refl,
        λ w near.
            let i0 : (extract_indices w).l0_index ≡ idx.l0_index = omega arith in
            let i1 : (extract_indices w).l1_index ≡ idx.l1_index = omega arith in
            let i2 : (extract_indices w).l2_index ≡ idx.l2_index = omega arith in
            let s0 =
              set_entry-other l2 idx.l2_index new_entry root idx.l0_index m
                (apart root idx.l0_index (omega (arith, tree.root_level))) in
            let s1 =
              set_entry-other l2 idx.l2_index new_entry (page_mask e0) idx.l1_index m
                (apart (page_mask e0) idx.l1_index (omega (arith, n1))) in
            walk-decide written.tables root w e0 e1 new_entry _ (ap (written.tables root) i0 ∙ s0)
              (ap (written.tables (page_mask e0)) i1 ∙ s1)
              (ap (written.tables l2) i2 ∙ set_entry_self l2 idx.l2_index new_entry m) refl
            ∙ decide_no_block w e0 e1 new_entry _ v0 v1 t1 (cleared_bit even),
      )
