-- ===== src/Mmu/Unmapped.antt =====
-- After `pt_unmap` no page of its range is mapped.
use arm_os.Base.{
  ℕ, zero, suc, ◌+◌, ◌≤◌, ◌<◌, ◌≡◌, ◌≢◌, refl, ap, ◌∙◌, inl, inr, true, false, not, ◌==◌,
  if◌then◌else◌, Bool-cases, test_self, arith, add64, mul64, tt, ok, err, efault,
}
use arm_os.Mmu.Entry.{extract_indices, pte_valid, has_table_bit, page_mask, ps_4kb}
use arm_os.Mmu.State.{FrameSource, Mmu, set_entry, release_frame}
use arm_os.Mmu.Translating.{l0_entry, l1_entry, l2_entry, decide, walk, pt_translate}
use arm_os.Mmu.Unmapping.{is_pt_empty, prune, pt_unmap_single_page, unmap_pages, pt_unmap}
use arm_os.Mmu.Clearing.{
  Tables, Clears, Clears-trans, block_among, meets_block, decide_dead3, walk_cleared, walk-Clears,
}

block_among1 : (e0 e2 : ℕ) → block_among e0 0 e2 ≡ false
block_among1 e0 e2 = ground arith

block_among2 : (e0 e1 e2 : ℕ) → block_among e0 e1 e2 ≡ false → block_among e0 e1 0 ≡ false
block_among2 e0 e1 e2 free = ground arith

pub block_among_table :
    (e0 e1 e2 : ℕ)
    → pte_valid e0 ≡ true
    → pte_valid e1 ≡ true
    → block_among e0 e1 e2 ≡ false
    → has_table_bit e1 ≡ true
block_among_table e0 e1 e2 i0 i1 free = elim (Bool-cases (has_table_bit e1)) [
  | inl t ↦ t
  | inr t ↦ absurd (cc (rw (i0, i1, t) at free))
]

pub block_among_table2 :
    (e0 e1 e2 : ℕ)
    → pte_valid e0 ≡ true
    → pte_valid e1 ≡ true
    → pte_valid e2 ≡ true
    → block_among e0 e1 e2 ≡ false
    → has_table_bit e2 ≡ true
block_among_table2 e0 e1 e2 i0 i1 i2 free = elim (Bool-cases (has_table_bit e2)) [
  | inl t ↦ t
  | inr t ↦
      let table = block_among_table e0 e1 e2 i0 i1 free in
      absurd (cc (rw (i0, i1, table, i2, t) at free))
]

-- Clearing entries makes no block.
pub meets_block-Clears :
    (f g : Tables) (l0 v : ℕ) → Clears f g → meets_block f l0 v ≡ false → meets_block g l0 v ≡ false
meets_block-Clears f g l0 v c free =
    let e0 = l0_entry f l0 v in
    let e1 = l1_entry f l0 v in
    elim (c l0 (extract_indices v).l0_index) [
      | inr z0 ↦ rw z0 refl
      | inl s0 ↦ elim (c (page_mask e0) (extract_indices v).l1_index) [
        | inr z1 ↦ rw (s0, z1) (block_among1 e0 (g (page_mask 0) (extract_indices v).l2_index))
        | inl s1 ↦ elim (c (page_mask e1) (extract_indices v).l2_index) [
          | inr z2 ↦ rw (s0, s1, z2) (block_among2 e0 e1 (l2_entry f l0 v) free)
          | inl s2 ↦ rw (s0, s1, s2) free
        ]
      ]
    ]

decide_invalid0 :
    (f : Tables) (l0 v : ℕ) → pte_valid (l0_entry f l0 v) ≡ false → walk f l0 v ≡ err efault
unfolding walk
decide_invalid0 f l0 v i0 = rw i0 refl

decide_invalid1 :
    (f : Tables) (l0 v : ℕ)
    → pte_valid (l0_entry f l0 v) ≡ true
    → pte_valid (l1_entry f l0 v) ≡ false
    → walk f l0 v ≡ err efault
unfolding walk
decide_invalid1 f l0 v i0 i1 = rw (i0, i1) refl

decide_invalid2 :
    (f : Tables) (l0 v : ℕ)
    → pte_valid (l0_entry f l0 v) ≡ true
    → pte_valid (l1_entry f l0 v) ≡ true
    → pte_valid (l2_entry f l0 v) ≡ false
    → meets_block f l0 v ≡ false
    → walk f l0 v ≡ err efault
unfolding walk
decide_invalid2 f l0 v i0 i1 i2 free =
    let table =
      block_among_table (l0_entry f l0 v) (l1_entry f l0 v) (l2_entry f l0 v) i0 i1 free in
    rw (i0, i1, table, i2) refl

module _ {b : FrameSource} where
  set_entry-Clears : (t i : ℕ) (m : Mmu b) → Clears m.tables (set_entry t i 0 m).tables
  unfolding set_entry
  set_entry-Clears t i m t' i' = elim (Bool-cases (t' == t)) [
    | inr e ↦ inl (rw e refl)
    | inl e ↦ elim (Bool-cases (i' == i)) [
      | inr d ↦ let same : t' ≡ t = ground arith in inl (rw (e, d, same) refl)
      | inl d ↦ inr (rw (e, d) refl)
    ]
  ]

  prune-Clears : (t p i : ℕ) (m : Mmu b) → Clears m.tables (prune t p i m).tables
  unfolding prune
  prune-Clears t p i m = elim (Bool-cases (is_pt_empty (m.tables t))) [
    | inl e ↦ rw e (set_entry-Clears p i (release_frame t m))
    | inr e ↦ rw e (λ x y. inl refl)
  ]

  pub set_entry_self : (t i e : ℕ) (m : Mmu b) → (set_entry t i e m).tables t i ≡ e
  unfolding set_entry
  set_entry_self t i e m = rw (test_self t, test_self i) refl

  -- What unmapping one small page does to the tables.
  module _ (l0 v : ℕ) (m : Mmu b) (free : meets_block m.tables l0 v ≡ false) where
    abbrev after : Mmu b
    after = pt_unmap_single_page l0 v ps_4kb m

    abbrev e0 : ℕ
    e0 = l0_entry m.tables l0 v

    abbrev e1 : ℕ
    e1 = l1_entry m.tables l0 v

    abbrev e2 : ℕ
    e2 = l2_entry m.tables l0 v

    abbrev cleared : Mmu b
    cleared = set_entry (page_mask e2) (extract_indices v).l3_index 0 m

    abbrev pruned : Mmu b
    pruned = prune (page_mask e0) l0 (extract_indices v).l0_index (
        prune (page_mask e1) (page_mask e0) (extract_indices v).l1_index
          (prune (page_mask e2) (page_mask e1) (extract_indices v).l2_index cleared))

    pruned-Clears : Clears cleared.tables pruned.tables
    pruned-Clears =
        let idx = extract_indices v in
        let s3 = prune (page_mask e2) (page_mask e1) idx.l2_index cleared in
        let s2 = prune (page_mask e1) (page_mask e0) idx.l1_index s3 in
        Clears-trans cleared.tables s3.tables pruned.tables
          (prune-Clears (page_mask e2) (page_mask e1) idx.l2_index cleared)
          (Clears-trans s3.tables s2.tables pruned.tables
            (prune-Clears (page_mask e1) (page_mask e0) idx.l1_index s3)
            (prune-Clears (page_mask e0) l0 idx.l0_index s2))

    -- The three early returns leave everything.
    after-eq : after ≡ (
        if not (pte_valid e0)
        then m
        else if not (pte_valid e1)
        then m
        else if not (pte_valid e2)
        then m
        else pruned)
    unfolding pt_unmap_single_page
    after-eq = refl

    cleared-Clears : Clears m.tables cleared.tables
    cleared-Clears = set_entry-Clears (page_mask e2) (extract_indices v).l3_index m

    pruned_faults : walk pruned.tables l0 v ≡ err efault
    pruned_faults = walk-Clears cleared.tables pruned.tables l0 v pruned-Clears (
        walk_cleared m.tables cleared.tables l0 v cleared-Clears free (
          ap (decide v e0 e1 e2) (set_entry_self (page_mask e2) (extract_indices v).l3_index 0 m)
          ∙ decide_dead3 v e0 e1 e2 free))

    -- No page is left at the address, and entries were only cleared.
    pub unmapped : (walk after.tables l0 v ≡ err efault) × Clears m.tables after.tables
    unmapped = elim (Bool-cases (pte_valid e0)) [
      | inr i0 ↦ rw (after-eq, i0) (decide_invalid0 m.tables l0 v i0, λ t i. inl refl)
      | inl i0 ↦ elim (Bool-cases (pte_valid e1)) [
        | inr i1 ↦ rw (after-eq, i0, i1) (decide_invalid1 m.tables l0 v i0 i1, λ t i. inl refl)
        | inl i1 ↦ elim (Bool-cases (pte_valid e2)) [
          | inr i2 ↦
              rw (after-eq, i0, i1, i2)
                (decide_invalid2 m.tables l0 v i0 i1 i2 free, λ t i. inl refl)
          | inl i2 ↦
              rw (after-eq, i0, i1, i2)
                (
                  pruned_faults,
                  Clears-trans m.tables cleared.tables pruned.tables cleared-Clears pruned-Clears,
                )
        ]
      ]
    ]

-- The address of page `j` of the range.
abbrev pub page_at : (virt j : ℕ) → ℕ
page_at virt j = add64 virt (mul64 j ps_4kb)

module _ {b : FrameSource} (l0 virt : ℕ) where
  unmap_pages-Clears :
      (k i : ℕ) (m : Mmu b)
      → ((j : ℕ) → i ≤ j → j < i + k → meets_block m.tables l0 (page_at virt j) ≡ false)
      → Clears m.tables (unmap_pages k i l0 virt ps_4kb m).tables
        × ((j : ℕ)
            → i ≤ j
            → j < i + k
            → walk (unmap_pages k i l0 virt ps_4kb m).tables l0 (page_at virt j) ≡ err efault)
  unfolding unmap_pages
  unmap_pages-Clears zero i m free = (λ t x. inl refl, λ j low high. absurd (omega arith))
  unmap_pages-Clears (suc k) i m free =
      let (gone, once) = unmapped l0 (page_at virt i) m (free i (omega arith) (omega arith)) in
      let m' = pt_unmap_single_page l0 (page_at virt i) ps_4kb m in
      let (rest, all_gone) = unmap_pages-Clears k (i + 1) m' (λ j low high.
        meets_block-Clears m.tables m'.tables l0 (page_at virt j) once
          (free j (omega arith) (omega arith))) in
      let end = unmap_pages k (i + 1) l0 virt ps_4kb m' in
      (
        Clears-trans m.tables m'.tables end.tables once rest,
        λ j low high. elim (Bool-cases (j == i)) [
          | inl e ↦
              let same : j ≡ i = ground arith in
              rw same (walk-Clears m'.tables end.tables l0 (page_at virt i) rest gone)
          | inr e ↦ let later : i + 1 ≤ j = ground arith in all_gone j later (omega arith)
        ],
      )

  -- Where no page of a range of small pages lies in a block, `pt_unmap` of the range succeeds, and
  -- `pt_translate` of every page of the range then answers EFAULT, whether or not the page was
  -- mapped, and whichever tables were found empty and released.
  pub pt_unmap-translate :
      (n : ℕ) (m : Mmu b) (phys_out flags_out : ℕ)
      → l0 ≢ 0
      → phys_out ≢ 0
      → flags_out ≢ 0
      → ((j : ℕ) → j < n → meets_block m.tables l0 (page_at virt j) ≡ false)
      → ((pt_unmap l0 virt n ps_4kb m).0 ≡ ok tt)
        × ((j : ℕ)
            → j < n
            → pt_translate l0
                (page_at virt j)
                phys_out
                flags_out
                (pt_unmap l0 virt n ps_4kb m).1.tables
              ≡ err efault)
  unfolding pt_unmap pt_translate
  pt_unmap-translate n m phys_out flags_out live p q free =
      let e : (l0 == 0) ≡ false = ground arith in
      let e1 : (phys_out == 0) ≡ false = ground arith in
      let e2 : (flags_out == 0) ≡ false = ground arith in
      let (once, gone) = unmap_pages-Clears n 0 m (λ j low high. free j (omega arith)) in
      rw (e, e1, e2) (refl, λ j high. gone j (omega arith) (omega arith))
