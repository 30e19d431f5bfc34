-- ===== src/Mmu/Mapped.antt =====
-- `pt_map` of one small page, and the walk to it.
use arm_os.Base.{
  ℕ, ◌/◌, ◌%◌, ◌≤◌, ◌≡◌, refl, sym, ap, ◌∙◌, inl, inr, Bool, true, false, ◌&&◌, ◌==◌, Bool-cases,
  arith, tt, Result, ok, err, bit_or,
}
use arm_os.Mmu.Entry.{
  extract_indices, pte_valid, has_table_bit, page_mask, with_descriptor, page_entry,
}
use arm_os.Mmu.State.{FrameSource, Mmu, set_entry, resolve, place, on_ok}
use arm_os.Mmu.Translating.{l0_entry, l1_entry, l2_entry, decide, walk, leaf}
use arm_os.Mmu.Clearing.{meets_block, walk-decide}
use arm_os.Mmu.Unmapped.{set_entry_self, block_among_table, block_among_table2}
use arm_os.Mmu.Owned.{IsFrames, IsTree, Extends, Extends-trans}
use arm_os.Mmu.Resolving.{Reached, resolve-Reached}

-- A call whose continuation succeeds has itself succeeded.
pub on_ok-inv {ℓ} :
    {S : Type ℓ} {A B : Type 0} (p : Result A × S) (next : A → S → Result B × S) (c : B)
    → (on_ok p next).0 ≡ ok c
    → (a : A) × (p.0 ≡ ok a) × (on_ok p next ≡ next a p.1)
on_ok-inv (ok a, s) next c e = (a, refl, refl)
on_ok-inv (err k, s) next c e = absurd (cc)

decide_page :
    (v e0 e1 e2 x : ℕ)
    → pte_valid e0 ≡ true
    → pte_valid e1 ≡ true
    → has_table_bit e1 ≡ true
    → pte_valid e2 ≡ true
    → has_table_bit e2 ≡ true
    → decide v e0 e1 e2 (with_descriptor x)
      ≡ leaf (page_mask (with_descriptor x)) (v % 4096) (with_descriptor x)
unfolding decide
decide_page v e0 e1 e2 x i0 i1 t1 i2 t2 =
    let i3 : pte_valid (with_descriptor x) ≡ true = ground arith in
    let some_bits : (with_descriptor x % 4 == 0) ≡ false = ground arith in
    rw (i0, i1, t1, i2, t2, i3, some_bits) refl

module _ {b : FrameSource} where
  pub place-ok :
      (t i e : ℕ) (m : Mmu b)
      → (place t i e m).0 ≡ ok tt
      → (pte_valid (m.tables t i) ≡ false) × ((place t i e m).1 ≡ set_entry t i e m)
  unfolding place
  place-ok t i e m h = elim (Bool-cases (pte_valid (m.tables t i))) [
    | inl v ↦ absurd (cc (rw v at h))
    | inr v ↦ (v, rw v refl)
  ]

  pub set_entry-other :
      (t i e g x : ℕ) (m : Mmu b)
      → ((g == t) && (x == i)) ≡ false
      → (set_entry t i e m).tables g x ≡ m.tables g x
  unfolding set_entry
  set_entry-other t i e g x m apart = elim (Bool-cases (g == t)) [
    | inr d ↦ rw d refl
    | inl d ↦
        let same : g ≡ t = ground arith in
        let miss : (x == i) ≡ false = ground arith in rw (d, miss) (rw same refl)
  ]

module _ {b : FrameSource} (owned : b.State → ℕ → Bool) (frames : IsFrames b owned) (level : ℕ → ℕ)
    (root : ℕ) (m : Mmu b) (tree : IsTree owned level root m) (t i e : ℕ)
    (t_owned : owned m.frames t ≡ true) (invalid : pte_valid (m.tables t i) ≡ false) where
  set_entry-Extends : Extends owned m (set_entry t i e m)
  unfolding set_entry
  set_entry-Extends = record {
    keeps = λ g x o v. set_entry-other t i e g x m (elim (Bool-cases ((g == t) && (x == i))) [
      | inr d ↦ d
      | inl d ↦
          let same : g ≡ t = ground arith in
          let same' : x ≡ i = ground arith in absurd (cc (invalid, v, same, same'))
    ]);
    owns = λ g o. o;
  }

  -- An entry of the lowest level is a leaf, and the tree stays.
  set_entry-IsTree : 3 ≤ level t → IsTree owned level root (set_entry t i e m)
  unfolding set_entry
  set_entry-IsTree low = record {
    root_owned = tree.root_owned;
    root_level = tree.root_level;
    down = λ g x o high v h. elim (Bool-cases ((g == t) && (x == i))) [
      | inl d ↦ let same : g ≡ t = ground arith in absurd (omega (arith, low, ap level same, high))
      | inr d ↦
          let entry = set_entry-other t i e g x m d in
          rw entry (tree.down g x o high (rw (← entry) v) (rw (← entry) h))
    ];
    top = λ x v. elim (Bool-cases ((root == t) && (x == i))) [
      | inl d ↦
          let same : root ≡ t = ground arith in
          absurd (omega (arith, low, ap level same, tree.root_level))
      | inr d ↦
          let entry = set_entry-other t i e root x m d in rw entry (tree.top x (rw (← entry) v))
    ];
  }

-- One small page is mapped, without a failure and without meeting a block.
module _ {b : FrameSource} (owned : b.State → ℕ → Bool) (frames : IsFrames b owned) (level : ℕ → ℕ)
    (root v p f : ℕ) (m : Mmu b) (tree : IsTree owned level root m)
    (free : meets_block m.tables root v ≡ false) where
  module _ (l1 : ℕ) (got1 : (resolve root (extract_indices v).l0_index m).0 ≡ ok l1) where
    abbrev m1 : Mmu b
    m1 = (resolve root (extract_indices v).l0_index m).1

    pub step1 : Reached owned level root root (extract_indices v).l0_index l1 m m1
    step1 =
        resolve-Reached owned frames level root m tree root (extract_indices v).l0_index
          tree.root_owned (omega (arith, tree.root_level)) l1
          (tree.top (extract_indices v).l0_index) got1

    -- Where the root has the table already, the walk goes on as before.
    pub same1 :
        pte_valid (l0_entry m.tables root v) ≡ true
        → m1.tables l1 (extract_indices v).l1_index ≡ l1_entry m.tables root v
    same1 v0 =
        let u = step1.unchanged v0 in
        let leads : page_mask (l0_entry m.tables root v) ≡ l1 =
          ap (λ (s : Mmu b). page_mask (l0_entry s.tables root v)) (sym u) ∙ step1.leads in
        ap (λ (s : Mmu b). s.tables l1 (extract_indices v).l1_index) u
        ∙ ap (λ (x : ℕ). m.tables x (extract_indices v).l1_index) (sym leads)

    pub table1 :
        pte_valid (m1.tables l1 (extract_indices v).l1_index) ≡ true
        → has_table_bit (m1.tables l1 (extract_indices v).l1_index) ≡ true
    table1 v1 = elim (Bool-cases (pte_valid (l0_entry m.tables root v))) [
      | inl v0 ↦
          let e = same1 v0 in
          rw e (
            block_among_table (l0_entry m.tables root v) (l1_entry m.tables root v)
              (l2_entry m.tables root v) v0 (rw (← e) v1) free)
      | inr v0 ↦ absurd (cc (v1, step1.blank v0 (extract_indices v).l1_index))
    ]

    module _ (l2 : ℕ) (got2 : (resolve l1 (extract_indices v).l1_index m1).0 ≡ ok l2) where
      abbrev m2 : Mmu b
      m2 = (resolve l1 (extract_indices v).l1_index m1).1

      pub step2 : Reached owned step1.level' root l1 (extract_indices v).l1_index l2 m1 m2
      step2 =
          resolve-Reached owned frames step1.level' root m1 step1.tree l1
            (extract_indices v).l1_index step1.next_owned
            (omega (arith, step1.next_level, tree.root_level)) l2 table1 got2

      pub table2 :
          pte_valid (m2.tables l2 (extract_indices v).l2_index) ≡ true
          → has_table_bit (m2.tables l2 (extract_indices v).l2_index) ≡ true
      table2 v2 = elim (Bool-cases (pte_valid (m1.tables l1 (extract_indices v).l1_index))) [
        | inr v1 ↦ absurd (cc (v2, step2.blank v1 (extract_indices v).l2_index))
        | inl v1 ↦ elim (Bool-cases (pte_valid (l0_entry m.tables root v))) [
          | inr v0 ↦ absurd (cc (v1, step1.blank v0 (extract_indices v).l1_index))
          | inl v0 ↦
              let u1 = step1.unchanged v0 in
              let u2 = step2.unchanged v1 in
              let leads : page_mask (l1_entry m.tables root v) ≡ l2 =
                ap page_mask (sym (same1 v0))
                ∙ ap (λ (s : Mmu b). page_mask (s.tables l1 (extract_indices v).l1_index)) (sym u2)
                ∙ step2.leads in
              let e : m2.tables l2 (extract_indices v).l2_index ≡ l2_entry m.tables root v =
                ap (λ (s : Mmu b). s.tables l2 (extract_indices v).l2_index) (u2 ∙ u1)
                ∙ ap (λ (x : ℕ). m.tables x (extract_indices v).l2_index) (sym leads) in
              rw e (
                block_among_table2 (l0_entry m.tables root v) (l1_entry m.tables root v)
                  (l2_entry m.tables root v) v0 (rw (← same1 v0) v1) (rw (← e) v2) free)
        ]
      ]

      module _ (l3 : ℕ) (got3 : (resolve l2 (extract_indices v).l2_index m2).0 ≡ ok l3) where
        abbrev m3 : Mmu b
        m3 = (resolve l2 (extract_indices v).l2_index m2).1

        pub step3 : Reached owned step2.level' root l2 (extract_indices v).l2_index l3 m2 m3
        step3 =
            resolve-Reached owned frames step2.level' root m2 step2.tree l2
              (extract_indices v).l2_index step2.next_owned
              (omega (arith, step2.next_level, step1.next_level, tree.root_level)) l3 table2 got3

        module _ (invalid : pte_valid (m3.tables l3 (extract_indices v).l3_index) ≡ false) where
          abbrev m4 : Mmu b
          m4 = set_entry l3 (extract_indices v).l3_index (page_entry p f) m3

          written : Extends owned m3 m4
          written =
              set_entry-Extends owned frames step3.level' root m3 step3.tree l3
                (extract_indices v).l3_index (page_entry p f) step3.next_owned invalid

          after2 : Extends owned m2 m4
          after2 = Extends-trans owned m2 m3 m4 step3.grows written

          after1 : Extends owned m1 m4
          after1 = Extends-trans owned m1 m2 m4 step2.grows after2

          pub mapped_grows : Extends owned m m4
          mapped_grows = Extends-trans owned m m1 m4 step1.grows after1

          pub mapped-IsTree : IsTree owned step3.level' root m4
          mapped-IsTree =
              set_entry-IsTree owned frames step3.level' root m3 step3.tree l3
                (extract_indices v).l3_index (page_entry p f) step3.next_owned invalid
                (omega
                  (arith, step3.next_level, step2.next_level, step1.next_level, tree.root_level))

          -- The page is read at each of its addresses.
          pub mapped_walk :
              (w : ℕ)
              → w / 4096 ≡ v / 4096
              → walk m4.tables root w
                ≡ leaf (page_mask (page_entry p f)) (w % 4096) (page_entry p f)
          mapped_walk w near =
              let idx = extract_indices v in
              let e0 = m1.tables root idx.l0_index in
              let e1 = m2.tables l1 idx.l1_index in
              let e2 = m3.tables l2 idx.l2_index in
              let i0 : (extract_indices w).l0_index ≡ idx.l0_index = omega arith in
              let i1 : (extract_indices w).l1_index ≡ idx.l1_index = omega arith in
              let i2 : (extract_indices w).l2_index ≡ idx.l2_index = omega arith in
              let i3 : (extract_indices w).l3_index ≡ idx.l3_index = omega arith in
              let s0 : m4.tables root idx.l0_index ≡ e0 =
                after1.keeps root idx.l0_index step1.tree.root_owned step1.valid in
              let s1 : m4.tables (page_mask e0) idx.l1_index ≡ e1 =
                ap (λ (t : ℕ). m4.tables t idx.l1_index) step1.leads
                ∙ after2.keeps l1 idx.l1_index (step2.grows.owns l1 step1.next_owned) step2.valid in
              let s2 : m4.tables (page_mask e1) idx.l2_index ≡ e2 =
                ap (λ (t : ℕ). m4.tables t idx.l2_index) step2.leads
                ∙ written.keeps l2 idx.l2_index (step3.grows.owns l2 step2.next_owned)
                    step3.valid in
              let s3 : m4.tables (page_mask e2) idx.l3_index ≡ page_entry p f =
                ap (λ (t : ℕ). m4.tables t idx.l3_index) step3.leads
                ∙ set_entry_self l3 idx.l3_index (page_entry p f) m3 in
              walk-decide m4.tables root w e0 e1 e2 (page_entry p f) (ap (m4.tables root) i0 ∙ s0)
                (ap (m4.tables (page_mask e0)) i1 ∙ s1) (ap (m4.tables (page_mask e1)) i2 ∙ s2)
                (ap (m4.tables (page_mask e2)) i3 ∙ s3)
              ∙ decide_page w e0 e1 e2 (bit_or (page_mask p) f) step1.valid step2.valid step2.table
                  step3.valid step3.table
