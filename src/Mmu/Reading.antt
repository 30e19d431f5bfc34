-- ===== src/Mmu/Reading.antt =====
-- `pt_translate` after `pt_map`.
use arm_os.Base.{
  ℕ, ◌+◌, ◌/◌, ◌%◌, ◌^◌, ◌≤◌, ◌<◌, ◌≡◌, refl, sym, ap, ◌∙◌, inl, inr, Bool, true, false, Bool-cases,
  arith, Unit, tt, Result, ok, bit_or,
}
use arm_os.Base.Bits.{bit_or-shift, bit_or-zero, bit_or-pow}
use arm_os.Mmu.Entry.{extract_indices, pte_valid, has_table_bit, page_mask, page_entry, ps_4kb}
use arm_os.Mmu.State.{FrameSource, Mmu, resolve, place, on_ok}
use arm_os.Mmu.Translating.{l0_entry, l1_entry, l2_entry, l3_entry, decide, walk, leaf}
use arm_os.Mmu.Mapping.{pt_map_single_page}
use arm_os.Mmu.Clearing.{meets_block, walk-decide}
use arm_os.Mmu.Owned.{IsFrames, IsTree, Extends}
use arm_os.Mmu.Mapped.{on_ok-inv, place-ok, step3, mapped_grows, mapped-IsTree, mapped_walk}

module _ {b : FrameSource} where
  pub single_page :
      (root v p f : ℕ) (m : Mmu b)
      → pt_map_single_page root v p ps_4kb f m
        ≡ on_ok (resolve root (extract_indices v).l0_index m) λ l1 m1.
          on_ok (resolve l1 (extract_indices v).l1_index m1) λ l2 m2.
            on_ok
              (resolve l2 (extract_indices v).l2_index m2)
              λ l3 m3. place l3 (extract_indices v).l3_index (page_entry p f) m3
  unfolding pt_map_single_page
  single_page root v p f m = refl

  -- What a page that was mapped reads, and what stays.
  pub record Gains (owned : b.State → ℕ → Bool) (root v entry : ℕ) (m m' : Mmu b) : Type 0 where
    pub level : ℕ → ℕ
    pub tree : IsTree owned level root m'
    pub grows : Extends owned m m'
    pub reads :
        (w : ℕ)
        → w / 4096 ≡ v / 4096
        → walk m'.tables root w ≡ leaf (page_mask entry) (w % 4096) entry

module _ {b : FrameSource} (owned : b.State → ℕ → Bool) (frames : IsFrames b owned) (level : ℕ → ℕ)
    (root v p f : ℕ) (m : Mmu b) (tree : IsTree owned level root m)
    (free : meets_block m.tables root v ≡ false) where
  pub single_page-Gains :
      (pt_map_single_page root v p ps_4kb f m).0 ≡ ok tt
      → Gains owned root v (page_entry p f) m (pt_map_single_page root v p ps_4kb f m).1
  single_page-Gains e =
      let idx = extract_indices v in
      let e' = sym (ap (λ (x : Result (Unit {0}) × Mmu b). x.0) (single_page root v p f m)) ∙ e in
      let (l1, got1, k1) = on_ok-inv (resolve root idx.l0_index m) _ tt e' in
      let m1 = (resolve root idx.l0_index m).1 in
      let (l2, got2, k2) =
        on_ok-inv (resolve l1 idx.l1_index m1) _ tt
          (sym (ap (λ (x : Result (Unit {0}) × Mmu b). x.0) k1) ∙ e') in
      let m2 = (resolve l1 idx.l1_index m1).1 in
      let k12 = k1 ∙ k2 in
      let (l3, got3, k3) =
        on_ok-inv (resolve l2 idx.l2_index m2) _ tt
          (sym (ap (λ (x : Result (Unit {0}) × Mmu b). x.0) k12) ∙ e') in
      let m3 = (resolve l2 idx.l2_index m2).1 in
      let k123 = k12 ∙ k3 in
      let (blank, wrote) =
        place-ok l3 idx.l3_index (page_entry p f) m3
          (sym (ap (λ (x : Result (Unit {0}) × Mmu b). x.0) k123) ∙ e') in
      let end =
        ap (λ (x : Result (Unit {0}) × Mmu b). x.1) (single_page root v p f m ∙ k123) ∙ wrote in
      rw end (record {
        level = (step3 owned frames level root v p f m tree free l1 got1 l2 got2 l3 got3).level';
        tree =
            mapped-IsTree owned frames level root v p f m tree free l1 got1 l2 got2 l3 got3 blank;
        grows =
            mapped_grows owned frames level root v p f m tree free l1 got1 l2 got2 l3 got3 blank;
        reads = mapped_walk owned frames level root v p f m tree free l1 got1 l2 got2 l3 got3 blank;
      })

-- What was mapped stays mapped in a larger tree.
pub decide_tables_inv :
    (v e0 e1 e2 e3 : ℕ) (r : ℕ × ℕ)
    → decide v e0 e1 e2 e3 ≡ ok r
    → (pte_valid e0 ≡ true)
      × (pte_valid e1 ≡ true)
      × (has_table_bit e1 ≡ true → pte_valid e2 ≡ true)
      × (has_table_bit e1 ≡ true → has_table_bit e2 ≡ true → pte_valid e3 ≡ true)
unfolding decide
decide_tables_inv v e0 e1 e2 e3 r h = ground arith

decide_block1 :
    (v e0 e1 x y x' y' : ℕ) → has_table_bit e1 ≡ false → decide v e0 e1 x y ≡ decide v e0 e1 x' y'
unfolding decide
decide_block1 v e0 e1 x y x' y' h = rw h refl

decide_block2 :
    (v e0 e1 e2 y y' : ℕ) → has_table_bit e2 ≡ false → decide v e0 e1 e2 y ≡ decide v e0 e1 e2 y'
unfolding decide
decide_block2 v e0 e1 e2 y y' h = rw h refl

module _ {b : FrameSource} (owned : b.State → ℕ → Bool) (level : ℕ → ℕ) (root : ℕ) (m m' : Mmu b)
    (tree : IsTree owned level root m) (grows : Extends owned m m') where
  pub walk-Extends :
      (v : ℕ) (r : ℕ × ℕ) → walk m.tables root v ≡ ok r → walk m'.tables root v ≡ ok r
  walk-Extends v r h =
      let idx = extract_indices v in
      let f = m.tables in
      let g = m'.tables in
      let e0 = l0_entry f root v in
      let e1 = l1_entry f root v in
      let e2 = l2_entry f root v in
      let e3 = l3_entry f root v in
      let d : decide v e0 e1 e2 e3 ≡ ok r = unfold walk in h in
      let (v0, v1, v2, v3) = decide_tables_inv v e0 e1 e2 e3 r d in
      let s0 = grows.keeps root idx.l0_index tree.root_owned v0 in
      let (o1, n1) =
        tree.down root idx.l0_index tree.root_owned (omega (arith, tree.root_level)) v0
          (tree.top idx.l0_index v0) in
      let s1 = grows.keeps (page_mask e0) idx.l1_index o1 v1 in
      elim (Bool-cases (has_table_bit e1)) [
        | inr block ↦
            walk-decide g root v e0 e1 _ _ s0 s1 refl refl
            ∙ decide_block1 v e0 e1 _ _ e2 e3 block
            ∙ d
        | inl table ↦
            let (o2, n2) =
              tree.down (page_mask e0) idx.l1_index o1 (omega (arith, n1, tree.root_level)) v1
                table in
            let s2 = grows.keeps (page_mask e1) idx.l2_index o2 (v2 table) in
            elim (Bool-cases (has_table_bit e2)) [
              | inr block ↦
                  walk-decide g root v e0 e1 e2 _ s0 s1 s2 refl
                  ∙ decide_block2 v e0 e1 e2 _ e3 block
                  ∙ d
              | inl table2 ↦
                  let (o3, n3) =
                    tree.down (page_mask e1) idx.l2_index o2
                      (omega (arith, n2, n1, tree.root_level)) (v2 table) table2 in
                  let s3 = grows.keeps (page_mask e2) idx.l3_index o3 (v3 table table2) in
                  walk-decide g root v e0 e1 e2 e3 s0 s1 s2 s3 ∙ d
            ]
      ]

-- A page entry with flags in its low 12 bits keeps the address of its page.
pub page_of_entry : (p f : ℕ) → p % 4096 ≡ 0 → f < 4096 → page_mask (page_entry p f) ≡ p
page_of_entry p f aligned low =
    let s = bit_or-shift 12 (page_mask p) f in
    let no_flags : f / 4096 ≡ 0 = omega arith in
    let e : bit_or (page_mask p) f / 4096 ≡ page_mask p / 4096 =
      s ∙ ap (bit_or (page_mask p / 4096)) no_flags ∙ bit_or-zero (page_mask p / 4096) in
    omega (arith, e)

-- Bit 54 is in the address that is read back.
pub no_exec_entry :
    (p f low : ℕ)
    → p % 4096 ≡ 0
    → low < 4096
    → p + 4096 ≤ 2 ^ 48
    → f ≡ 2 ^ 54 + low
    → page_mask (page_entry p f) ≡ p + 2 ^ 54
no_exec_entry p f low aligned small inside flags =
    let s = bit_or-shift 12 (page_mask p) f in
    let high : f / 4096 ≡ 2 ^ 42 = omega arith in
    let e : bit_or (page_mask p) f / 4096 ≡ page_mask p / 4096 + 2 ^ 42 =
      s
      ∙ ap (bit_or (page_mask p / 4096)) high
      ∙ bit_or-pow 42 (page_mask p / 4096) (omega arith) in
    omega (arith, e)
