-- ===== src/Mmu/Clearing.antt =====
-- After `pt_unmap` no page of its range is mapped.
use arm_os.Base.{
  ℕ, ◌≡◌, refl, ap, ◌∙◌, ◌⊎◌, inl, inr, Bool, false, ◌&&◌, ◌||◌, not, Bool-cases, arith, err,
  efault,
}
use arm_os.Mmu.Entry.{extract_indices, pte_valid, has_table_bit, page_mask}
use arm_os.Mmu.Translating.{l0_entry, l1_entry, l2_entry, l3_entry, decide, walk}

abbrev pub Tables : Type 0
Tables = ℕ → ℕ → ℕ

-- Some entries of `f` are 0 in `g`, and the others are the same.
abbrev pub Clears : Tables → Tables → Type 0
Clears f g = (t i : ℕ) → (g t i ≡ f t i) ⊎ (g t i ≡ 0)

pub Clears-trans : (f g h : Tables) → Clears f g → Clears g h → Clears f h
Clears-trans f g h a b t i = elim (b t i) [
  | inr z ↦ inr z
  | inl e ↦ elim (a t i) [ inl d ↦ inl (e ∙ d) | inr z ↦ inr (e ∙ z) ]
]

-- The first three entries are no table on the way where one is expected, but a block.
abbrev pub block_among : (e0 e1 e2 : ℕ) → Bool
block_among e0 e1 e2 =
    pte_valid e0
    && pte_valid e1
    && (not (has_table_bit e1) || pte_valid e2 && not (has_table_bit e2))

-- The walk from `l0` meets a block where `pt_unmap` of small pages expects a table.
abbrev pub meets_block : Tables → (l0 virt : ℕ) → Bool
meets_block f l0 virt = block_among (l0_entry f l0 virt) (l1_entry f l0 virt) (l2_entry f l0 virt)

pub walk-decide :
    (g : Tables) (l0 v e0 e1 e2 e3 : ℕ)
    → g l0 (extract_indices v).l0_index ≡ e0
    → g (page_mask e0) (extract_indices v).l1_index ≡ e1
    → g (page_mask e1) (extract_indices v).l2_index ≡ e2
    → g (page_mask e2) (extract_indices v).l3_index ≡ e3
    → walk g l0 v ≡ decide v e0 e1 e2 e3
unfolding walk
walk-decide g l0 v e0 e1 e2 e3 s0 s1 s2 s3 = rw (s0, s1, s2, s3) refl

decide_dead1 : (v e0 x y : ℕ) → decide v e0 0 x y ≡ err efault
unfolding decide
decide_dead1 v e0 x y = ground arith

decide_dead2 :
    (v e0 e1 y : ℕ)
    → (pte_valid e0 && pte_valid e1 && not (has_table_bit e1)) ≡ false
    → decide v e0 e1 0 y ≡ err efault
unfolding decide
decide_dead2 v e0 e1 y table = ground arith

pub decide_dead3 :
    (v e0 e1 e2 : ℕ) → block_among e0 e1 e2 ≡ false → decide v e0 e1 e2 0 ≡ err efault
unfolding decide
decide_dead3 v e0 e1 e2 tables = ground arith

-- A walk that ends in a fault meets no block.
decide_tables :
    (v e0 e1 e2 e3 : ℕ) → decide v e0 e1 e2 e3 ≡ err efault → block_among e0 e1 e2 ≡ false
unfolding decide
decide_tables v e0 e1 e2 e3 faults = ground arith

-- Where entries are cleared and no block is met, only the last entry is left to decide.
module _ (f g : Tables) (l0 v : ℕ) (c : Clears f g) (free : meets_block f l0 v ≡ false) where
  decide_dead0 : (x y z : ℕ) → decide v 0 x y z ≡ err efault
  unfolding decide
  decide_dead0 x y z = refl

  no_block1 :
      (pte_valid (l0_entry f l0 v)
        && pte_valid (l1_entry f l0 v)
        && not (has_table_bit (l1_entry f l0 v)))
      ≡ false
  no_block1 = elim (Bool-cases (has_table_bit (l1_entry f l0 v))) [
    | inl t ↦ ground arith
    | inr t ↦ ground arith
  ]

  -- The last entry, in the table that `f` leads to.
  abbrev last : ℕ
  last = g (page_mask (l2_entry f l0 v)) (extract_indices v).l3_index

  pub walk_cleared :
      decide v (l0_entry f l0 v) (l1_entry f l0 v) (l2_entry f l0 v) last ≡ err efault
      → walk g l0 v ≡ err efault
  walk_cleared dead =
      let e0 = l0_entry f l0 v in
      let e1 = l1_entry f l0 v in
      elim (c l0 (extract_indices v).l0_index) [
        | inr z0 ↦ walk-decide g l0 v 0 _ _ _ z0 refl refl refl ∙ decide_dead0 _ _ _
        | inl s0 ↦ elim (c (page_mask e0) (extract_indices v).l1_index) [
          | inr z1 ↦ walk-decide g l0 v e0 0 _ _ s0 z1 refl refl ∙ decide_dead1 v e0 _ _
          | inl s1 ↦ elim (c (page_mask e1) (extract_indices v).l2_index) [
            | inr z2 ↦ walk-decide g l0 v e0 e1 0 _ s0 s1 z2 refl ∙ decide_dead2 v e0 e1 _ no_block1
            | inl s2 ↦ walk-decide g l0 v e0 e1 (l2_entry f l0 v) last s0 s1 s2 refl ∙ dead
          ]
        ]
      ]

-- What is not mapped stays so when entries are cleared.
pub walk-Clears :
    (f g : Tables) (l0 v : ℕ) → Clears f g → walk f l0 v ≡ err efault → walk g l0 v ≡ err efault
unfolding walk
walk-Clears f g l0 v c faults =
    let e0 = l0_entry f l0 v in
    let e1 = l1_entry f l0 v in
    let e2 = l2_entry f l0 v in
    let free = decide_tables v e0 e1 e2 (l3_entry f l0 v) faults in
    walk_cleared f g l0 v c free (elim (c (page_mask e2) (extract_indices v).l3_index) [
      | inl s3 ↦ ap (decide v e0 e1 e2) s3 ∙ faults
      | inr z3 ↦ ap (decide v e0 e1 e2) z3 ∙ decide_dead3 v e0 e1 e2 free
    ])
