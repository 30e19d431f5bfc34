-- ===== src/Mmu/Resolving.antt =====
-- The step from a table to the next one on the way of `pt_map`.
use arm_os.Base.{
  ℕ, suc, ◌<◌, ◌≡◌, refl, sym, ap, ◌∙◌, inl, inr, Bool, true, false, ◌&&◌, ◌==◌, if◌then◌else◌,
  Bool-cases, Result-cases, test_self, arith, Result, ok, err, Errno, enomem,
}
use arm_os.Mmu.Entry.{pte_valid, has_table_bit, page_mask, with_descriptor}
use arm_os.Mmu.State.{FrameSource, Mmu, set_entry, clear_table, fresh_table, resolve, on_ok}
use arm_os.Mmu.Owned.{IsFrames, IsTree, Extends, Extends-refl}

-- What a successful `resolve` gives: the next table `n`, one level down, behind entry `i` of `t`.
pub record Reached {b : FrameSource} (owned : b.State → ℕ → Bool) (level : ℕ → ℕ) (root t i n : ℕ)
    (m m' : Mmu b) : Type 0 where
  pub level' : ℕ → ℕ
  pub tree : IsTree owned level' root m'
  pub grows : Extends owned m m'
  pub next_owned : owned m'.frames n ≡ true
  pub next_level : level' n ≡ suc (level t)
  pub valid : pte_valid (m'.tables t i) ≡ true
  pub table : has_table_bit (m'.tables t i) ≡ true
  pub leads : page_mask (m'.tables t i) ≡ n
  pub unchanged : pte_valid (m.tables t i) ≡ true → m' ≡ m
  pub blank : pte_valid (m.tables t i) ≡ false → (x : ℕ) → m'.tables n x ≡ 0

module _ {b : FrameSource} (m : Mmu b) where
  fresh_table-ok :
      (f : ℕ)
      → (b.alloc_page m.frames).0 ≡ ok f
      → fresh_table m ≡ (ok f, clear_table f (record m { frames = (b.alloc_page m.frames).1 }))
  unfolding fresh_table
  fresh_table-ok f got = rw (fresh_table, got) refl

  fresh_table-err :
      (c : Errno)
      → (b.alloc_page m.frames).0 ≡ err c
      → fresh_table m ≡ (err enomem, record m { frames = (b.alloc_page m.frames).1 })
  unfolding fresh_table
  fresh_table-err c got = rw (fresh_table, got) refl

module _ {b : FrameSource} (owned : b.State → ℕ → Bool) (frames : IsFrames b owned) (level : ℕ → ℕ)
    (root : ℕ) (m : Mmu b) (tree : IsTree owned level root m) (t i : ℕ)
    (t_owned : owned m.frames t ≡ true) (t_low : level t < 3) where
  resolve_old :
      pte_valid (m.tables t i) ≡ true
      → has_table_bit (m.tables t i) ≡ true
      → Reached owned level root t i (page_mask (m.tables t i)) m m
  resolve_old v h =
      let (o, l) = tree.down t i t_owned t_low v h in
      record {
        level' = level;
        tree = tree;
        grows = Extends-refl owned m;
        next_owned = o;
        next_level = l;
        valid = v;
        table = h;
        leads = refl;
        unchanged = λ _. refl;
        blank = λ no. absurd (cc (v, no));
      }

  -- A new table is entered.
  module _ (invalid : pte_valid (m.tables t i) ≡ false) (f : ℕ)
      (got : (b.alloc_page m.frames).0 ≡ ok f) where
    abbrev left : b.State
    left = (b.alloc_page m.frames).1

    abbrev blank : Mmu b
    blank = clear_table f (record m { frames = left })

    abbrev new : Mmu b
    new = set_entry t i (with_descriptor f) blank

    abbrev deeper : ℕ → ℕ
    deeper g = if g == f then suc (level t) else level g

    ne_f : (g : ℕ) → owned m.frames g ≡ true → (g == f) ≡ false
    ne_f g o = elim (Bool-cases (g == f)) [
      | inr e ↦ e
      | inl e ↦
          let same : g ≡ f = ground arith in
          absurd (cc ((frames.fresh m.frames f got).0, rw same at o))
    ]

    still : (g : ℕ) → owned m.frames g ≡ true → owned left g ≡ true
    still g o = rw ((frames.fresh m.frames f got).2 g, ne_f g o) o

    f_owned : owned left f ≡ true
    f_owned = rw ((frames.fresh m.frames f got).2 f, test_self f) refl

    entry_new : new.tables t i ≡ with_descriptor f
    unfolding set_entry clear_table
    entry_new = rw (test_self t, test_self i) refl

    entry_blank : (x : ℕ) → new.tables f x ≡ 0
    unfolding set_entry clear_table
    entry_blank x =
        let apart : (f == t) ≡ false = ground (arith, ne_f t t_owned) in
        rw (apart, test_self f) refl

    entry_other :
        (g x : ℕ)
        → owned m.frames g ≡ true
        → ((g == t) && (x == i)) ≡ false
        → new.tables g x ≡ m.tables g x
    unfolding set_entry clear_table
    entry_other g x o apart = elim (Bool-cases (g == t)) [
      | inr e ↦ rw (e, ne_f g o) refl
      | inl e ↦
          let same : g ≡ t = ground arith in
          let miss : (x == i) ≡ false = ground arith in rw (e, miss, ne_f t t_owned) (rw same refl)
    ]

    new-Extends : Extends owned m new
    unfolding set_entry clear_table
    new-Extends = record {
      keeps = λ g x o v. entry_other g x o (elim (Bool-cases ((g == t) && (x == i))) [
        | inr e ↦ e
        | inl e ↦
            let same : g ≡ t = ground arith in
            let same' : x ≡ i = ground arith in absurd (cc (invalid, v, same, same'))
      ]);
      owns = still;
    }

    page_of_f : page_mask (with_descriptor f) ≡ f
    page_of_f = omega (arith, (frames.fresh m.frames f got).1)

    deeper_old : (g : ℕ) → owned m.frames g ≡ true → deeper g ≡ level g
    deeper_old g o = rw (ne_f g o) refl

    -- Entries of the new tree that lead down.
    new_down :
        (g x : ℕ)
        → owned left g ≡ true
        → deeper g < 3
        → pte_valid (new.tables g x) ≡ true
        → has_table_bit (new.tables g x) ≡ true
        → (owned left (page_mask (new.tables g x)) ≡ true)
          × (deeper (page_mask (new.tables g x)) ≡ suc (deeper g))
    new_down g x o low v h = elim (Bool-cases (g == f)) [
      | inl e ↦
          let same : g ≡ f = ground arith in
          let zero_entry : new.tables g x ≡ 0 = rw same (entry_blank x) in
          absurd (cc (rw zero_entry at v))
      | inr e ↦
          let old : owned m.frames g ≡ true =
            let all = (frames.fresh m.frames f got).2 g in ground arith in
          elim (Bool-cases ((g == t) && (x == i))) [
            | inl d ↦
                let same : g ≡ t = ground arith in
                let same' : x ≡ i = ground arith in
                let page : page_mask (new.tables g x) ≡ f = rw (same, same', entry_new) page_of_f in
                let depth : deeper f ≡ suc (level t) = rw (test_self f) refl in
                rw page (f_owned, depth ∙ ap suc (sym (rw same (deeper_old t t_owned))))
            | inr d ↦
                let entry = entry_other g x old d in
                let (po, pl) =
                  tree.down g x old (rw (← deeper_old g old) low) (rw (← entry) v)
                    (rw (← entry) h) in
                rw entry (still _ po, deeper_old _ po ∙ pl ∙ ap suc (sym (deeper_old g old)))
          ]
    ]

    new_top :
        (x : ℕ) → pte_valid (new.tables root x) ≡ true → has_table_bit (new.tables root x) ≡ true
    new_top x v = elim (Bool-cases ((root == t) && (x == i))) [
      | inl d ↦
          let same : root ≡ t = ground arith in
          let same' : x ≡ i = ground arith in rw (same, same', entry_new) (ground arith)
      | inr d ↦
          let entry = entry_other root x tree.root_owned d in rw entry (tree.top x (rw (← entry) v))
    ]

    new_reached : Reached owned level root t i f m new
    unfolding set_entry clear_table
    new_reached = record {
      level' = deeper;
      tree = record {
        root_owned = still root tree.root_owned;
        root_level = deeper_old root tree.root_owned ∙ tree.root_level;
        down = new_down;
        top = new_top;
      };
      grows = new-Extends;
      next_owned = f_owned;
      next_level = rw (test_self f) refl;
      valid = rw entry_new (ground arith);
      table = rw entry_new (ground arith);
      leads = rw entry_new page_of_f;
      unchanged = λ yes_valid. absurd (cc (invalid, yes_valid));
      blank = λ _ x. entry_blank x;
    }

    resolve-new : resolve t i m ≡ (ok f, new)
    unfolding resolve
    resolve-new = rw invalid (
        ap
          (λ (p : Result ℕ × Mmu b). on_ok p (λ n m'. (ok n, set_entry t i (with_descriptor n) m')))
          (fresh_table-ok m f got))

  resolve_failed :
      pte_valid (m.tables t i) ≡ false
      → (c : Errno) → (b.alloc_page m.frames).0 ≡ err c
      → (resolve t i m).0 ≡ err enomem
  unfolding resolve
  resolve_failed invalid c e = rw invalid (
      ap
        (λ (p : Result ℕ × Mmu b).
          (on_ok p (λ n m'. (ok n, set_entry t i (with_descriptor n) m'))).0)
        (fresh_table-err m c e))

  -- The next table is where the tree says; a block is no table.
  pub resolve-Reached :
      (n : ℕ)
      → (pte_valid (m.tables t i) ≡ true → has_table_bit (m.tables t i) ≡ true)
      → (resolve t i m).0 ≡ ok n
      → Reached owned level root t i n m (resolve t i m).1
  resolve-Reached n tab e = elim (Bool-cases (pte_valid (m.tables t i))) [
    | inl v ↦
        let kept : resolve t i m ≡ (ok (page_mask (m.tables t i)), m) =
          unfold resolve in rw v refl in
        let same : page_mask (m.tables t i) ≡ n =
          cc (sym e ∙ ap (λ (x : Result ℕ × Mmu b). x.0) kept) in
        rw (kept, ← same) (resolve_old v (tab v))
    | inr v ↦ elim (Result-cases (b.alloc_page m.frames).0) [
      | inl (c, failed) ↦ absurd (cc (sym e ∙ resolve_failed v c failed))
      | inr (f, got) ↦
          let made = resolve-new v f got in
          let same : f ≡ n = cc (sym e ∙ ap (λ (x : Result ℕ × Mmu b). x.0) made) in
          rw (made, ← same) (new_reached v f got)
    ]
  ]
