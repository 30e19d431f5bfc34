-- ===== src/Mmu/Roundtrip.antt =====
-- `pt_map` of a page and `pt_translate` after it.
use arm_os.Base.{
  ℕ, ◌+◌, ◌/◌, ◌%◌, ◌^◌, ◌≤◌, ◌<◌, ◌≡◌, ◌≢◌, refl, sym, ap, ◌∙◌, inl, inr, Bool, false, ◌||◌, not,
  ◌==◌, ltb, if◌then◌else◌, Bool-cases, arith, add64, mul64, Unit, tt, Result, ok, err, einval,
  eoverflow, bit_and,
}
use arm_os.Mmu.Entry.{page_mask, page_entry, ps_4kb, return_flag_mask}
use arm_os.Mmu.Cpu.{pt_invalidate}
use arm_os.Mmu.State.{FrameSource, Mmu, on_ok}
use arm_os.Mmu.Translating.{walk, leaf, pt_translate}
use arm_os.Mmu.Mapping.{pt_map_single_page, map_pages, pt_map}
use arm_os.Mmu.Clearing.{Tables, meets_block}
use arm_os.Mmu.Owned.{IsFrames, IsTree}
use arm_os.Mmu.Mapped.{on_ok-inv}
use arm_os.Mmu.Reading.{Gains, single_page-Gains, walk-Extends, page_of_entry, no_exec_entry}

translate-walk :
    (f : Tables) (root v a c : ℕ)
    → root ≢ 0
    → a ≢ 0
    → c ≢ 0
    → pt_translate root v a c f ≡ walk f root v
unfolding pt_translate
translate-walk f root v a c r x y =
    let e0 : (root == 0) ≡ false = ground arith in
    let e1 : (a == 0) ≡ false = ground arith in
    let e2 : (c == 0) ≡ false = ground arith in rw (e0, e1, e2) refl

module _ {b : FrameSource} (root v p f : ℕ) (m : Mmu b)
    (e : (pt_map root v p 1 ps_4kb f m).0 ≡ ok tt) (live : root ≢ 0) (word : v < 2 ^ 64)
    (word' : p < 2 ^ 64) where
  -- What comes after the guards of `pt_map`.
  abbrev run : Result (Unit {0}) × Mmu b
  run =
      on_ok (map_pages 1 0 root v p ps_4kb f m)
        λ _ m'. (ok tt, record m' { cpu = pt_invalidate v 1 ps_4kb m'.cpu })

  passed : (v % ps_4kb ≡ 0) × (p % ps_4kb ≡ 0) × (pt_map root v p 1 ps_4kb f m ≡ run)
  passed = elim (Bool-cases (not (v % ps_4kb == 0) || not (p % ps_4kb == 0))) [
    | inl bad ↦ absurd (cc (rw (pt_map_guards, no_root, bad) at e))
    | inr good ↦ elim (Bool-cases (ltb (add64 v (mul64 1 ps_4kb)) v)) [
      | inl bad ↦ absurd (cc (rw (pt_map_guards, no_root, good, bad) at e))
      | inr fits ↦ (ground arith, ground arith, pt_map_guards ∙ rw (no_root, good, fits) refl)
    ]
  ]
    where
      no_root : (root == 0) ≡ false
      no_root = ground arith

      pt_map_guards : pt_map root v p 1 ps_4kb f m ≡ (
          if root == 0
          then (err einval, m)
          else if not (v % ps_4kb == 0) || not (p % ps_4kb == 0)
          then (err einval, m)
          else if ltb (add64 v (mul64 1 ps_4kb)) v
          then (err eoverflow, m)
          else run)
      pt_map_guards = unfold pt_map in refl

  one_page :
      map_pages 1 0 root v p ps_4kb f m
      ≡ on_ok (pt_map_single_page root v p ps_4kb f m) λ _ m'. (ok tt, m')
  one_page =
      let at_v : add64 v (mul64 0 ps_4kb) ≡ v = omega arith in
      let at_p : add64 p (mul64 0 ps_4kb) ≡ p = omega arith in
      unfold map_pages in
      (λ i. on_ok (pt_map_single_page root (at_v i) (at_p i) ps_4kb f m) λ _ m'. (ok tt, m'))

  single :
      ((pt_map_single_page root v p ps_4kb f m).0 ≡ ok tt)
      × ((pt_map root v p 1 ps_4kb f m).1.tables
          ≡ (pt_map_single_page root v p ps_4kb f m).1.tables)
  single =
      let first = λ (x : Result (Unit {0}) × Mmu b). x.0 in
      let tables = λ (x : Result (Unit {0}) × Mmu b). x.1.tables in
      let step = passed.2 in
      let (_, ran, out) =
        on_ok-inv (map_pages 1 0 root v p ps_4kb f m) _ tt (sym (ap first step) ∙ e) in
      let (_, done, all) =
        on_ok-inv (pt_map_single_page root v p ps_4kb f m) _ tt (sym (ap first one_page) ∙ ran) in
      (done, ap tables step ∙ ap tables out ∙ ap tables (one_page ∙ all))

module _ {b : FrameSource} (owned : b.State → ℕ → Bool) (frames : IsFrames b owned) (level : ℕ → ℕ)
    (root v p f : ℕ) (m : Mmu b) (tree : IsTree owned level root m)
    (free : meets_block m.tables root v ≡ false) (live : root ≢ 0) (word : v < 2 ^ 64) (a c : ℕ)
    (some_phys : a ≢ 0) (some_flags : c ≢ 0) where
  -- Every address of the page reads the entry that was written.
  pub map_reads :
      p + 4096 ≤ 2 ^ 64
      → (pt_map root v p 1 ps_4kb f m).0 ≡ ok tt
      → (p % 4096 ≡ 0)
        × ((o : ℕ)
            → o < 4096
            → pt_translate root (v + o) a c (pt_map root v p 1 ps_4kb f m).1.tables
              ≡ leaf (page_mask (page_entry p f)) o (page_entry p f))
        × Gains owned root v (page_entry p f) m (pt_map_single_page root v p ps_4kb f m).1
  map_reads inside e =
      let (v_page, p_page, _) = passed root v p f m e live word (omega arith) in
      let (did, tables) = single root v p f m e live word (omega arith) in
      let gains = single_page-Gains owned frames level root v p f m tree free did in
      let g = (pt_map_single_page root v p ps_4kb f m).1.tables in
      (
        p_page,
        λ o small.
            let near : (v + o) / 4096 ≡ v / 4096 = omega arith in
            let offset : (v + o) % 4096 ≡ o = omega arith in
            rw tables (
              translate-walk g root (v + o) a c live some_phys some_flags
              ∙ gains.reads (v + o) near
              ∙ ap (λ (x : ℕ). leaf (page_mask (page_entry p f)) x (page_entry p f)) offset),
        gains,
      )

  -- Where frames are handed out once and a page does not lie in a block, after a `pt_map` of the one
  -- small page at `v` to `p`, with flags below 2 ^ 12, that succeeds, `pt_translate` of every
  -- address of the page answers the same place behind `p` with the flags of the entry, and every
  -- translation that succeeded before gives the same answer.
  pub pt_map-pt_translate :
      p + 4096 ≤ 2 ^ 64
      → f < 4096
      → (pt_map root v p 1 ps_4kb f m).0 ≡ ok tt
      → ((o : ℕ)
          → o < 4096
          → pt_translate root (v + o) a c (pt_map root v p 1 ps_4kb f m).1.tables
            ≡ ok (p + o, bit_and (page_entry p f) return_flag_mask))
        × ((w : ℕ) (r : ℕ × ℕ)
            → pt_translate root w a c m.tables ≡ ok r
            → pt_translate root w a c (pt_map root v p 1 ps_4kb f m).1.tables ≡ ok r)
  pt_map-pt_translate inside low e =
      let (p_page, reads, gains) = map_reads inside e in
      let (did, tables) = single root v p f m e live word (omega arith) in
      let kept = page_of_entry p f p_page low in
      let entry = bit_and (page_entry p f) return_flag_mask in
      let g = (pt_map_single_page root v p ps_4kb f m).1.tables in
      (
        λ o small.
            let sum : add64 p o ≡ p + o = omega arith in
            reads o small ∙ (λ i. ok (add64 (kept i) o, entry)) ∙ (λ i. ok (sum i, entry)),
        λ w r h. rw tables (
            translate-walk g root w a c live some_phys some_flags
            ∙ walk-Extends owned level root m (pt_map_single_page root v p ps_4kb f m).1 tree
                gains.grows w r
                (sym (translate-walk m.tables root w a c live some_phys some_flags) ∙ h)),
      )

  -- In a tree of tables, where frames are handed out once and the page does not lie in a block, after
  -- a `pt_map` of the one small page at `v` to `p` that succeeds, with the flag MMU_NO_EXEC, bit 54,
  -- beside flags below 2 ^ 12, for a frame that ends by 2 ^ 48: `pt_translate` of an address of the
  -- page answers an address 2 ^ 54 beyond the one that was mapped.
  pub pt_map-no_exec :
      (low : ℕ)
      → low < 4096
      → p + 4096 ≤ 2 ^ 48
      → f ≡ 2 ^ 54 + low
      → (pt_map root v p 1 ps_4kb f m).0 ≡ ok tt
      → (o : ℕ) → o < 4096
      → pt_translate root (v + o) a c (pt_map root v p 1 ps_4kb f m).1.tables
        ≡ ok (p + 2 ^ 54 + o, bit_and (page_entry p f) return_flag_mask)
  pt_map-no_exec low small inside flags e o within =
      let (p_page, reads, gains) = map_reads (omega arith) e in
      let entry = bit_and (page_entry p f) return_flag_mask in
      let kept = no_exec_entry p f low p_page small inside flags in
      let sum : add64 (p + 2 ^ 54) o ≡ p + 2 ^ 54 + o = omega arith in
      reads o within ∙ (λ i. ok (add64 (kept i) o, entry)) ∙ (λ i. ok (sum i, entry))
