-- ===== src/Pmm/Claiming.antt =====
-- Which block the allocators of pmm.c choose, and what a claim writes to the page metadata.
use native.Mathlib.Nat.{pow-suc, one-le-pow, pow-le-pow_right}
use native.Mathlib.Numerals.{add-one}
use native.Mathlib.Decide.{dec_lt}
use arm_os.Base.{
  ℕ, zero, suc, ◌+◌, ◌-◌, ◌*◌, ◌%◌, ◌^◌, ◌<◌, ◌≤◌, ◌≡◌, refl, arith, true, false, ◌&&◌, ltb, leb,
  if◌then◌else◌, inl, inr, ap, ◌⊎◌, u64_mod, add64, sym, ◌∙◌,
}
use arm_os.Pmm.State.{
  Pmm, PageMeta, as_free, as_taken, mark_free, mark_taken, list_add, list_remove, to_kv,
  kv_to_paddr, to_index, block_bytes, block_pages,
}
use arm_os.Pmm.Marks.{mark_pages-at}
use arm_os.Pmm.Buddies.{block_size}
use arm_os.Pmm.Alloc.{split_loop, claim}

at_outside :
    (b n i : ℕ) (x y : PageMeta)
    → (i < b) ⊎ (b + n ≤ i)
    → (if leb b i && ltb i (b + n) then x else y) ≡ y
at_outside b n i x y h = ground arith

at_inside :
    (b n i : ℕ) (x y : PageMeta)
    → b ≤ i
    → i < b + n
    → (if leb b i && ltb i (b + n) then x else y) ≡ x
at_inside b n i x y l u = ground arith

half-at :
    (order node index i : ℕ) (s : Pmm)
    → (list_add order node (mark_free index order s)).meta_array i ≡ (
        if leb index i && ltb i (index + 2 ^ order)
        then as_free order (s.meta_array i)
        else s.meta_array i)
unfolding list_add mark_free
half-at order node index i s =
    mark_pages-at (block_pages order) index (as_free order) s.meta_array i

-- What the splitting loop leaves at page `i` of a block of order `p + k` that starts at page `index`.
record SplitAt (p k index i : ℕ) (s t : Pmm) : Type 0 where
  -- Pages of the part that is kept, and outside the block, are as they were.
  kept : (i < index + 2 ^ p) ⊎ (index + 2 ^ (p + k) ≤ i) → t.meta_array i ≡ s.meta_array i
  -- Pages of the upper half of order `o` are free with that order.
  halves :
      (o : ℕ)
      → p ≤ o
      → o < p + k
      → index + 2 ^ o ≤ i
      → i < index + 2 ^ (o + 1)
      → t.meta_array i ≡ as_free o (s.meta_array i)

split_loop-SplitAt :
    (k p phys i : ℕ) (s : Pmm)
    → phys % 4096 ≡ 0
    → phys + block_size (p + k) < u64_mod
    → SplitAt p k (to_index phys) i s (split_loop k p phys s)
unfolding split_loop
split_loop-SplitAt zero p phys i s al b = record {
  kept = λ h. refl;
  halves = λ o lo hi. absurd (omega arith);
}
split_loop-SplitAt (suc k) p phys i s al b =
    let order = p + k in
    let e : p + suc k ≡ suc order = omega arith in
    let double : 2 ^ (p + suc k) ≡ 2 * 2 ^ order =
      ap (λ (t : ℕ). 2 ^ t) e ∙ omega (arith, pow-suc 2 order) in
    let buddy = add64 phys (block_bytes order) in
    let at : to_index buddy ≡ to_index phys + 2 ^ order = omega arith in
    let t = list_add order (to_kv s buddy) (mark_free (to_index buddy) order s) in
    let marked = half-at order (to_kv s buddy) (to_index buddy) i s in
    let ih = split_loop-SplitAt k p phys i t al (omega arith) in
    let low : 2 ^ p ≤ 2 ^ order = pow-le-pow_right (omega arith) {i = p} (omega arith) in
    record {
      kept = λ h. elim h [
        | inl l ↦
            ih.kept (inl l)
            ∙ marked
            ∙ at_outside (to_index buddy) (2 ^ order) i _ _ (inl (omega arith))
        | inr u ↦
            ih.kept (inr (omega arith))
            ∙ marked
            ∙ at_outside (to_index buddy) (2 ^ order) i _ _ (inr (omega arith))
      ];
      halves = λ o lo hi l u. elim (dec_lt o order) [
        | yes below ↦
            let top : 2 ^ (o + 1) ≤ 2 ^ order =
              pow-le-pow_right (omega arith) {i = o + 1} (omega arith) in
            ih.halves o lo below l u
            ∙ ap (as_free o)
                (marked ∙ at_outside (to_index buddy) (2 ^ order) i _ _ (inl (omega arith)))
        | no above ↦
            let same : o ≡ order = omega arith in
            let l' = ap (λ (n : ℕ). 2 ^ n) same in
            let u' : 2 ^ (o + 1) ≡ 2 * 2 ^ order =
              ap (λ (n : ℕ). 2 ^ n) (add-one o ∙ ap suc same) ∙ omega (arith, pow-suc 2 order) in
            ih.kept (inr (omega arith))
            ∙ marked
            ∙ at_inside (to_index buddy) (2 ^ order) i _ _ (omega arith) (omega arith)
            ∙ ap (λ (n : ℕ). as_free n (s.meta_array i)) (sym same)
      ];
    }

-- The metadata of page `i` after a block of order `found` at `phys` was claimed for order `p`.
pub record ClaimedAt (p found phys i : ℕ) (s t : Pmm) : Type 0 where
  -- The first page carries the order and one reference, and no page of the block is free.
  pub first :
      i ≡ to_index phys
      → ((t.meta_array i).order ≡ p)
        × ((t.meta_array i).ref_count ≡ 1)
        × ((t.meta_array i).is_free ≡ false)
  pub taken : to_index phys ≤ i → i < to_index phys + 2 ^ p → (t.meta_array i).is_free ≡ false
  -- The rest of the block found is free, in halves.
  pub halves :
      (o : ℕ)
      → p ≤ o
      → o < found
      → to_index phys + 2 ^ o ≤ i
      → i < to_index phys + 2 ^ (o + 1)
      → ((t.meta_array i).is_free ≡ true)
        × ((t.meta_array i).order ≡ o)
        × ((t.meta_array i).ref_count ≡ 0)
  -- Pages outside the block found are as they were.
  pub outside :
      (i < to_index phys) ⊎ (to_index phys + 2 ^ found ≤ i) → t.meta_array i ≡ s.meta_array i

module _ (found p node : ℕ) (s : Pmm) where
  abbrev phys : ℕ
  phys = kv_to_paddr s node

  cleared-at :
      (i : ℕ)
      → (mark_taken (to_index phys) found (list_remove found node s)).meta_array i ≡ (
          if leb (to_index phys) i && ltb i (to_index phys + 2 ^ found)
          then as_taken (s.meta_array i)
          else s.meta_array i)
  unfolding mark_taken list_remove
  cleared-at i = mark_pages-at (block_pages found) (to_index phys) as_taken s.meta_array i

  -- A claim of order `p` from a block of order `found` that is page aligned and ends below 2 ^ 64:
  -- page by page, the block's part is taken with one reference on its first page, each half split off
  -- is free with its own order, and all other metadata is unchanged.
  pub claim_pages :
      (i : ℕ)
      → p ≤ found
      → phys % 4096 ≡ 0
      → phys + block_size found < u64_mod
      → ClaimedAt p found phys i s (claim found p node s).1
  unfolding claim
  claim_pages i le al b =
      let e : p + (found - p) ≡ found = omega arith in
      let b' : phys + block_size (p + (found - p)) < u64_mod = rw e b in
      let cleared = mark_taken (to_index phys) found (list_remove found node s) in
      let split = split_loop-SplitAt (found - p) p phys i cleared al b' in
      let size : 2 ^ p ≤ 2 ^ found = pow-le-pow_right (omega arith) {i = p} le in
      let power = ap (λ (n : ℕ). 2 ^ n) e in
      let marked = cleared-at i in
      let one = one-le-pow p 2 in
      record {
        first = λ q. ground (arith, split.kept (inl (omega arith)), marked);
        taken = λ l u. ground (arith, split.kept (inl u), marked);
        halves = λ o lo hi l u. ground (arith, split.halves o lo (omega arith) l u, one-le-pow o 2);
        outside = λ h. elim h [
          | inl l ↦ ground (arith, split.kept (inl (omega arith)), marked)
          | inr u ↦ ground (arith, split.kept (inr (omega arith)), marked)
        ];
      }
