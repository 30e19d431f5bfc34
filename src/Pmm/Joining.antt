-- ===== src/Pmm/Joining.antt =====
-- The merging loop of `pmm_free_page`: it takes in the buddies from order to order, as long as they
-- are free, and changes no page outside the block that it ends with.
use native.Mathlib.Nat.{div-mul-le_self, pow-le-pow_right}
use native.Mathlib.Numerals.{add-one}
use arm_os.Base.{
  ℕ, zero, suc, ◌+◌, ◌-◌, ◌/◌, ◌^◌, ◌<◌, ◌≤◌, ◌≡◌, refl, arith, Bool, true, false, ◌==◌, ◌||◌, not,
  ltb, leb, if◌then◌else◌, Bool-cases, inl, inr, bit_xor, sym, ◌∙◌, ◌⊎◌, ◌&&◌,
}
use arm_os.Pmm.State.{
  Pmm, as_taken, mark_taken, list_remove, to_kv, to_index, block_bytes, block_pages,
}
use arm_os.Pmm.Marks.{mark_pages-at}
use arm_os.Pmm.Free.{Merged, merge_loop}
use arm_os.Pmm.Buddies.{
  block_size, block_size-suc, block_size-pos, buddy_lem, Pair, Pair_lem, block_at, block_at-suc,
  block_at-nests, buddy-apart,
}

-- The page of a block's buddy is outside the managed pages, or not free, or of another order.
abbrev pub stops : (frame order : ℕ) → Pmm → Bool
stops frame order s =
    let m = s.meta_array (to_index (bit_xor frame (block_bytes order))) in
    leb s.total_pages (to_index (bit_xor frame (block_bytes order)))
    || (not m.is_free || not (m.order == order))

-- The page is not one of the block of order `o` that `x` lies in.
abbrev pub Outside : (i x o : ℕ) → Type 0
Outside i x o = (i < block_at x o / 4096) ⊎ (block_at x o / 4096 + 2 ^ o ≤ i)

-- A page outside a block is outside the blocks in it.
Outside-inner : (i x o j : ℕ) → o ≤ j → Outside i x j → Outside i x o
Outside-inner i x o j h out =
    let e : o + (j - o) ≡ j = omega (arith, h) in
    let (low, high) = block_at-nests x o (j - o) in
    let low' : block_at x j ≤ block_at x o = rw e at low in
    let high' : block_at x o + block_size o ≤ block_at x j + block_size j = rw e at high in
    elim out [
      | inl below ↦ inl (omega (arith, below, low'))
      | inr above ↦ inr (omega (arith, above, high'))
    ]

block_size-le : (o j : ℕ) → o ≤ j → block_size o ≤ block_size j
block_size-le o j h = omega (arith, pow-le-pow_right {n = 2} (omega arith) {i = o} {j = j} h)

-- One round, where it goes on.
module _ (x o : ℕ) (s : Pmm) (bound : block_size o ≤ 2 ^ 63) where
  abbrev buddy : ℕ
  buddy = bit_xor (block_at x o) (block_bytes o)

  abbrev without : Pmm
  without = mark_taken (to_index buddy) o (list_remove o (to_kv s buddy) s)

  pair : Pair (x / block_size o) (block_size o) (block_at x o) buddy
  pair =
      Pair_lem (x / block_size o) (block_size o) (block_at x o) buddy
        (omega (arith, block_size-pos o)) refl
        (buddy_lem o (x / block_size o) (block_at x o) refl (omega (arith, bound)))

  merged_at : (if ltb (block_at x o) buddy then block_at x o else buddy) ≡ block_at x (suc o)
  merged_at = pair.aligned ∙ sym (block_at-suc x o)

  pub goes_on :
      (k : ℕ)
      → stops (block_at x o) o s ≡ false
      → merge_loop (suc k) o (block_at x o) s ≡ merge_loop k (suc o) (block_at x (suc o)) without
  unfolding merge_loop
  goes_on k e = rw e (λ i. merge_loop k (add-one o i) (merged_at i) without)

  without-Outside : (i : ℕ) → Outside i x (suc o) → without.meta_array i ≡ s.meta_array i
  unfolding mark_taken list_remove
  without-Outside i h =
      let p = pair in
      let at = merged_at in
      let size = block_size-suc o in
      let marked = mark_pages-at (block_pages o) (to_index buddy) as_taken s.meta_array i in
      let low : block_at x (suc o) ≤ buddy = omega (arith, p.other_start, at) in
      let high : buddy + block_size o ≤ block_at x (suc o) + block_size (suc o) =
        omega (arith, p.other_end, at, size) in
      let out : (leb (to_index buddy) i && ltb i (to_index buddy + block_pages o)) ≡ false =
        elim h [ inl h ↦ ground (arith, low, h) | inr h ↦ ground (arith, high, h, size) ] in
      marked ∙ rw out refl

  -- The tests at the higher orders are not affected.
  without-stops :
      (k : ℕ)
      → block_size (suc o + k) ≤ 2 ^ 63
      → stops (block_at x (suc o + k)) (suc o + k) without
        ≡ stops (block_at x (suc o + k)) (suc o + k) s
  without-stops k b =
      let j = suc o + k in
      let i = to_index (bit_xor (block_at x j) (block_bytes j)) in
      let (low, high) = block_at-nests x (suc o) k in
      let out : Outside i x (suc o) = elim (buddy-apart x j b) [
        | inl h ↦ inl (omega (arith, h, low))
        | inr h ↦ inr (omega (arith, h, high))
      ] in
      let total : without.total_pages ≡ s.total_pages = unfold mark_taken list_remove in refl in
      λ t.
        let m = without-Outside i out t in leb (total t) i || (not m.is_free || not (m.order == j))

  pub without-stops-above :
      (j : ℕ)
      → suc o ≤ j
      → block_size j ≤ 2 ^ 63
      → stops (block_at x j) j without ≡ stops (block_at x j) j s
  without-stops-above j h b =
      let e : suc o + (j - suc o) ≡ j = omega (arith, h) in
      let at : (d : ℕ) → suc o + d ≡ j → block_size (suc o + d) ≤ 2 ^ 63 = λ d same. rw same b in
      rw e at (without-stops (j - suc o) (at (j - suc o) e))

  -- The tests at the orders from `o` on, from those at the orders above.
  lower_step :
      (last : ℕ)
      → stops (block_at x o) o s ≡ false
      → block_size last ≤ 2 ^ 63
      → ((k : ℕ) → suc o + k < last → stops (block_at x (suc o + k)) (suc o + k) without ≡ false)
      → (k : ℕ) → o + k < last
      → stops (block_at x (o + k)) (o + k) s ≡ false
  lower_step last e b above zero h = let same : o + 0 ≡ o = omega arith in rw same e
  lower_step last e b above (suc k) h =
      let same : o + suc k ≡ suc o + k = omega arith in
      let less : suc o + k < last = omega (arith, h) in
      rw same (
        sym
          (without-stops k (omega (arith, block_size-le (suc o + k) last (omega (arith, less)), b)))
        ∙ above k less)

-- What the loop makes of the block of order `o` that `x` lies in: at every order on the way the buddy
-- is a free block of that order, at the last one it is not, and other pages are as they were.
pub record Joined (x o : ℕ) (s : Pmm) (m : Merged) : Type 0 where
  pub above : o ≤ m.order
  pub bounded : block_size m.order ≤ 2 ^ 63
  pub place : m.frame ≡ block_at x m.order
  pub lower : (k : ℕ) → o + k < m.order → stops (block_at x (o + k)) (o + k) s ≡ false
  pub upper : stops (block_at x m.order) m.order s ≡ true
  pub outside : (i : ℕ) → Outside i x m.order → m.state.meta_array i ≡ s.meta_array i

-- A block inside the address space whose buddy is managed is at most half of it.
larger_fits :
    (x o : ℕ) (s : Pmm)
    → x < 2 ^ 62
    → s.total_pages ≤ 2 ^ 50
    → block_size o ≤ 2 ^ 63
    → stops (block_at x o) o s ≡ false
    → block_size (suc o) ≤ 2 ^ 63
larger_fits x o s low small bound e =
    let p = pair x o s bound in
    let inside : to_index (buddy x o s bound) < s.total_pages = ground (arith, e) in
    omega (arith, p.size, inside, small, low, block_size-suc o, div-mul-le_self x (block_size o))

high_order : block_size 63 ≤ 2 ^ 63 → ⊥
high_order h = omega (arith, h)

pub merge_loop-Joined :
    (k o x : ℕ) (s : Pmm)
    → o + k ≡ 63
    → x < 2 ^ 62
    → s.total_pages ≤ 2 ^ 50
    → block_size o ≤ 2 ^ 63
    → Joined x o s (merge_loop k o (block_at x o) s)
merge_loop-Joined zero o x s sum low small bound =
    let last : o ≡ 63 = omega (arith, sum) in absurd (high_order (rw last at bound))
merge_loop-Joined (suc k) o x s sum low small bound = elim (Bool-cases (stops (block_at x o) o s)) [
  | inl e ↦
      unfold merge_loop in
      rw e (record {
        above = omega arith;
        bounded = bound;
        place = refl;
        lower = λ k h. absurd (omega (arith, h));
        upper = e;
        outside = λ i h. refl;
      })
  | inr e ↦
      let s1 = without x o s bound in
      let fits = larger_fits x o s low small bound e in
      let ih =
        merge_loop-Joined k (suc o) x s1 (omega (arith, sum)) low
          (unfold mark_taken list_remove in small) fits in
      let order = (merge_loop k (suc o) (block_at x (suc o)) s1).order in
      rw (goes_on x o s bound k e) (record {
        above = omega (arith, ih.above);
        bounded = ih.bounded;
        place = ih.place;
        lower = lower_step x o s bound order e ih.bounded ih.lower;
        upper = sym (without-stops-above x o s bound order ih.above ih.bounded) ∙ ih.upper;
        outside = λ i h.
            ih.outside i h
            ∙ without-Outside x o s bound i (Outside-inner i x (suc o) order ih.above h);
      })
]
