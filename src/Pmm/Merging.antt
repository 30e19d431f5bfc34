-- ===== src/Pmm/Merging.antt =====
-- What a page's last release does to its block, and to the free buddies of the block.
use arm_os.Pmm.Joining.{stops, Outside, Joined, merge_loop-Joined}
use arm_os.Pmm.Buddies.{block_size, block_at, block_at-nests}
use native.Mathlib.Nat.{one-le-pow, mod-add-div, pow-le-pow_right}
use native.Mathlib.Decide.{dec_lt}
use arm_os.Base.{
  ℕ, zero, suc, ◌+◌, ◌-◌, ◌/◌, ◌%◌, ◌^◌, ◌<◌, ◌≤◌, ◌≡◌, refl, arith, true, false, ◌==◌, ◌||◌, not,
  ltb, leb, Bool-cases, inl, inr, bit_xor, ap, sym, ◌∙◌, ok, err, efault, tt, update, test_self,
  add64, ◌&&◌,
}
use arm_os.Pmm.State.{
  Pmm, as_free, mark_free, mark_taken, list_add, list_remove, to_kv, to_index, block_bytes,
  block_pages, PageMeta, mark_pages,
}
use arm_os.Pmm.Marks.{mark_pages-at}
use arm_os.Pmm.Free.{merge_loop, give_back, free_page, release}

merge_loop-hhdm_offset :
    (k o frame : ℕ) (s : Pmm) → (merge_loop k o frame s).state.hhdm_offset ≡ s.hhdm_offset
unfolding merge_loop mark_taken list_remove
merge_loop-hhdm_offset zero o frame s = refl
merge_loop-hhdm_offset (suc k) o frame s = elim (Bool-cases (stops frame o s)) [
  | inl e ↦ rw e refl
  | inr e ↦ rw e (merge_loop-hhdm_offset k (o + 1) _ _)
]

-- A frame that starts a block of the order, in a physical space of at most 62 bits.
pub record IsBlock (frame order : ℕ) (s : Pmm) : Type 0 where
  pub aligned : frame % block_size order ≡ 0
  pub in_space : frame < 2 ^ 62
  pub fits : block_size order ≤ 2 ^ 62
  pub small : s.total_pages ≤ 2 ^ 50

-- What freeing the block of order `o` at `frame` in `s` leaves in `t`: one free block, of the order
-- `order`. At each order below it the buddy was a free block of that order, and at `order` it was
-- not. The pages of the block are free, with its order and no reference, the other pages are as they
-- were, and the block is the first one on the list of its order.
pub record IsMerged (frame o order : ℕ) (s t : Pmm) : Type 0 where
  pub above : o ≤ order
  pub lower : (k : ℕ) → o + k < order → stops (block_at frame (o + k)) (o + k) s ≡ false
  pub upper : stops (block_at frame order) order s ≡ true
  pub pages :
      (i : ℕ)
      → block_at frame order / 4096 ≤ i
      → i < block_at frame order / 4096 + 2 ^ order
      → t.meta_array i ≡ as_free order (t.meta_array i)
  pub outside : (i : ℕ) → Outside i frame order → t.meta_array i ≡ s.meta_array i
  pub first : (t.orders order).head ≡ to_kv s (block_at frame order)

to_kv-eq : (s t : Pmm) (x y : ℕ) → s.hhdm_offset ≡ t.hhdm_offset → x ≡ y → to_kv s x ≡ to_kv t y
unfolding to_kv
to_kv-eq s t x y e f = λ i. add64 (f i) (e i)

order_lt : (o : ℕ) → block_size o ≤ 2 ^ 62 → o < 64
order_lt o h = elim (dec_lt o 64) [
  | yes p ↦ p
  | no p ↦
      let grows : 2 ^ 64 ≤ 2 ^ o = pow-le-pow_right (omega arith) {i = 64} (omega arith) in
      absurd (omega arith)
]

free_page-IsMerged :
    (frame o : ℕ) (s : Pmm)
    → IsBlock frame o s
    → ((free_page o frame s).0 ≡ ok tt)
      × ((order : ℕ) × IsMerged frame o order s (free_page o frame s).1)
unfolding free_page give_back mark_free list_add
free_page-IsMerged frame o s v =
    let q = frame / block_size o in
    let whole : frame ≡ block_at frame o =
      omega (arith, mod-add-div frame (block_size o), v.aligned) in
    let m = merge_loop (63 - o) o frame s in
    let below = order_lt o v.fits in
    let c : Joined frame o s m = rw (← whole) at (
      merge_loop-Joined (63 - o) o frame s (omega (arith, below)) v.in_space v.small
        (omega (arith, v.fits))) in
    let marked =
      mark_pages-at (block_pages m.order) (to_index m.frame) (as_free m.order) m.state.meta_array in
    let good : (leb 64 o || not (frame % 4096 == 0)) ≡ false = ground (arith, below, whole) in
    rw good (
      refl,
      (
        m.order,
        record {
          above = c.above;
          lower = c.lower;
          upper = c.upper;
          pages = λ i low high.
              let inside : (leb (to_index m.frame) i
                    && ltb i (to_index m.frame + block_pages m.order))
                  ≡ true =
                ground (arith, low, high, c.place) in
              let e : mark_pages (block_pages m.order) (to_index m.frame) (as_free m.order)
                    m.state.meta_array i
                  ≡ as_free m.order (m.state.meta_array i) =
                marked i ∙ rw inside refl in
              e ∙ sym (ap (as_free m.order) e);
          outside = λ i out.
              let away : (leb (to_index m.frame) i
                    && ltb i (to_index m.frame + block_pages m.order))
                  ≡ false =
                elim out [
                  | inl low ↦ ground (arith, low, c.place)
                  | inr high ↦ ground (arith, high, c.place)
                ] in
              marked i ∙ rw away (c.outside i out);
          first = rw (test_self m.order) (
              to_kv-eq m.state s m.frame (block_at frame m.order)
                (merge_loop-hhdm_offset (63 - o) o frame s) c.place);
        },
      ),
    )

release-free :
    (frame : ℕ) (s : Pmm)
    → (s.meta_array (to_index frame)).is_free ≡ true
    → (release frame s).0 ≡ err efault
unfolding release
release-free frame s h = ground arith

-- The state with one reference less.
abbrev dropped : ℕ → Pmm → Pmm
dropped frame s =
    let m = s.meta_array (to_index frame) in
    record s {
      meta_array = update s.meta_array (to_index frame) (record m { ref_count = m.ref_count - 1 });
    }

release-one :
    (frame : ℕ) (s : Pmm)
    → to_index frame < s.total_pages
    → (s.meta_array (to_index frame)).is_free ≡ false
    → (s.meta_array (to_index frame)).ref_count ≡ 1
    → release frame s ≡ free_page (s.meta_array (to_index frame)).order frame (dropped frame s)
unfolding release
release-one frame s inside taken one =
    let index = to_index frame in
    let m = s.meta_array index in
    let go : (leb s.total_pages index || m.is_free) ≡ false = ground arith in
    let counted : ltb 0 m.ref_count ≡ true = ground arith in
    let last : (m.ref_count - 1 == 0) ≡ true = ground arith in rw (go, counted, last)

dropped-fields :
    (frame i : ℕ) (s : Pmm)
    → (((dropped frame s).meta_array i).is_free ≡ (s.meta_array i).is_free)
      × (((dropped frame s).meta_array i).order ≡ (s.meta_array i).order)
dropped-fields frame i s = elim (Bool-cases (i == to_index frame)) [
  | inl e ↦
      let same : i ≡ to_index frame = ground (arith, e) in
      rw e (
        ap (λ (k : ℕ). (s.meta_array k).is_free) (sym same),
        ap (λ (k : ℕ). (s.meta_array k).order) (sym same),
      )
  | inr e ↦ rw e (refl, refl)
]

-- A reference less changes no test, and no page outside the block.
dropped-stops :
    (frame x o : ℕ) (s : Pmm) → stops (block_at x o) o (dropped frame s) ≡ stops (block_at x o) o s
dropped-stops frame x o s =
    let i = to_index (bit_xor (block_at x o) (block_bytes o)) in
    let (free, order) = dropped-fields frame i s in
    λ t. leb s.total_pages i || (not (free t) || not (order t == o))

dropped-IsMerged :
    (frame o order : ℕ) (s t : Pmm)
    → IsMerged frame o order (dropped frame s) t
    → IsMerged frame o order s t
unfolding to_kv
dropped-IsMerged frame o order s t m = record {
  above = m.above;
  lower = λ k h. sym (dropped-stops frame frame (o + k) s) ∙ m.lower k h;
  upper = sym (dropped-stops frame frame order s) ∙ m.upper;
  pages = m.pages;
  outside = λ i out.
      let (low, high) = block_at-nests frame 0 order in
      let other : (i == to_index frame) ≡ false = elim out [
        | inl below ↦ ground (arith, below, low)
        | inr above ↦ ground (arith, above, high)
      ] in
      m.outside i out ∙ rw other refl;
  first = m.first;
}

-- The last reference to a block of order `o`: releasing it succeeds and leaves one free block, which
-- takes in the buddies as long as they are free blocks of the order reached, as `IsMerged` says. Every
-- page of the released block is then free, and a second release of the frame fails with EFAULT. The
-- frame lies in the managed pages, its metadata says not free, one reference and the order `o`, and
-- it is aligned to its block, in a physical space of at most 62 bits.
pub release_last :
    (frame : ℕ) (s : Pmm)
    → to_index frame < s.total_pages
    → (s.meta_array (to_index frame)).is_free ≡ false
    → (s.meta_array (to_index frame)).ref_count ≡ 1
    → IsBlock frame (s.meta_array (to_index frame)).order s
    → ((release frame s).0 ≡ ok tt)
      × ((order : ℕ) × IsMerged frame
            (s.meta_array (to_index frame)).order
            order
            s
            (release frame s).1)
      × ((i : ℕ)
          → to_index frame ≤ i
          → i < to_index frame + 2 ^ (s.meta_array (to_index frame)).order
          → ((release frame s).1.meta_array i).is_free ≡ true)
      × ((release frame (release frame s).1).0 ≡ err efault)
release_last frame s inside taken one v =
    let index = to_index frame in
    let o = (s.meta_array index).order in
    let v' : IsBlock frame o (dropped frame s) = record {
      aligned = v.aligned;
      in_space = v.in_space;
      fits = v.fits;
      small = v.small;
    } in
    let (done, (order, merged)) = free_page-IsMerged frame o (dropped frame s) v' in
    let t = (free_page o frame (dropped frame s)).1 in
    let free : (i : ℕ) → index ≤ i → i < index + 2 ^ o → (t.meta_array i).is_free ≡ true =
      λ i low high.
        let e : o + (order - o) ≡ order = omega (arith, merged.above) in
        let (start, end) = block_at-nests frame o (order - o) in
        let start' : block_at frame order ≤ block_at frame o = rw e at start in
        let end' : block_at frame o + block_size o ≤ block_at frame order + block_size order =
          rw e at end in
        let whole : frame ≡ block_at frame o =
          omega (arith, mod-add-div frame (block_size o), v.aligned) in
        ap (λ (m : PageMeta). m.is_free)
          (merged.pages i (omega (arith, start', whole, low)) (omega (arith, end', whole, high))) in
    let here = free index (omega arith) (omega (arith, one-le-pow o 2)) in
    rw (release-one frame s inside taken one)
      (done, (order, dropped-IsMerged frame o order s t merged), free, release-free frame _ here)
