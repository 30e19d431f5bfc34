-- ===== src/Heap/Releasing.antt =====
-- `heap_free` returns a chunk, and joins it with the free chunks beside it.
use arm_os.Base.{
  ℕ, ◌≤◌, ◌<◌, ◌^◌, ◌≡◌, ◌≢◌, refl, ap, ◌∙◌, true, false, List, [], ◌∷◌, some, ◌==◌, Bool-cases,
  inl, inr, arith, test_self, test_below,
}
use arm_os.Heap.Block.{Blocks, magic_allocated, magic_free, coalesce_blocks, mark_free}
use arm_os.Heap.Chain.{
  Chunk, chunk, behind, link, Linked, chunk_at, Header-eq, Linked-eq, Linked-as,
}
use arm_os.Heap.Absorbing.{merge}
use arm_os.Heap.Editing.{chunk_at-le}
use arm_os.Heap.Model.{join, release}
use arm_os.Heap.Sweeping.{
  forward, backward, coalesce_blocks-phases, mark_free-below, mark_free-Linked, forward-Linked,
  forward-below, backward-Linked, backward-below, backward-magic,
}

link-join : (p : ℕ) (c : Chunk) (cs : List Chunk) → link p (join c cs) ≡ p
link-join p c [] = refl
link-join p c (d ∷ ds) = ground arith

-- A free chunk is in front of what it joins.
join-front :
    (c : Chunk) (cs : List Chunk)
    → c.free ≡ true
    → (e : Chunk) × (es : List Chunk) × (join c cs ≡ e ∷ es) × (e.free ≡ true)
join-front c [] free = (c, [], refl, free)
join-front c (d ∷ ds) free = elim (Bool-cases d.free) [
  | inl t ↦ (merge c d, ds, ground arith, free)
  | inr t ↦ (c, d ∷ ds, ground arith, free)
]

pub link-release : (a p : ℕ) (cs : List Chunk) → link p (release a p cs) ≡ link p cs
unfolding release
link-release a p [] = refl
link-release a p (c ∷ cs) =
    ground (arith, link-join p (chunk c.size true) cs, link-join p c (release a (behind p c) cs))

-- The blocks after the one at `a` is marked and swept.
abbrev pub swept : (a : ℕ) → Blocks → Blocks
swept a f = coalesce_blocks a (mark_free a f)

-- What freeing the block at `a` leaves of the chunks from `p` on.
pub record Freed (f : Blocks) (a q p : ℕ) (cs : List Chunk) (end : ℕ) : Type 0 where
  pub linked : Linked (swept a f) q p (release a p cs) end
  pub below : (x : ℕ) → x ≢ 0 → x < p → swept a f x ≡ f x
  pub magic : (swept a f a).magic ≢ magic_allocated

module _ (f : Blocks) (q p : ℕ) (c d : Chunk) (ds : List Chunk) (end : ℕ)
    (l : Linked f q p (c ∷ d ∷ ds) end) (pos : 0 < p) (top : end ≤ 2 ^ 64) where
  abbrev marked : Blocks
  marked = mark_free (behind p c) f

  marked-Linked : Linked marked q p (c ∷ chunk d.size true ∷ ds) end
  marked-Linked = (
    Header-eq (marked p) (f p) q p c (chunk d.size true ∷ ds)
        (mark_free-below f (behind p c) p (omega arith))
        (record {
          size = l.0.size;
          free = l.0.free;
          magic = l.0.magic;
          next = l.0.next;
          prev = l.0.prev;
        }),
    mark_free-Linked f p (behind p c) d ds end l.1,
  )

  swept_forward : Linked (forward (behind p c) marked) q p (c ∷ join (chunk d.size true) ds) end
  swept_forward =
      let m = marked-Linked in
      let g = forward (behind p c) marked in
      (
        Header-eq (g p) (marked p) q p c (join (chunk d.size true) ds)
            (forward-below marked p (behind p c) (chunk d.size true) ds end m.1 (omega arith) top p
              (omega arith) (omega arith))
            (record {
              size = m.0.size;
              free = m.0.free;
              magic = m.0.magic;
              next = rw (link-join (behind p c) (chunk d.size true) ds) m.0.next;
              prev = m.0.prev;
            }),
        forward-Linked marked p (behind p c) (chunk d.size true) ds end m.1 (omega arith) top refl,
      )

  release-second : release (behind p c) p (c ∷ d ∷ ds) ≡ join c (join (chunk d.size true) ds)
  unfolding release
  release-second = rw (test_below p (behind p c) (omega arith), test_self (behind p c)) refl

  Freed-second : Freed f (behind p c) q p (c ∷ d ∷ ds) end
  Freed-second =
      let a = behind p c in
      let g = forward a marked in
      let (e, es, shape, free) = join-front (chunk d.size true) ds refl in
      let lg : Linked g q p (c ∷ e ∷ es) end =
        Linked-as g q p (c ∷ join (chunk d.size true) ds) (c ∷ e ∷ es) end
          (ap (λ (x : List Chunk). c ∷ x) shape) swept_forward in
      let store : swept a f ≡ backward a g = coalesce_blocks-phases a marked (omega arith) in
      let chunks : release a p (c ∷ d ∷ ds) ≡ join c (e ∷ es) =
        release-second ∙ ap (join c) shape in
      record {
        linked = rw chunks (
            Linked-eq (swept a f) (backward a g) q p (join c (e ∷ es)) end store
              (backward-Linked g q p c e es end lg pos top free));
        below = λ x z below.
            ap (λ (s : Blocks). s x) store
            ∙ backward-below g q p c e es end lg pos top x z below
            ∙ forward-below marked p a (chunk d.size true) ds end marked-Linked.1 (omega arith) top
                x z (omega arith)
            ∙ mark_free-below f a x (omega arith);
        magic = rw store (backward-magic g q p c e es end lg pos top free);
      }

-- The chunk is behind another one.
Freed-later :
    (f : Blocks) (a q p : ℕ) (c : Chunk) (cs : List Chunk) (end : ℕ) (e : Chunk)
    → Linked f q p (c ∷ cs) end
    → 0 < p
    → end ≤ 2 ^ 64
    → chunk_at a (behind p c) cs ≡ some e
    → Freed f a q p (c ∷ cs) end
Freed-later f a q p c [] end e l pos top found = absurd (cc)
Freed-later f a q p c (d ∷ ds) end e l pos top found = elim (Bool-cases (behind p c == a)) [
  | inl t ↦
      let at : behind p c ≡ a = ground arith in rw (← at) (Freed-second f q p c d ds end l pos top)
  | inr t ↦
      let later : chunk_at a (behind (behind p c) d) ds ≡ some e = ground arith in
      let far = chunk_at-le a (behind (behind p c) d) ds e later in
      let r = Freed-later f a p (behind p c) d ds end e l.1 (omega arith) top later in
      let ne : (p == a) ≡ false = test_below p a (omega arith) in
      let chunks : release a p (c ∷ d ∷ ds) ≡ c ∷ release a (behind p c) (d ∷ ds) =
        unfold release in rw (ne, t) refl in
      record {
        linked = rw chunks (
          Header-eq (swept a f p) (f p) q p c (release a (behind p c) (d ∷ ds))
              (r.below p (omega arith) (omega arith))
              (record {
                size = l.0.size;
                free = l.0.free;
                magic = l.0.magic;
                next = rw (link-release a (behind p c) (d ∷ ds)) l.0.next;
                prev = l.0.prev;
              }),
          r.linked,
        );
        below = λ x z below. r.below x z (omega arith);
        magic = r.magic;
      }
]

-- The chunk is the first of the heap.
Freed-first :
    (f : Blocks) (p : ℕ) (c : Chunk) (cs : List Chunk) (end : ℕ)
    → Linked f 0 p (c ∷ cs) end
    → 0 < p
    → end ≤ 2 ^ 64
    → Freed f p 0 p (c ∷ cs) end
Freed-first f p c cs end l pos top =
    let m = mark_free-Linked f 0 p c cs end l in
    let g = forward p (mark_free p f) in
    let lg = forward-Linked (mark_free p f) 0 p (chunk c.size true) cs end m pos top refl in
    let (e, es, shape, free) = join-front (chunk c.size true) cs refl in
    let lh : Linked g 0 p (e ∷ es) end =
      Linked-as g 0 p (join (chunk c.size true) cs) (e ∷ es) end shape lg in
    let still : backward p g ≡ g = unfold backward in rw lh.0.prev refl in
    let store : swept p f ≡ g = coalesce_blocks-phases p (mark_free p f) (omega arith) ∙ still in
    let self : (p == p) ≡ true = ground arith in
    let chunks : release p p (c ∷ cs) ≡ join (chunk c.size true) cs =
      unfold release in rw self refl in
    let magic : (g p).magic ≡ magic_free = ground (arith, lh.0.magic) in
    record {
      linked = rw chunks (Linked-eq (swept p f) g 0 p (join (chunk c.size true) cs) end store lg);
      below = λ x z below.
          ap (λ (s : Blocks). s x) store
          ∙ forward-below (mark_free p f) 0 p (chunk c.size true) cs end m pos top x z below
          ∙ mark_free-below f p x below;
      magic = rw (store, magic) (omega arith);
    }

pub Freed-at :
    (f : Blocks) (a p : ℕ) (cs : List Chunk) (end : ℕ) (e : Chunk)
    → Linked f 0 p cs end
    → 0 < p
    → end ≤ 2 ^ 64
    → chunk_at a p cs ≡ some e
    → Freed f a 0 p cs end
Freed-at f a p [] end e l pos top found = absurd (cc)
Freed-at f a p (c ∷ cs) end e l pos top found = elim (Bool-cases (p == a)) [
  | inl t ↦ let at : p ≡ a = ground arith in rw (← at) (Freed-first f p c cs end l pos top)
  | inr t ↦ Freed-later f a 0 p c cs end e l pos top (ground arith)
]
