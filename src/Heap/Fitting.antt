-- ===== src/Heap/Fitting.antt =====
-- `heap_malloc` takes the first chunk that fits.
use arm_os.Base.{
  ℕ, zero, suc, ◌-◌, ◌≤◌, ◌<◌, ◌^◌, ◌≡◌, refl, true, false, ◌&&◌, List, [], ◌∷◌, some, ltb, leb,
  ◌==◌, Bool-cases, inl, inr, arith, update, length,
}
use arm_os.Heap.Block.{HeapBlock, Blocks, magic_allocated, split_block, mark_allocated}
use arm_os.Heap.Malloc.{first_fit}
use arm_os.Heap.Chain.{
  Chunk, chunk, behind, link, Linked, chunk_at, update-ne, update_self, Header-eq, Linked-frame,
}
use arm_os.Heap.Splitting.{split_block-Linked}
use arm_os.Heap.Editing.{chunk_at-le}
use arm_os.Heap.Model.{take, fit}

pub mark_allocated-below : (f : Blocks) (p a : ℕ) → a < p → mark_allocated p f a ≡ f a
unfolding mark_allocated
mark_allocated-below f p a below = update-ne f p _ a (omega arith)

pub mark_allocated-Linked :
    (f : Blocks) (q p : ℕ) (c : Chunk) (cs : List Chunk) (end : ℕ)
    → Linked f q p (c ∷ cs) end
    → Linked (mark_allocated p f) q p (chunk c.size false ∷ cs) end
unfolding mark_allocated
mark_allocated-Linked f q p c cs end (h, l) =
    let b : HeapBlock = record (f p) { magic = magic_allocated; is_free = false } in
    (
      Header-eq (update f p b p) b q p (chunk c.size false) cs (update_self f p b)
          (record { size = h.size; free = refl; magic = refl; next = h.next; prev = h.prev }),
      Linked-frame f (update f p b) p (behind p c) cs end l
          (λ a x y. update-ne f p b a (omega arith)),
    )

-- The loop finds what the chunks say.
pub first_fit-eq :
    (k : ℕ) (f : Blocks) (q p n : ℕ) (cs : List Chunk) (end : ℕ)
    → Linked f q p cs end
    → 0 < p
    → length cs ≤ k
    → first_fit k (link p cs) n f ≡ fit n p cs
unfolding first_fit fit
first_fit-eq zero f q p n [] end l pos fuel = refl
first_fit-eq zero f q p n (c ∷ cs) end l pos fuel = absurd (omega arith)
first_fit-eq (suc k) f q p n [] end l pos fuel = refl
first_fit-eq (suc k) f q p n (c ∷ cs) end (h, l) pos fuel =
    let rest = first_fit-eq k f p (behind p c) n cs end l (omega arith) (omega arith) in
    let some_p : (p == 0) ≡ false = ground arith in rw (some_p, h.free, h.size, h.next, rest) refl

pub fit-chunk :
    (n a p : ℕ) (cs : List Chunk)
    → fit n p cs ≡ some a
    → (c : Chunk) × (chunk_at a p cs ≡ some c) × (c.free ≡ true) × (n ≤ c.size)
unfolding fit
fit-chunk n a p [] e = absurd (cc)
fit-chunk n a p (c ∷ cs) e = elim (Bool-cases (c.free && leb n c.size)) [
  | inl t ↦ (c, ground arith, ground arith, ground arith)
  | inr t ↦
      let (d, found, free, room) = fit-chunk n a (behind p c) cs (ground arith) in
      (d, ground (arith, chunk_at-le a (behind p c) cs d), free, room)
]

-- Taking `n` bytes of the free chunk at `a`.
module _ (f : Blocks) (a end n : ℕ) (c : Chunk) (pos : 0 < a) (top : end ≤ 2 ^ 64)
    (fits : n ≤ c.size) where
  pub take-Linked :
      (q : ℕ) (cs : List Chunk)
      → Linked f q a (c ∷ cs) end
      → Linked (mark_allocated a (split_block a n f)) q a (take n c cs) end
  take-Linked q cs l =
      let s = split_block-Linked f q a c cs end n l pos top fits in
      elim (Bool-cases (ltb (c.size - n) 64)) [
        | inl e ↦ rw e (mark_allocated-Linked (split_block a n f) q a c cs end (rw e at s))
        | inr e ↦ rw e (
            mark_allocated-Linked (split_block a n f) q a (chunk n c.free)
              (chunk (c.size - n - 32) true ∷ cs) end (rw e at s))
      ]
