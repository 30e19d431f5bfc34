-- ===== src/Heap/Sweeping.antt =====
-- `coalesce_blocks` on a chunk that has become free: the phase forward, and the phase backward.
use arm_os.Base.{
  ℕ, ◌≤◌, ◌<◌, ◌^◌, ◌≡◌, ◌≢◌, refl, true, false, List, [], ◌∷◌, ◌==◌, if◌then◌else◌, Bool-cases,
  inl, inr, arith, update,
}
use arm_os.Heap.Block.{
  HeapBlock, Blocks, magic_allocated, magic_free, absorb, is_free_at, coalesce_blocks, mark_free,
}
use arm_os.Heap.Chain.{
  Chunk, chunk, behind, Linked, update-ne, update_self, Header-eq, Linked-eq, Linked-frame,
}
use arm_os.Heap.Absorbing.{merge, link_out-below, link_out-magic, link_out-Linked, absorb-link_out}
use arm_os.Heap.Model.{join}

pub mark_free-below : (f : Blocks) (p a : ℕ) → a < p → mark_free p f a ≡ f a
unfolding mark_free
mark_free-below f p a below = update-ne f p _ a (omega arith)

pub mark_free-Linked :
    (f : Blocks) (q p : ℕ) (c : Chunk) (cs : List Chunk) (end : ℕ)
    → Linked f q p (c ∷ cs) end
    → Linked (mark_free p f) q p (chunk c.size true ∷ cs) end
unfolding mark_free
mark_free-Linked f q p c cs end (h, l) =
    let b : HeapBlock = record (f p) { magic = magic_free; is_free = true } in
    (
      Header-eq (update f p b p) b q p (chunk c.size true) cs (update_self f p b)
          (record { size = h.size; free = refl; magic = refl; next = h.next; prev = h.prev }),
      Linked-frame f (update f p b) p (behind p c) cs end l
          (λ a x y. update-ne f p b a (omega arith)),
    )

-- The phase forward from `p`.
unfoldable pub forward : (p : ℕ) → Blocks → Blocks
forward p f = if is_free_at (f p).next f then absorb p (f p).next f else f

-- The phase backward from `p`.
unfoldable pub backward : (p : ℕ) → Blocks → Blocks
backward p f = if is_free_at (f p).prev f then absorb (f p).prev p f else f

pub coalesce_blocks-phases :
    (p : ℕ) (f : Blocks) → p ≢ 0 → coalesce_blocks p f ≡ backward p (forward p f)
unfolding coalesce_blocks forward backward
coalesce_blocks-phases p f n = let e : (p == 0) ≡ false = ground arith in rw e refl

module _ (f : Blocks) (q p : ℕ) (c d : Chunk) (ds : List Chunk) (end : ℕ)
    (l : Linked f q p (c ∷ d ∷ ds) end) (pos : 0 < p) (top : end ≤ 2 ^ 64) where
  forward-eq : forward p f ≡ (if d.free then absorb p (behind p c) f else f)
  unfolding forward
  forward-eq = let e : (behind p c == 0) ≡ false = ground arith in rw (l.0.next, e, l.1.0.free) refl

  backward-eq : backward (behind p c) f ≡ (if c.free then absorb p (behind p c) f else f)
  unfolding backward
  backward-eq = let e : (p == 0) ≡ false = ground arith in rw (l.1.0.prev, e, l.0.free) refl

  absorb-Linked : Linked (absorb p (behind p c) f) q p (merge c d ∷ ds) end
  absorb-Linked =
      Linked-eq (absorb p (behind p c) f) _ q p (merge c d ∷ ds) end
        (absorb-link_out f q p c d ds end l pos top) (link_out-Linked f q p c d ds end l pos)

  absorb-below : (a : ℕ) → a ≢ 0 → a < p → absorb p (behind p c) f a ≡ f a
  absorb-below a z below =
      rw (absorb-link_out f q p c d ds end l pos top)
        (link_out-below f q p c d ds end l pos a z below)

  forward_pair : c.free ≡ true → Linked (forward p f) q p (join c (d ∷ ds)) end
  forward_pair free = elim (Bool-cases d.free) [
    | inl e ↦
        let store : forward p f ≡ absorb p (behind p c) f = ground (arith, forward-eq) in
        let one : join c (d ∷ ds) ≡ merge c d ∷ ds = ground arith in rw (store, one) absorb-Linked
    | inr e ↦
        let store : forward p f ≡ f = ground (arith, forward-eq) in
        let two : join c (d ∷ ds) ≡ c ∷ d ∷ ds = ground arith in rw (store, two) l
  ]

  forward_pair_below : (a : ℕ) → a ≢ 0 → a < p → forward p f a ≡ f a
  forward_pair_below a z below = elim (Bool-cases d.free) [
    | inl e ↦ rw (forward-eq, e) (absorb-below a z below)
    | inr e ↦ rw (forward-eq, e) refl
  ]

  pub backward-Linked : d.free ≡ true → Linked (backward (behind p c) f) q p (join c (d ∷ ds)) end
  backward-Linked free = elim (Bool-cases c.free) [
    | inl e ↦
        let store : backward (behind p c) f ≡ absorb p (behind p c) f =
          ground (arith, backward-eq) in
        let one : join c (d ∷ ds) ≡ merge c d ∷ ds = ground arith in rw (store, one) absorb-Linked
    | inr e ↦
        let store : backward (behind p c) f ≡ f = ground (arith, backward-eq) in
        let two : join c (d ∷ ds) ≡ c ∷ d ∷ ds = ground arith in rw (store, two) l
  ]

  pub backward-below : (a : ℕ) → a ≢ 0 → a < p → backward (behind p c) f a ≡ f a
  backward-below a z below = elim (Bool-cases c.free) [
    | inl e ↦ rw (backward-eq, e) (absorb-below a z below)
    | inr e ↦ rw (backward-eq, e) refl
  ]

  -- Whether it is taken in or not, a free block does not carry the magic of one in use.
  pub backward-magic :
      d.free ≡ true → (backward (behind p c) f (behind p c)).magic ≢ magic_allocated
  backward-magic free = elim (Bool-cases c.free) [
    | inl e ↦
        let store : backward (behind p c) f ≡ absorb p (behind p c) f =
          ground (arith, backward-eq) in
        rw (store, absorb-link_out f q p c d ds end l pos top)
          (rw (link_out-magic f q p c d ds end l pos) (omega arith))
    | inr e ↦
        let store : backward (behind p c) f ≡ f = ground (arith, backward-eq) in
        let magic : (f (behind p c)).magic ≡ magic_free = ground (arith, l.1.0.magic) in
        rw (store, magic) (omega arith)
  ]

module _ (f : Blocks) (q p : ℕ) (c : Chunk) where
  pub forward-Linked :
      (cs : List Chunk) (end : ℕ)
      → Linked f q p (c ∷ cs) end
      → 0 < p
      → end ≤ 2 ^ 64
      → c.free ≡ true
      → Linked (forward p f) q p (join c cs) end
  unfolding forward
  forward-Linked [] end l pos top free = rw l.0.next l
  forward-Linked (d ∷ ds) end l pos top free = forward_pair f q p c d ds end l pos top free

  pub forward-below :
      (cs : List Chunk) (end : ℕ)
      → Linked f q p (c ∷ cs) end
      → 0 < p
      → end ≤ 2 ^ 64
      → (a : ℕ) → a ≢ 0
      → a < p
      → forward p f a ≡ f a
  unfolding forward
  forward-below [] end l pos top a z below = rw l.0.next refl
  forward-below (d ∷ ds) end l pos top a z below =
      forward_pair_below f q p c d ds end l pos top a z below
