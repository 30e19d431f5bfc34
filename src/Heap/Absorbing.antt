-- ===== src/Heap/Absorbing.antt =====
-- `absorb` on a chunk of a heap and the one behind it.
use arm_os.Base.{ℕ, ◌+◌, ◌≤◌, ◌<◌, ◌^◌, ◌≡◌, ◌≢◌, refl, ap, ◌∙◌, List, ◌∷◌, arith, add64, update}
use arm_os.Heap.Block.{HeapBlock, Blocks, relink, link_out, absorb}
use arm_os.Heap.Chain.{
  Chunk, chunk, behind, link, Linked, update-ne, update_self, relink-below, Linked-le, Header-eq,
  Linked-frame, Linked-relink,
}

-- A chunk that takes in the one behind it.
abbrev pub merge : Chunk → Chunk → Chunk
merge c d = chunk (c.size + (32 + d.size)) c.free

module _ (f : Blocks) (q p : ℕ) (c d : Chunk) (ds : List Chunk) (end : ℕ)
    (l : Linked f q p (c ∷ d ∷ ds) end) (pos : 0 < p) where
  abbrev whole : ℕ
  whole = c.size + (32 + d.size)

  abbrev past : ℕ
  past = link (behind (behind p c) d) ds

  abbrev grown : Blocks
  grown = update f p (record (f p) { size = whole; next = past })

  abbrev closed : Blocks
  closed = relink past p grown

  abbrev joined : Blocks
  joined = link_out p (behind p c) whole past f

  joined-ne : (a : ℕ) → a ≢ behind p c → joined a ≡ closed a
  unfolding link_out
  joined-ne a ne = update-ne closed (behind p c) _ a ne

  closed-below : (a : ℕ) → a ≢ 0 → a < behind (behind p c) d → closed a ≡ grown a
  closed-below a z below = relink-below grown p (behind (behind p c) d) ds a z below

  pub link_out-below : (a : ℕ) → a ≢ 0 → a < p → joined a ≡ f a
  link_out-below a z below =
      joined-ne a (omega arith)
      ∙ closed-below a z (omega arith)
      ∙ update-ne f p (record (f p) { size = whole; next = past }) a (omega arith)

  pub link_out-magic : (joined (behind p c)).magic ≡ 0
  unfolding link_out
  link_out-magic = ap (λ (b : HeapBlock). b.magic) (update_self closed (behind p c) _)

  pub link_out-Linked : Linked joined q p (merge c d ∷ ds) end
  link_out-Linked =
      let b : HeapBlock = record (f p) { size = whole; next = past } in
      let e : behind p (merge c d) ≡ behind (behind p c) d = omega arith in
      let rest : Linked closed p (behind (behind p c) d) ds end =
        Linked-relink grown (behind p c) p (behind (behind p c) d) ds end (omega arith) (
          Linked-frame f grown (behind p c) (behind (behind p c) d) ds end l.1.1
            (λ a x y. update-ne f p b a (omega arith))) in
      (
        Header-eq (joined p) b q p (merge c d) ds
            (joined-ne p (omega arith)
              ∙ closed-below p (omega arith) (omega arith)
              ∙ update_self f p b)
            (record {
              size = refl;
              free = l.0.free;
              magic = l.0.magic;
              next = rw e refl;
              prev = l.0.prev;
            }),
        rw e (
            Linked-frame closed joined p (behind (behind p c) d) ds end rest
              (λ a x y. joined-ne a (omega arith))),
      )

  pub absorb-link_out : end ≤ 2 ^ 64 → absorb p (behind p c) f ≡ joined
  unfolding absorb
  absorb-link_out top =
      let fits = Linked-le f (behind p c) (behind (behind p c) d) ds end l.1.1 in
      let e : add64 (f p).size (add64 32 (f (behind p c)).size) ≡ whole =
        omega (arith, l.0.size, l.1.0.size) in
      rw (e, l.1.0.next) refl
