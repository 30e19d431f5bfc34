-- ===== src/Heap/Splitting.antt =====
-- `split_block` on a chunk of a heap.
use arm_os.Base.{
  ℕ, ◌+◌, ◌-◌, ◌≤◌, ◌<◌, ◌^◌, ◌≡◌, ◌≢◌, refl, ap, ◌∙◌, true, List, ◌∷◌, ltb, if◌then◌else◌,
  Bool-cases, inl, inr, arith, add64, sub64, update,
}
use arm_os.Heap.Block.{HeapBlock, Blocks, magic_free, relink, link_in, split_block}
use arm_os.Heap.Chain.{
  Chunk, chunk, behind, link, Linked, update-ne, update_self, relink-below, Linked-le, Header-eq,
  Linked-frame, Linked-relink,
}

-- The chunk cut to `n` bytes, with the rest free behind it where there is room for a block.
abbrev pub carve : ℕ → Chunk → List Chunk → List Chunk
carve n c cs =
    if ltb (c.size - n) 64 then c ∷ cs else chunk n c.free ∷ chunk (c.size - n - 32) true ∷ cs

-- A chunk in two, and the headers below it as they were.
module _ (f : Blocks) (q p : ℕ) (c : Chunk) (cs : List Chunk) (end n m : ℕ)
    (l : Linked f q p (c ∷ cs) end) (pos : 0 < p) (whole : n + (32 + m) ≡ c.size) where
  abbrev fresh : HeapBlock
  fresh = record {
    magic = magic_free;
    is_free = true;
    size = m;
    next = link (behind p c) cs;
    prev = p;
  }

  abbrev entered : Blocks
  entered = update f (p + (32 + n)) fresh

  abbrev linked : Blocks
  linked = relink (link (behind p c) cs) (p + (32 + n)) entered

  abbrev halves : Blocks
  halves = link_in p (p + (32 + n)) n m (link (behind p c) cs) f

  halves-ne : (a : ℕ) → a ≢ p → halves a ≡ linked a
  unfolding link_in
  halves-ne a ne = update-ne linked p _ a ne

  linked-below : (a : ℕ) → a ≢ 0 → a ≢ p + (32 + n) → a < behind p c → linked a ≡ f a
  linked-below a z ne below =
      relink-below entered (p + (32 + n)) (behind p c) cs a z below
      ∙ update-ne f (p + (32 + n)) fresh a ne

  pub link_in-below : (a : ℕ) → a ≢ 0 → a < p → halves a ≡ f a
  link_in-below a z below = halves-ne a (omega arith) ∙ linked-below a z (omega arith) (omega arith)

  halves_front : halves p ≡ record (f p) { next = p + (32 + n); size = n }
  unfolding link_in
  halves_front =
      update_self linked p _
      ∙ ap (λ (x : HeapBlock). record x { next = p + (32 + n); size = n })
          (linked-below p (omega arith) (omega arith) (omega arith))

  halves_back : halves (p + (32 + n)) ≡ fresh
  halves_back =
      halves-ne (p + (32 + n)) (omega arith)
      ∙ relink-below entered (p + (32 + n)) (behind p c) cs (p + (32 + n)) (omega arith)
          (omega arith)
      ∙ update_self f (p + (32 + n)) fresh

  pub link_in-Linked : Linked halves q p (chunk n c.free ∷ chunk m true ∷ cs) end
  link_in-Linked =
      let t = p + (32 + n) in
      let e : behind t (chunk m true) ≡ behind p c = omega arith in
      let rest : Linked linked t (behind p c) cs end =
        Linked-relink entered p t (behind p c) cs end (omega arith) (
          Linked-frame f entered p (behind p c) cs end l.1
            (λ a x y. update-ne f t fresh a (omega arith))) in
      (
        Header-eq (halves p) (record (f p) { next = t; size = n }) q p (chunk n c.free)
            (chunk m true ∷ cs) halves_front
            (record {
              size = refl;
              free = l.0.free;
              magic = l.0.magic;
              next = refl;
              prev = l.0.prev;
            }),
        (
          Header-eq (halves t) fresh p t (chunk m true) cs halves_back
              (record { size = refl; free = refl; magic = refl; next = rw e refl; prev = refl }),
          rw e (
              Linked-frame linked halves t (behind p c) cs end rest
                (λ a x y. halves-ne a (omega arith))),
        ),
      )

module _ (f : Blocks) (q p : ℕ) (c : Chunk) (cs : List Chunk) (end n : ℕ)
    (l : Linked f q p (c ∷ cs) end) (pos : 0 < p) (top : end ≤ 2 ^ 64) (fits : n ≤ c.size) where
  abbrev split : Blocks
  split = link_in p (p + (32 + n)) n (c.size - n - 32) (link (behind p c) cs) f

  pub split_block-eq : split_block p n f ≡ (if ltb (c.size - n) 64 then f else split)
  unfolding split_block
  split_block-eq =
      let bound = Linked-le f p (behind p c) cs end l.1 in
      let e2 : sub64 (f p).size n ≡ c.size - n = omega (arith, l.0.size) in
      elim (Bool-cases (ltb (c.size - n) 64)) [
        | inl e ↦ rw (e2, e) refl
        | inr e ↦
            let e1 : add64 (add64 p 32) n ≡ p + (32 + n) = ground arith in
            let e3 : sub64 (c.size - n) 32 ≡ c.size - n - 32 = ground arith in
            rw (e2, e, e1, e3, l.0.next) refl
      ]

  pub split_block-below : (a : ℕ) → a ≢ 0 → a < p → split_block p n f a ≡ f a
  split_block-below a z below = elim (Bool-cases (ltb (c.size - n) 64)) [
    | inl e ↦ rw (split_block-eq, e) refl
    | inr e ↦
        rw (split_block-eq, e)
          (link_in-below f q p c cs end n (c.size - n - 32) l pos (ground arith) a z below)
  ]

  pub split_block-Linked : Linked (split_block p n f) q p (carve n c cs) end
  split_block-Linked = elim (Bool-cases (ltb (c.size - n) 64)) [
    | inl e ↦ rw (split_block-eq, e) l
    | inr e ↦
        rw (split_block-eq, e)
          (link_in-Linked f q p c cs end n (c.size - n - 32) l pos (ground arith))
  ]
