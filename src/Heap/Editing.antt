-- ===== src/Heap/Editing.antt =====
-- Changes of a heap at one chunk, found by its address.
use arm_os.Base.{
  ℕ, ◌≤◌, ◌<◌, ◌≡◌, ◌≢◌, refl, List, [], ◌∷◌, some, ◌==◌, if◌then◌else◌, Bool-cases, inl, inr,
  arith,
}
use arm_os.Heap.Block.{Blocks}
use arm_os.Heap.Chain.{Chunk, behind, link, Linked, chunk_at, Header-eq}

-- The chunks with those from address `a` on changed by `k`.
unfoldable pub edit : (a p : ℕ) → (Chunk → List Chunk → List Chunk) → List Chunk → List Chunk
edit a p k [] = []
edit a p k (c ∷ cs) = let rest = c ∷ edit a (behind p c) k cs in if p == a then k c cs else rest

pub chunk_at-le : (a p : ℕ) (cs : List Chunk) (c : Chunk) → chunk_at a p cs ≡ some c → p ≤ a
chunk_at-le a p [] c e = cc
chunk_at-le a p (d ∷ cs) c e = ground (arith, chunk_at-le a (behind p d) cs c)

pub chunk_at-header :
    (f : Blocks) (a q p : ℕ) (cs : List Chunk) (end : ℕ) (c : Chunk)
    → Linked f q p cs end
    → chunk_at a p cs ≡ some c
    → ((f a).size ≡ c.size) × ((f a).is_free ≡ c.free)
chunk_at-header f a q p [] end c l e = cc
chunk_at-header f a q p (d ∷ cs) end c (h, l) e =
    ground (arith, h.size, h.free, chunk_at-header f a p (behind p d) cs end c l)

pub Linked-at :
    (f : Blocks) (a q p : ℕ) (cs : List Chunk) (end : ℕ) (c : Chunk)
    → Linked f q p cs end
    → chunk_at a p cs ≡ some c
    → (r : ℕ) × (ds : List Chunk) × Linked f r a (c ∷ ds) end
Linked-at f a q p [] end c l e = absurd (cc)
Linked-at f a q p (d ∷ cs) end c l e = elim (Bool-cases (p == a)) [
  | inl t ↦
      let same : d ≡ c = ground arith in
      let at : p ≡ a = ground arith in (q, cs, rw (← at, ← same) l)
  | inr t ↦ Linked-at f a p (behind p d) cs end c l.1 (ground arith)
]

module _ (a : ℕ) (c : Chunk) (k : Chunk → List Chunk → List Chunk)
    (first : (cs : List Chunk) → link a (k c cs) ≡ a) where
  pub link-edit :
      (p : ℕ) (cs : List Chunk) → chunk_at a p cs ≡ some c → link p (edit a p k cs) ≡ link p cs
  unfolding edit
  link-edit p [] e = refl
  link-edit p (d ∷ cs) e = elim (Bool-cases (p == a)) [
    | inl t ↦
        let same : d ≡ c = ground arith in
        let at : p ≡ a = ground arith in rw (t, same, at, first cs) refl
    | inr t ↦ rw t refl
  ]

-- A step at the chunk `c` at `a` which leaves the headers below alone.
module _ (f g : Blocks) (a end : ℕ) (c : Chunk) (k : Chunk → List Chunk → List Chunk)
    (local : (q : ℕ) (cs : List Chunk) → Linked f q a (c ∷ cs) end → Linked g q a (k c cs) end)
    (first : (cs : List Chunk) → link a (k c cs) ≡ a)
    (below : (x : ℕ) → x ≢ 0 → x < a → g x ≡ f x) where
  pub edit-Linked :
      (q p : ℕ) (cs : List Chunk)
      → 0 < p
      → chunk_at a p cs ≡ some c
      → Linked f q p cs end
      → Linked g q p (edit a p k cs) end
  unfolding edit
  edit-Linked q p [] pos e l = cc
  edit-Linked q p (d ∷ cs) pos e l = elim (Bool-cases (p == a)) [
    | inl t ↦
        let same : d ≡ c = ground arith in
        let at : p ≡ a = ground arith in
        let here : Linked f q a (c ∷ cs) end = rw (← at, ← same) l in
        rw (t, at) (rw same (local q cs here))
    | inr t ↦
        let later : chunk_at a (behind p d) cs ≡ some c = ground arith in
        let beyond : p < a = omega (arith, chunk_at-le a (behind p d) cs c later) in
        rw t (
          Header-eq (g p) (f p) q p d (edit a (behind p d) k cs) (below p (omega arith) beyond)
              (record {
                size = l.0.size;
                free = l.0.free;
                magic = l.0.magic;
                next = rw (link-edit a c k first (behind p d) cs later) l.0.next;
                prev = l.0.prev;
              }),
          edit-Linked p (behind p d) cs (omega arith) later l.1,
        )
  ]
