-- ===== src/Heap/Chain.antt =====
-- What the blocks of a heap stand for: chunks that lie one behind the other, each free or taken.
use arm_os.Base.{
  ℕ, ◌+◌, ◌≤◌, ◌<◌, ◌≡◌, ◌≢◌, refl, Bool, List, [], ◌∷◌, Option, none, some, ◌==◌, if◌then◌else◌,
  arith, update,
}
use arm_os.Heap.Block.{HeapBlock, Blocks, magic_allocated, magic_free, relink}

-- A chunk: the bytes of its payload, and whether it is free.
pub record Chunk : Type 0 where
  pub size : ℕ
  pub free : Bool

abbrev pub chunk : ℕ → Bool → Chunk
chunk n b = record { size = n; free = b }

-- The address behind a chunk at `p`.
abbrev pub behind : ℕ → Chunk → ℕ
behind p c = p + (32 + c.size)

-- The link to the chunks at `p`: NULL where there are none.
abbrev pub link : ℕ → List Chunk → ℕ
link p [] = 0
link p (c ∷ cs) = p

-- The header of a chunk at `p`, between `q` and the chunks `cs`.
pub record Header (b : HeapBlock) (q p : ℕ) (c : Chunk) (cs : List Chunk) : Type 0 where
  pub size : b.size ≡ c.size
  pub free : b.is_free ≡ c.free
  pub magic : b.magic ≡ (if c.free then magic_free else magic_allocated)
  pub next : b.next ≡ link (behind p c) cs
  pub prev : b.prev ≡ q

-- From `p` on, behind the block `q`, the headers are those of the chunks, which end at `end`.
abbrev pub Linked : Blocks → (q p : ℕ) → List Chunk → (end : ℕ) → Type 0
Linked f q p [] end = p ≡ end
Linked f q p (c ∷ cs) end = Header (f p) q p c cs × Linked f p (behind p c) cs end

-- The chunk that lies at `a`.
abbrev pub chunk_at : (a p : ℕ) → List Chunk → Option Chunk
chunk_at a p [] = none
chunk_at a p (c ∷ cs) = let rest = chunk_at a (behind p c) cs in if p == a then some c else rest

-- A write to one header leaves the others.
pub update-ne : (f : Blocks) (p : ℕ) (b : HeapBlock) (a : ℕ) → a ≢ p → update f p b a ≡ f a
update-ne f p b a n = ground arith

pub update_self : (f : Blocks) (p : ℕ) (b : HeapBlock) → update f p b p ≡ b
update_self f p b = ground arith

pub relink-ne : (f : Blocks) (p r a : ℕ) → a ≢ p → relink p r f a ≡ f a
unfolding relink
relink-ne f p r a n = ground arith

pub relink_self : (f : Blocks) (p r : ℕ) → p ≢ 0 → relink p r f p ≡ record (f p) { prev = r }
unfolding relink
relink_self f p r n = ground arith

pub Linked-le : (f : Blocks) (q p : ℕ) (cs : List Chunk) (end : ℕ) → Linked f q p cs end → p ≤ end
Linked-le f q p [] end l = omega arith
Linked-le f q p (c ∷ cs) end (h, l) = omega (arith, Linked-le f p (behind p c) cs end l)

pub Header-eq :
    (a b : HeapBlock) (q p : ℕ) (c : Chunk) (cs : List Chunk)
    → a ≡ b
    → Header b q p c cs
    → Header a q p c cs
Header-eq a b q p c cs e h = rw e h

pub Linked-eq :
    (f g : Blocks) (q p : ℕ) (cs : List Chunk) (end : ℕ)
    → f ≡ g
    → Linked g q p cs end
    → Linked f q p cs end
Linked-eq f g q p cs end e l = rw e l

pub Linked-as :
    (f : Blocks) (q p : ℕ) (cs ds : List Chunk) (end : ℕ)
    → cs ≡ ds
    → Linked f q p cs end
    → Linked f q p ds end
Linked-as f q p cs ds end e l = rw (← e) l

-- Only the headers in the range count.
pub Linked-frame :
    (f g : Blocks) (q p : ℕ) (cs : List Chunk) (end : ℕ)
    → Linked f q p cs end
    → ((a : ℕ) → p ≤ a → a < end → g a ≡ f a)
    → Linked g q p cs end
Linked-frame f g q p [] end l same = l
Linked-frame f g q p (c ∷ cs) end (h, l) same = (
  Header-eq (g p) (f p) q p c cs
      (same p (omega arith) (omega (arith, Linked-le f p (behind p c) cs end l))) h,
  Linked-frame f g p (behind p c) cs end l (λ a m n. same a (omega arith) n),
)

-- The first chunk may get another block in front of it.
pub Linked-relink :
    (f : Blocks) (q r p : ℕ) (cs : List Chunk) (end : ℕ)
    → p ≢ 0
    → Linked f q p cs end
    → Linked (relink (link p cs) r f) r p cs end
Linked-relink f q r p [] end n l = l
Linked-relink f q r p (c ∷ cs) end n (h, l) = (
  Header-eq (relink p r f p) (record (f p) { prev = r }) r p c cs (relink_self f p r n)
      (record { size = h.size; free = h.free; magic = h.magic; next = h.next; prev = refl }),
  Linked-frame f (relink p r f) p (behind p c) cs end l (λ a m k. relink-ne f p r a (omega arith)),
)

pub relink-below :
    (f : Blocks) (r p : ℕ) (cs : List Chunk) (a : ℕ)
    → a ≢ 0
    → a < p
    → relink (link p cs) r f a ≡ f a
unfolding relink
relink-below f r p [] a z m = refl
relink-below f r p (c ∷ cs) a z m = relink-ne f p r a (omega arith)
