-- ===== src/Heap/Model.antt =====
-- What a heap promises: a list of chunks from which pieces are taken and to which they return.
use arm_os.Base.{
  ℕ, ◌+◌, ◌-◌, ◌*◌, ◌/◌, ◌≤◌, ◌^◌, ◌≡◌, refl, true, false, ◌&&◌, List, [], ◌∷◌, Option, none, some,
  ltb, leb, ◌==◌, if◌then◌else◌, Result, ok, err, enomem, arith, length,
}
use arm_os.Heap.Block.{Blocks, Heap}
use arm_os.Heap.Chain.{Chunk, chunk, behind, link, Linked}
use arm_os.Heap.Editing.{edit}
use arm_os.Heap.Absorbing.{merge}

-- `n` bytes of a free chunk are taken; what is left is a free chunk where it is large enough.
abbrev pub take : ℕ → Chunk → List Chunk → List Chunk
take n c cs =
    if ltb (c.size - n) 64
    then chunk c.size false ∷ cs
    else chunk n false ∷ chunk (c.size - n - 32) true ∷ cs

-- The address of the first free chunk of `n` bytes.
unfoldable pub fit : (n p : ℕ) → List Chunk → Option ℕ
fit n p [] = none
fit n p (c ∷ cs) =
    let rest = fit n (behind p c) cs in if c.free && leb n c.size then some p else rest

-- A free chunk takes in the one behind it if that is free.
abbrev pub join : Chunk → List Chunk → List Chunk
join c [] = c ∷ []
join c (d ∷ ds) = if c.free && d.free then merge c d ∷ ds else c ∷ d ∷ ds

-- The chunk at `a` becomes free, and one with the free chunks beside it.
unfoldable pub release : (a p : ℕ) → List Chunk → List Chunk
release a p [] = []
release a p (c ∷ cs) =
    let rest = release a (behind p c) cs in
    if p == a
    then join (chunk c.size true) cs
    else if behind p c == a
    then join c rest
    else c ∷ rest

-- The bytes of the chunks in use, with their headers.
unfoldable pub taken_bytes : List Chunk → ℕ
taken_bytes [] = 0
taken_bytes (c ∷ cs) = (if c.free then 0 else 32 + c.size) + taken_bytes cs

-- The heap `h` on the `total` bytes at `base` stands for the chunks `cs`, and its counter is right.
pub record IsHeap (base total : ℕ) (h : Heap) (cs : List Chunk) : Type 0 where
  pub starts : h.context.vaddr_base ≡ base
  pub ends : h.context.total_size ≡ total
  pub first : h.context.head ≡ link (base + 48) cs
  pub top : base + total ≤ 2 ^ 64
  pub linked : Linked h.blocks 0 (base + 48) cs (base + total)
  pub counted : h.context.used_size ≡ taken_bytes cs

-- The multiple of 16 that holds `n` bytes.
abbrev pub round16 : ℕ → ℕ
round16 n = (n + 15) / 16 * 16

-- An allocation as the chunks see it: first fit.
unfoldable pub take_first : (size p : ℕ) → List Chunk → Result ℕ × List Chunk
unfolding fit edit
take_first size p cs = elim (fit (round16 size) p cs) [
  | none ↦ (err enomem, cs)
  | some a ↦ (ok (a + 32), edit a p (take (round16 size)) cs)
]

pub take_first-none :
    (size p : ℕ) (cs : List Chunk)
    → fit (round16 size) p cs ≡ none
    → take_first size p cs ≡ (err enomem, cs)
unfolding take_first
take_first-none size p cs e = rw (e, take_first) refl

pub take_first-some :
    (size p a : ℕ) (cs : List Chunk)
    → fit (round16 size) p cs ≡ some a
    → take_first size p cs ≡ (ok (a + 32), edit a p (take (round16 size)) cs)
unfolding take_first
take_first-some size p a cs e = rw (e, take_first) refl

pub length-le :
    (f : Blocks) (q p : ℕ) (cs : List Chunk) (end : ℕ)
    → Linked f q p cs end
    → p + 32 * length cs ≤ end
length-le f q p [] end l = omega arith
length-le f q p (c ∷ cs) end (h, l) = omega (arith, length-le f p (behind p c) cs end l)

-- The bytes in use lie within the region.
pub taken_bytes-le :
    (f : Blocks) (q p : ℕ) (cs : List Chunk) (end : ℕ)
    → Linked f q p cs end
    → p + taken_bytes cs ≤ end
unfolding taken_bytes
taken_bytes-le f q p [] end l = omega arith
taken_bytes-le f q p (c ∷ cs) end (h, l) = ground (arith, taken_bytes-le f p (behind p c) cs end l)
