-- ===== src/Heap/Merged.antt =====
-- Heaps in which no two free chunks lie side by side.
use arm_os.Base.{
  ℕ, ◌+◌, ◌-◌, ◌≤◌, ◌^◌, ◌≡◌, ◌≢◌, refl, ap, ◌∙◌, sym, Bool, true, false, ◌&&◌, List, [], ◌∷◌, some,
  ◌==◌, arith, tt, Unit, Result, ok, err, enomem, Bool-cases, Option-cases, inl, inr, ltb,
}
use arm_os.Heap.Block.{Heap}
use arm_os.Heap.Malloc.{heap_malloc, heap_free}
use arm_os.Heap.Chain.{Chunk, chunk, behind, chunk_at}
use arm_os.Heap.Editing.{edit, chunk_at-le}
use arm_os.Heap.Model.{
  take, fit, join, release, IsHeap, round16, take_first, take_first-none, take_first-some,
}
use arm_os.Heap.Fitting.{fit-chunk}
use arm_os.Heap.Taking.{taken, chunk_at-take, heap_malloc-take_first}
use arm_os.Heap.Freeing.{heap_free-release}

abbrev pub starts_free : List Chunk → Bool
starts_free [] = false
starts_free (c ∷ cs) = c.free

abbrev pub IsMerged : List Chunk → Type 0
IsMerged [] = Unit
IsMerged (c ∷ cs) = ((c.free && starts_free cs) ≡ false) × IsMerged cs

join-IsMerged : (c : Chunk) (cs : List Chunk) → IsMerged cs → IsMerged (join c cs)
join-IsMerged c [] m = ground arith
join-IsMerged c (d ∷ ds) m = ground arith

join_apart : (c : Chunk) (cs : List Chunk) → (c.free && starts_free cs) ≡ false → join c cs ≡ c ∷ cs
join_apart c [] m = refl
join_apart c (d ∷ ds) m = ground arith

starts_free-join : (c : Chunk) (cs : List Chunk) → starts_free (join c cs) ≡ c.free
starts_free-join c [] = refl
starts_free-join c (d ∷ ds) = ground arith

starts_free-release :
    (a p : ℕ) (cs : List Chunk) → (p == a) ≡ false → starts_free (release a p cs) ≡ starts_free cs
unfolding release
starts_free-release a p [] n = refl
starts_free-release a p (c ∷ cs) n = ground (arith, starts_free-join c (release a (behind p c) cs))

-- A release keeps free chunks apart.
pub release-IsMerged : (a p : ℕ) (cs : List Chunk) → IsMerged cs → IsMerged (release a p cs)
unfolding release
release-IsMerged a p [] m = m
release-IsMerged a p (c ∷ cs) m = ground (
  arith,
  join-IsMerged (chunk c.size true) cs,
  join-IsMerged c (release a (behind p c) cs),
  release-IsMerged a (behind p c) cs,
  starts_free-release a (behind p c) cs,
)

starts_free-take :
    (n a p : ℕ) (cs : List Chunk)
    → starts_free (edit a p (take n) cs) ≡ true
    → starts_free cs ≡ true
unfolding edit
starts_free-take n a p [] e = e
starts_free-take n a p (c ∷ cs) e = ground arith

take_front-IsMerged :
    (n : ℕ) (d : Chunk) (cs : List Chunk)
    → d.free ≡ true
    → IsMerged (d ∷ cs)
    → IsMerged (take n d cs)
take_front-IsMerged n d cs free m = elim (Bool-cases (ltb (d.size - n) 64)) [
  | inl e ↦ rw e (refl, m.1)
  | inr e ↦ rw e (refl, (ground (arith, m.0), m.1))
]

-- So does taking from a free chunk.
pub take-IsMerged :
    (n a p : ℕ) (cs : List Chunk) (c : Chunk)
    → chunk_at a p cs ≡ some c
    → c.free ≡ true
    → IsMerged cs
    → IsMerged (edit a p (take n) cs)
unfolding edit
take-IsMerged n a p [] c e free m = absurd (cc)
take-IsMerged n a p (d ∷ cs) c e free m = elim (Bool-cases (p == a)) [
  | inl t ↦ let same : d.free ≡ true = ground arith in rw t (take_front-IsMerged n d cs same m)
  | inr t ↦ rw t (
    ground (arith, starts_free-take n a (behind p d) cs, m.0),
    take-IsMerged n a (behind p d) cs c (ground arith) free m.1,
  )
]

-- A piece that was taken returns to where it was.
pub release-take :
    (n a p : ℕ) (cs : List Chunk) (c : Chunk)
    → chunk_at a p cs ≡ some c
    → c.free ≡ true
    → n ≤ c.size
    → IsMerged cs
    → release a p (edit a p (take n) cs) ≡ cs
unfolding edit release
release-take n a p [] c e free fits m = absurd (cc)
release-take n a p (d ∷ cs) c e free fits m = ground (
  arith,
  release-take n a (behind p d) cs c,
  join_apart (chunk d.size true) cs,
  join_apart d cs,
  chunk_at-le a (behind p d) cs c,
)

module _ (base total heap size : ℕ) (h : Heap) (cs : List Chunk) (is : IsHeap base total h cs)
    (live : heap ≢ 0) (apart : IsMerged cs) (some_size : size ≢ 0)
    (small : size ≤ 2 ^ 64 - 16) where
  -- On a heap that stands for chunks of which no two free ones are neighbours, freeing what
  -- `heap_malloc` has just answered succeeds, and leaves a heap that stands for the chunks from
  -- before the allocation.
  pub heap_free-heap_malloc :
      (ptr : ℕ)
      → (heap_malloc heap size 1 h).0 ≡ ok ptr
      → ((heap_free heap ptr (heap_malloc heap size 1 h).1).0 ≡ ok tt)
        × IsHeap base total (heap_free heap ptr (heap_malloc heap size 1 h).1).1 cs
  heap_free-heap_malloc ptr e =
      let n = round16 size in
      let g = (heap_malloc heap size 1 h).1 in
      let (answer, after) =
        heap_malloc-take_first base total heap size 1 h cs is live (omega arith) some_size small in
      elim (Option-cases (fit n (base + 48) cs)) [
        | inl none_fits ↦
            let refused : (take_first size (base + 48) cs).0 ≡ err enomem =
              ap (λ (x : Result ℕ × List Chunk). x.0)
                (take_first-none size (base + 48) cs none_fits) in
            absurd (ground (arith, sym e ∙ answer ∙ refused))
        | inr (a, fits_at) ↦
            let (c, found, free, fits) = fit-chunk n a (base + 48) cs fits_at in
            let ds = edit a (base + 48) (take n) cs in
            let got : take_first size (base + 48) cs ≡ (ok (a + 32), ds) =
              take_first-some size (base + 48) a cs fits_at in
            let place : ptr ≡ a + 32 =
              ground (arith, sym e ∙ answer ∙ ap (λ (x : Result ℕ × List Chunk). x.0) got) in
            let new : IsHeap base total g ds = rw got at after in
            let done =
              heap_free-release base total heap a g ds (taken n c) new live
                (chunk_at-take n a (base + 48) cs c found) refl in
            let back = release-take n a (base + 48) cs c found free fits apart in
            rw place (done.0, rw back at done.1)
      ]
