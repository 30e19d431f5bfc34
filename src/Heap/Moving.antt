-- ===== src/Heap/Moving.antt =====
-- `heap_realloc` to another place: Path Gamma.
use arm_os.Base.{
  ℕ, ◌+◌, ◌-◌, ◌≤◌, ◌<◌, ◌^◌, ◌≡◌, ◌≢◌, refl, ap, ◌∙◌, sym, true, false, ◌&&◌, List, [], ◌∷◌, some,
  ltb, leb, ◌==◌, Bool-cases, Option-cases, inl, inr, arith, add64, Result, ok, err, enomem, Unit,
}
use arm_os.Heap.Block.{Heap}
use arm_os.Heap.Malloc.{heap_free, give_block, take_block}
use arm_os.Heap.Realloc.{copy_bytes, move_into, migrate}
use arm_os.Heap.Chain.{Chunk, behind, chunk_at}
use arm_os.Heap.Editing.{edit, chunk_at-le, chunk_at-header}
use arm_os.Heap.Model.{
  take, fit, release, IsHeap, round16, take_first, take_first-none, take_first-some,
}
use arm_os.Heap.Fitting.{fit-chunk}
use arm_os.Heap.Taking.{take_block-IsHeap, taken_fits, malloc_none, malloc_some}
use arm_os.Heap.Freeing.{heap_free-release, heap_free-step}

chunk_at-take_front :
    (n a p : ℕ) (c d : Chunk) (cs : List Chunk)
    → n ≤ d.size
    → behind p d ≤ a
    → chunk_at a (behind p d) cs ≡ some c
    → chunk_at a p (take n d cs) ≡ some c
chunk_at-take_front n a p c d cs fits far e = elim (Bool-cases (ltb (d.size - n) 64)) [
  | inl t ↦ let miss : (p == a) ≡ false = ground arith in rw (t, miss) e
  | inr t ↦
      let miss : (p == a) ≡ false = ground arith in
      let miss_rest : (p + (32 + n) == a) ≡ false = ground arith in
      let same : p + (32 + n) + (32 + (d.size - n - 32)) ≡ behind p d = ground arith in
      rw (t, miss, miss_rest, same) e
]

-- Taking a chunk leaves the others.
pub chunk_at-take_other :
    (n a b p : ℕ) (cs : List Chunk) (c d : Chunk)
    → a ≢ b
    → n ≤ d.size
    → chunk_at b p cs ≡ some d
    → chunk_at a p cs ≡ some c
    → chunk_at a p (edit b p (take n) cs) ≡ some c
unfolding edit
chunk_at-take_other n a b p [] c d ne fits eb ea = ea
chunk_at-take_other n a b p (e ∷ cs) c d ne fits eb ea = elim (Bool-cases (p == b)) [
  | inl t ↦
      let same : e ≡ d = ground arith in
      let later : chunk_at a (behind p e) cs ≡ some c = ground arith in
      rw t (
        chunk_at-take_front n a p c e cs (rw same fits) (chunk_at-le a (behind p e) cs c later)
          later)
  | inr t ↦
      let rest = chunk_at-take_other n a b (behind p e) cs c d ne fits in
      rw t (ground (arith, rest))
]

-- The old chunk returns once the new one is taken.
then_release : (a p : ℕ) → List Chunk → Result ℕ × List Chunk → Result ℕ × List Chunk
then_release a p cs (err e, ds) = (err e, cs)
then_release a p cs (ok q, ds) = (ok q, release a p ds)

-- A move as the chunks see it: the new chunk is taken first, and then the old one returns.
unfoldable pub move_chunk : (size a p : ℕ) → List Chunk → Result ℕ × List Chunk
unfolding then_release
move_chunk size a p cs = then_release a p cs (take_first size p cs)

give_block-bytes : (a : ℕ) (h : Heap) → (give_block a h).bytes ≡ h.bytes
unfolding give_block
give_block-bytes a h = refl

take_block-bytes : (a n : ℕ) (h : Heap) → (take_block a n h).bytes ≡ h.bytes
unfolding take_block
take_block-bytes a n h = refl

copied_byte : (dst src n i : ℕ) (m : ℕ → ℕ) → i < n → copy_bytes dst src n m (dst + i) ≡ m (src + i)
copied_byte dst src n i m h =
    let inside : (leb dst (dst + i) && ltb (dst + i) (dst + n)) ≡ true = ground arith in
    let same : dst + i - dst + src ≡ src + i = omega arith in rw (inside, same) refl

module _ (base total heap a new_size : ℕ) (h : Heap) (cs : List Chunk) (c : Chunk)
    (is : IsHeap base total h cs) (live : heap ≢ 0) (some_size : new_size ≢ 0)
    (small : new_size ≤ 2 ^ 64 - 16) (found : chunk_at a (base + 48) cs ≡ some c)
    (used : c.free ≡ false) where
  -- The new block at `b` is taken, and the bytes are copied.
  abbrev moved : ℕ → Heap
  moved b =
      let g = take_block b (round16 new_size) h in
      record g { bytes = copy_bytes (b + 32) (a + 32) (g.blocks a).size g.bytes }

  module _ (b : ℕ) (fits_at : fit (round16 new_size) (base + 48) cs ≡ some b) where
    after_take :
        IsHeap base total
          (take_block b (round16 new_size) h)
          (edit b (base + 48) (take (round16 new_size)) cs)
    after_take =
        let (d, at_b, free, fits) = fit-chunk (round16 new_size) b (base + 48) cs fits_at in
        take_block-IsHeap base total (round16 new_size) b h cs d is at_b fits free

    still_there : chunk_at a (base + 48) (edit b (base + 48) (take (round16 new_size)) cs) ≡ some c
    still_there =
        let (d, at_b, free, fits) = fit-chunk (round16 new_size) b (base + 48) cs fits_at in
        let apart : a ≢ b = λ e. cc (rw e at found) in
        chunk_at-take_other (round16 new_size) a b (base + 48) cs c d apart fits at_b found

    after_copy : IsHeap base total (moved b) (edit b (base + 48) (take (round16 new_size)) cs)
    after_copy = record {
      starts = after_take.starts;
      ends = after_take.ends;
      first = after_take.first;
      top = after_take.top;
      linked = after_take.linked;
      counted = after_take.counted;
    }

    migrate-step :
        migrate heap (a + 32) a new_size h ≡ (ok (b + 32), (heap_free heap (a + 32) (moved b)).1)
    unfolding migrate move_into
    migrate-step =
        let (d, at_b, free, fits) = fit-chunk (round16 new_size) b (base + 48) cs fits_at in
        let inside = taken_fits base total (round16 new_size) b h cs d is at_b fits in
        let sum : add64 b 32 ≡ b + 32 = omega (arith, is.top) in
        let got =
          malloc_some base total heap new_size 1 h cs is live (omega arith) some_size small b
            fits_at sum in
        ap (move_into heap (a + 32) a) got

    -- A run of Path Gamma that finds room.
    moved_all :
        ((migrate heap (a + 32) a new_size h).0 ≡ ok (b + 32))
        × IsHeap base total
            (migrate heap (a + 32) a new_size h).1
            (release a (base + 48) (edit b (base + 48) (take (round16 new_size)) cs))
        × ((i : ℕ)
            → i < c.size
            → (migrate heap (a + 32) a new_size h).1.bytes (b + 32 + i) ≡ h.bytes (a + 32 + i))
    moved_all =
        let n = round16 new_size in
        let ds = edit b (base + 48) (take n) cs in
        let size =
          (chunk_at-header (take_block b n h).blocks a 0 (base + 48) ds (base + total) c
            after_take.linked still_there).0 in
        let freed =
          heap_free-release base total heap a (moved b) ds c after_copy live still_there used in
        let step =
          migrate-step
          ∙ ap (λ (x : Result (Unit {0}) × Heap). (ok (b + 32), x.1))
              (heap_free-step base total heap a (moved b) ds c after_copy live still_there used) in
        (
          ap (λ (x : Result ℕ × Heap). x.0) migrate-step,
          rw migrate-step freed.1,
          λ i inside.
              ap (λ (x : Result ℕ × Heap). x.1.bytes (b + 32 + i)) step
              ∙ ap (λ (m : ℕ → ℕ). m (b + 32 + i)) (give_block-bytes a (moved b))
              ∙ copied_byte (b + 32) (a + 32) ((take_block b n h).blocks a).size i
                  (take_block b n h).bytes (rw size inside)
              ∙ ap (λ (m : ℕ → ℕ). m (a + 32 + i)) (take_block-bytes b n h),
        )

  -- On a heap that stands for the chunks `cs`, Path Gamma of `heap_realloc` for a chunk in use and
  -- a size from 1 to 2 ^ 64 - 16 bytes answers what first fit answers, an address or ENOMEM. With
  -- an address it leaves a heap that stands for the chunks with the new one taken and the old one
  -- released, its counter equal to the bytes in use, and the new payload begins with the bytes of
  -- the old one; with ENOMEM it leaves the chunks as they were.
  pub migrate-move_chunk :
      ((migrate heap (a + 32) a new_size h).0 ≡ (move_chunk new_size a (base + 48) cs).0)
      × IsHeap base total
          (migrate heap (a + 32) a new_size h).1
          (move_chunk new_size a (base + 48) cs).1
      × ((q i : ℕ)
          → (migrate heap (a + 32) a new_size h).0 ≡ ok q
          → i < c.size
          → (migrate heap (a + 32) a new_size h).1.bytes (q + i) ≡ h.bytes (a + 32 + i))
  unfolding move_chunk move_into
  migrate-move_chunk = elim (Option-cases (fit (round16 new_size) (base + 48) cs)) [
    | inl e ↦
        let none_left =
          malloc_none base total heap new_size 1 h cs is live (omega arith) some_size small e in
        let refused : migrate heap (a + 32) a new_size h ≡ (err enomem, h) =
          unfold migrate in ap (move_into heap (a + 32) a) none_left in
        let spec : move_chunk new_size a (base + 48) cs ≡ (err enomem, cs) =
          ap (then_release a (base + 48) cs) (take_first-none new_size (base + 48) cs e) in
        rw (refused, spec) (refl, is, λ q i got. absurd (cc))
    | inr (b, e) ↦
        let (answer, left, bytes) = moved_all b e in
        let n = round16 new_size in
        let spec : move_chunk new_size a (base + 48) cs
            ≡ (ok (b + 32), release a (base + 48) (edit b (base + 48) (take n) cs)) =
          ap (then_release a (base + 48) cs) (take_first-some new_size (base + 48) b cs e) in
        rw spec (
          answer,
          left,
          λ q i got inside.
              let place : b + 32 ≡ q = ground (arith, sym answer ∙ got) in
              rw (← place) (bytes i inside),
        )
  ]
