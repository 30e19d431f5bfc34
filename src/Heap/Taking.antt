-- ===== src/Heap/Taking.antt =====
-- `heap_malloc` takes the first chunk that fits, and the counter follows.
use arm_os.Base.{
  ℕ, ◌+◌, ◌-◌, ◌≤◌, ◌<◌, ◌^◌, ◌≡◌, ◌≢◌, refl, ap, ◌∙◌, sym, true, false, ◌||◌, List, [], ◌∷◌, none,
  some, ltb, leb, ◌==◌, if◌then◌else◌, Option-cases, inl, inr, arith, add64, length, ok, err,
  enomem, test_self,
}
use arm_os.Heap.Block.{Heap, heap_align, split_block, mark_allocated}
use arm_os.Heap.Malloc.{first_fit, most_blocks, take_block, heap_malloc}
use arm_os.Heap.Chain.{Chunk, chunk, behind, link, Linked, chunk_at, Linked-le}
use arm_os.Heap.Splitting.{split_block-below}
use arm_os.Heap.Editing.{edit, chunk_at-le, link-edit, Linked-at, edit-Linked, chunk_at-header}
use arm_os.Heap.Model.{
  take, fit, taken_bytes, round16, IsHeap, take_first, length-le, taken_bytes-le,
}
use arm_os.Heap.Fitting.{mark_allocated-below, first_fit-eq, fit-chunk, take-Linked}

-- The chunk that is handed out.
abbrev pub taken : ℕ → Chunk → Chunk
taken n c = chunk (if ltb (c.size - n) 64 then c.size else n) false

pub chunk_at-take :
    (n a p : ℕ) (cs : List Chunk) (c : Chunk)
    → chunk_at a p cs ≡ some c
    → chunk_at a p (edit a p (take n) cs) ≡ some (taken n c)
unfolding edit
chunk_at-take n a p [] c e = absurd (cc)
chunk_at-take n a p (d ∷ cs) c e = ground (arith, chunk_at-take n a (behind p d) cs c)

pub taken_bytes-take :
    (n a p : ℕ) (cs : List Chunk) (c : Chunk)
    → chunk_at a p cs ≡ some c
    → c.free ≡ true
    → taken_bytes (edit a p (take n) cs) ≡ taken_bytes cs + (32 + (taken n c).size)
unfolding edit taken_bytes
taken_bytes-take n a p [] c e f = absurd (cc)
taken_bytes-take n a p (d ∷ cs) c e f = ground (arith, taken_bytes-take n a (behind p d) cs c)

module _ (base total n a : ℕ) (h : Heap) (cs : List Chunk) (c : Chunk) (is : IsHeap base total h cs)
    (found : chunk_at a (base + 48) cs ≡ some c) (fits : n ≤ c.size) where
  -- The blocks after a chunk is cut and marked.
  pub take_at-Linked :
      Linked
        (mark_allocated a (split_block a n h.blocks))
        0
        (base + 48)
        (edit a (base + 48) (take n) cs)
        (base + total)
  take_at-Linked =
      let f = h.blocks in
      let end = base + total in
      let pos : 0 < a = omega (arith, chunk_at-le a (base + 48) cs c found) in
      edit-Linked f (mark_allocated a (split_block a n f)) a end c (take n)
        (take-Linked f a end n c pos is.top fits) (λ ds. ground arith)
        (λ x z below. mark_allocated-below (split_block a n f) a x below ∙ low x z below) 0
        (base + 48) cs (omega arith) found is.linked
    where
      low : (x : ℕ) → x ≢ 0 → x < a → split_block a n h.blocks x ≡ h.blocks x
      low x z below =
          let (r, ds, l) = Linked-at h.blocks a 0 (base + 48) cs (base + total) c is.linked found in
          let pos : 0 < a = omega (arith, chunk_at-le a (base + 48) cs c found) in
          split_block-below h.blocks r a c ds (base + total) n l pos is.top fits x z below

  pub take_block-IsHeap :
      c.free ≡ true → IsHeap base total (take_block a n h) (edit a (base + 48) (take n) cs)
  unfolding take_block
  take_block-IsHeap free =
      let l = take_at-Linked in
      let sized =
        (chunk_at-header (mark_allocated a (split_block a n h.blocks)) a 0 (base + 48)
          (edit a (base + 48) (take n) cs) (base + total) (taken n c) l
          (chunk_at-take n a (base + 48) cs c found)).0 in
      let all = taken_bytes-take n a (base + 48) cs c found free in
      let bound =
        taken_bytes-le (mark_allocated a (split_block a n h.blocks)) 0 (base + 48)
          (edit a (base + 48) (take n) cs) (base + total) l in
      record {
        starts = is.starts;
        ends = is.ends;
        first = is.first ∙ sym (link-edit a c (take n) (λ ds. ground arith) (base + 48) cs found);
        top = is.top;
        linked = l;
        counted = rw sized (omega (arith, all, bound, is.counted, is.top));
      }

  pub taken_fits : a + 32 + c.size ≤ base + total
  taken_fits =
      let (r, ds, l) = Linked-at h.blocks a 0 (base + 48) cs (base + total) c is.linked found in
      omega (arith, Linked-le h.blocks a (behind a c) ds (base + total) l.1)

module _ (base total heap size out : ℕ) (h : Heap) (cs : List Chunk) (is : IsHeap base total h cs)
    (live : heap ≢ 0) (room : out ≢ 0) (some_size : size ≢ 0) (small : size ≤ 2 ^ 64 - 16) where
  pub rounded : heap_align size ≡ round16 size
  rounded = omega arith

  malloc_loop :
      first_fit (most_blocks h) h.context.head (heap_align size) h.blocks
      ≡ fit (round16 size) (base + 48) cs
  malloc_loop =
      let fuel : length cs ≤ most_blocks h =
        omega (arith, length-le h.blocks 0 (base + 48) cs (base + total) is.linked, is.ends) in
      ap (λ (x : ℕ). first_fit (most_blocks h) x (heap_align size) h.blocks) is.first
      ∙ ap (λ (x : ℕ). first_fit (most_blocks h) (link (base + 48) cs) x h.blocks) rounded
      ∙ first_fit-eq (most_blocks h) h.blocks 0 (base + 48) (round16 size) cs (base + total)
          is.linked (omega arith) fuel

  pub malloc_none :
      fit (round16 size) (base + 48) cs ≡ none → heap_malloc heap size out h ≡ (err enomem, h)
  unfolding heap_malloc
  malloc_none e =
      let e0 : ((heap == 0) || (out == 0)) ≡ false = ground arith in
      let e1 : (size == 0) ≡ false = ground arith in rw (e0, e1, malloc_loop, e) refl

  pub malloc_some :
      (a : ℕ)
      → fit (round16 size) (base + 48) cs ≡ some a
      → add64 a 32 ≡ a + 32
      → heap_malloc heap size out h ≡ (ok (a + 32), take_block a (round16 size) h)
  unfolding heap_malloc
  malloc_some a e sum =
      let e0 : ((heap == 0) || (out == 0)) ≡ false = ground arith in
      let e1 : (size == 0) ≡ false = ground arith in
      rw (e0, e1, malloc_loop, e) (λ i. (ok (sum i), take_block a (rounded i) h))

  -- On a heap that stands for the chunks `cs`, for a request from 1 to 2 ^ 64 - 16 bytes,
  -- `heap_malloc` answers what first fit on the chunks answers, an address or ENOMEM, and leaves a
  -- heap that stands for the chunks that first fit leaves, its counter equal to the bytes in use.
  pub heap_malloc-take_first :
      ((heap_malloc heap size out h).0 ≡ (take_first size (base + 48) cs).0)
      × IsHeap base total (heap_malloc heap size out h).1 (take_first size (base + 48) cs).1
  unfolding take_first
  heap_malloc-take_first = elim (Option-cases (fit (round16 size) (base + 48) cs)) [
    | inl e ↦ rw (malloc_none e, e, take_first) (refl, is)
    | inr (a, e) ↦
        let (c, found, free, fits) = fit-chunk (round16 size) a (base + 48) cs e in
        let inside = taken_fits base total (round16 size) a h cs c is found fits in
        let sum : add64 a 32 ≡ a + 32 = omega (arith, is.top) in
        rw (malloc_some a e sum, e, take_first)
          (refl, take_block-IsHeap base total (round16 size) a h cs c is found fits free)
  ]

module _ (base total heap size out : ℕ) (h : Heap) (c : Chunk) (cs : List Chunk)
    (is : IsHeap base total h (c ∷ cs)) (live : heap ≢ 0) (room : out ≢ 0)
    (large : 2 ^ 64 - 16 < size) (word : size < 2 ^ 64) (free : c.free ≡ true)
    (inside : base + 80 < 2 ^ 64) where
  wrapped : heap_align size ≡ 0
  wrapped = omega arith

  wrapped_fit : fit 0 (base + 48) (c ∷ cs) ≡ some (base + 48)
  unfolding fit
  wrapped_fit = let zero_fits : leb 0 c.size ≡ true = ground arith in rw (free, zero_fits) refl

  wrapped_loop :
      first_fit (most_blocks h) h.context.head (heap_align size) h.blocks ≡ some (base + 48)
  wrapped_loop =
      let fuel : length (c ∷ cs) ≤ most_blocks h =
        omega
          (arith, length-le h.blocks 0 (base + 48) (c ∷ cs) (base + total) is.linked, is.ends) in
      ap (λ (x : ℕ). first_fit (most_blocks h) x (heap_align size) h.blocks) is.first
      ∙ ap (λ (x : ℕ). first_fit (most_blocks h) (base + 48) x h.blocks) wrapped
      ∙ first_fit-eq (most_blocks h) h.blocks 0 (base + 48) 0 (c ∷ cs) (base + total) is.linked
          (omega arith) fuel
      ∙ wrapped_fit

  wrapped_run : heap_malloc heap size out h ≡ (ok (base + 80), take_block (base + 48) 0 h)
  unfolding heap_malloc
  wrapped_run =
      let e0 : ((heap == 0) || (out == 0)) ≡ false = ground arith in
      let e1 : (size == 0) ≡ false = ground arith in
      let sum : add64 (base + 48) 32 ≡ base + 80 = omega arith in
      rw (e0, e1, wrapped_loop) (λ i. (ok (sum i), take_block (base + 48) (wrapped i) h))

  -- The chunks after 0 bytes were taken of the first one.
  abbrev wrapped_chunks : List Chunk
  wrapped_chunks =
      if ltb c.size 64
      then chunk c.size false ∷ cs
      else chunk 0 false ∷ chunk (c.size - 32) true ∷ cs

  wrapped_edit : edit (base + 48) (base + 48) (take 0) (c ∷ cs) ≡ wrapped_chunks
  unfolding edit
  wrapped_edit = rw (test_self (base + 48)) (ground arith)

  -- A request for more than 2 ^ 64 - 16 bytes, which no heap can hold, is rounded to 0 bytes. On a
  -- heap that stands for chunks of which the first is free, at an address below 2 ^ 64, `heap_malloc`
  -- answers its address, and the heap then stands for the chunks with this one in use: as it is, if
  -- it has less than 64 bytes, and otherwise cut to 0 bytes, with the rest a free chunk behind it.
  pub heap_malloc-wraps :
      ((heap_malloc heap size out h).0 ≡ ok (base + 80))
      × IsHeap base total (heap_malloc heap size out h).1 (
          if ltb c.size 64
          then chunk c.size false ∷ cs
          else chunk 0 false ∷ chunk (c.size - 32) true ∷ cs)
  heap_malloc-wraps =
      let ran = wrapped_run in
      let here : chunk_at (base + 48) (base + 48) (c ∷ cs) ≡ some c =
        rw (test_self (base + 48)) refl in
      let stands =
        take_block-IsHeap base total 0 (base + 48) h (c ∷ cs) c is here (omega arith) free in
      rw ran (refl, rw wrapped_edit at stands)
