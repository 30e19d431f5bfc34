-- ===== src/Heap/Freeing.antt =====
-- `heap_free` on a heap and the chunks that it stands for.
use arm_os.Base.{
  ℕ, ◌+◌, ◌≡◌, ◌≢◌, refl, ap, ◌∙◌, sym, true, false, List, [], ◌∷◌, some, ◌==◌, not, arith, sub64,
  tt, ok, err, einval,
}
use arm_os.Heap.Block.{Heap, magic_allocated}
use arm_os.Heap.Malloc.{heap_free, give_block, lower_used}
use arm_os.Heap.Chain.{Chunk, chunk, behind, Linked, Linked-le, chunk_at}
use arm_os.Heap.Editing.{Linked-at, chunk_at-header}
use arm_os.Heap.Model.{join, release, taken_bytes, IsHeap, taken_bytes-le}
use arm_os.Heap.Releasing.{Freed, Freed-at, link-release}

join-taken_bytes : (c : Chunk) (cs : List Chunk) → taken_bytes (join c cs) ≡ taken_bytes (c ∷ cs)
unfolding taken_bytes
join-taken_bytes c [] = refl
join-taken_bytes c (d ∷ ds) = ground arith

release-taken_bytes :
    (a p : ℕ) (cs : List Chunk) (c : Chunk)
    → chunk_at a p cs ≡ some c
    → c.free ≡ false
    → taken_bytes (release a p cs) + (32 + c.size) ≡ taken_bytes cs
unfolding taken_bytes release
release-taken_bytes a p [] c e f = absurd (cc)
release-taken_bytes a p (d ∷ cs) c e f = ground (
  arith,
  release-taken_bytes a (behind p d) cs c,
  join-taken_bytes (chunk d.size true) cs,
  join-taken_bytes d (release a (behind p d) cs),
)

heap_free-refused :
    (heap ptr : ℕ) (g : Heap)
    → heap ≢ 0
    → ptr ≢ 0
    → (g.blocks (sub64 ptr 32)).magic ≢ magic_allocated
    → heap_free heap ptr g ≡ (err einval, g)
unfolding heap_free
heap_free-refused heap ptr g live some_ptr wrong =
    let e0 : (heap == 0) ≡ false = ground arith in
    let e1 : (ptr == 0) ≡ false = ground arith in
    let e2 : not ((g.blocks (sub64 ptr 32)).magic == magic_allocated) ≡ true = ground arith in
    rw (e0, e1, e2) refl

heap_free-accepted :
    (heap ptr : ℕ) (g : Heap)
    → heap ≢ 0
    → ptr ≢ 0
    → (g.blocks (sub64 ptr 32)).magic ≡ magic_allocated
    → heap_free heap ptr g ≡ (ok tt, give_block (sub64 ptr 32) g)
unfolding heap_free
heap_free-accepted heap ptr g live some_ptr right =
    let e0 : (heap == 0) ≡ false = ground arith in
    let e1 : (ptr == 0) ≡ false = ground arith in
    let e2 : not ((g.blocks (sub64 ptr 32)).magic == magic_allocated) ≡ false = ground arith in
    rw (e0, e1, e2) refl

module _ (base total heap a : ℕ) (h : Heap) (cs : List Chunk) (c : Chunk)
    (is : IsHeap base total h cs) (live : heap ≢ 0) (found : chunk_at a (base + 48) cs ≡ some c)
    (used : c.free ≡ false) where
  at_a : (r : ℕ) × (ds : List Chunk) × Linked h.blocks r a (c ∷ ds) (base + total)
  at_a = Linked-at h.blocks a 0 (base + 48) cs (base + total) c is.linked found

  pub back : sub64 (a + 32) 32 ≡ a
  back =
      let (r, ds, l) = at_a in
      omega (arith, Linked-le h.blocks a (behind a c) ds (base + total) l.1, is.top)

  pub in_use : (h.blocks a).magic ≡ magic_allocated
  in_use = let (r, ds, l) = at_a in l.0.magic ∙ (rw used refl)

  pub heap_free-step : heap_free heap (a + 32) h ≡ (ok tt, give_block a h)
  heap_free-step =
      heap_free-accepted heap (a + 32) h live (omega arith)
        (ap (λ (x : ℕ). (h.blocks x).magic) back ∙ in_use)
      ∙ ap (λ (x : ℕ). (ok tt, give_block x h)) back

  freed : Freed h.blocks a 0 (base + 48) cs (base + total)
  freed = Freed-at h.blocks a (base + 48) cs (base + total) c is.linked (omega arith) is.top found

  -- On a heap that stands for the chunks `cs`, of which one in use lies at `a`, `heap_free` of its
  -- payload succeeds and leaves a heap that stands for the chunks with this one free and joined
  -- with the free chunks beside it, its counter equal to the bytes in use.
  pub heap_free-release :
      ((heap_free heap (a + 32) h).0 ≡ ok tt)
      × IsHeap base total (heap_free heap (a + 32) h).1 (release a (base + 48) cs)
  unfolding give_block
  heap_free-release =
      let bytes = release-taken_bytes a (base + 48) cs c found used in
      let bound = taken_bytes-le h.blocks 0 (base + 48) cs (base + total) is.linked in
      let size = (chunk_at-header h.blocks a 0 (base + 48) cs (base + total) c is.linked found).0 in
      let lowered : lower_used h.context.used_size (h.blocks a).size
          ≡ taken_bytes (release a (base + 48) cs) =
        ground (arith, is.counted, is.top) in
      rw heap_free-step (
        refl,
        record {
          starts = is.starts;
          ends = is.ends;
          first = is.first ∙ sym (link-release a (base + 48) cs);
          top = is.top;
          linked = freed.linked;
          counted = lowered;
        },
      )

  cleared : ((heap_free heap (a + 32) h).1.blocks (sub64 (a + 32) 32)).magic ≢ magic_allocated
  unfolding give_block
  cleared = rw (heap_free-step, back) freed.magic

  -- A second `heap_free` of a payload is refused with EINVAL and changes nothing, whether or not
  -- the first one joined its block with the block in front.
  pub heap_free-twice :
      heap_free heap (a + 32) (heap_free heap (a + 32) h).1
      ≡ (err einval, (heap_free heap (a + 32) h).1)
  heap_free-twice =
      heap_free-refused heap (a + 32) (heap_free heap (a + 32) h).1 live (omega arith) cleared
