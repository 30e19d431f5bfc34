-- ===== src/Heap/Resizing.antt =====
-- `heap_realloc` in place: Path Alpha and Path Beta.
use arm_os.Base.{
  ℕ, ◌+◌, ◌-◌, ◌≤◌, ◌<◌, ◌^◌, ◌≡◌, ◌≢◌, refl, ap, ◌∙◌, Bool, true, false, ◌&&◌, ◌||◌, List, [], ◌∷◌,
  some, leb, ◌==◌, not, if◌then◌else◌, arith, add64, sub64, ok,
}
use arm_os.Heap.Block.{Heap, heap_align, magic_allocated, is_free_at, split_block}
use arm_os.Heap.Realloc.{grow_block, heap_realloc, migrate}
use arm_os.Heap.Chain.{Chunk, behind, Linked, chunk_at}
use arm_os.Heap.Splitting.{carve, split_block-below, split_block-Linked}
use arm_os.Heap.Editing.{edit, chunk_at-le, Linked-at, edit-Linked, chunk_at-header}
use arm_os.Heap.Model.{taken_bytes, IsHeap, round16}
use arm_os.Heap.Freeing.{back, in_use}

carve-taken_bytes :
    (n a p : ℕ) (cs : List Chunk) (c : Chunk)
    → chunk_at a p cs ≡ some c
    → c.free ≡ false
    → n + 64 ≤ c.size
    → taken_bytes (edit a p (carve n) cs) + (c.size - n) ≡ taken_bytes cs
unfolding edit taken_bytes
carve-taken_bytes n a p [] c e used room = absurd (cc)
carve-taken_bytes n a p (d ∷ cs) c e used room =
    ground (arith, carve-taken_bytes n a (behind p d) cs c)

module _ (heap ptr new_size out : ℕ) (h : Heap) (live : heap ≢ 0) (room : out ≢ 0)
    (some_ptr : ptr ≢ 0) (some_size : new_size ≢ 0)
    (right : (h.blocks (sub64 ptr 32)).magic ≡ magic_allocated) where
  abbrev block : ℕ
  block = sub64 ptr 32

  abbrev beside : ℕ
  beside = (h.blocks block).next

  abbrev fits_here : Bool
  fits_here = leb (heap_align new_size) (h.blocks block).size

  abbrev fits_beside : Bool
  fits_beside =
      is_free_at beside h.blocks
      && leb (heap_align new_size) (add64 (add64 (h.blocks block).size 32) (h.blocks beside).size)

  -- The three paths.
  pub heap_realloc-paths : heap_realloc heap ptr new_size out h ≡ (
      if fits_here
      then (ok ptr, record h { blocks = split_block block (heap_align new_size) h.blocks })
      else if fits_beside
      then (ok ptr, grow_block block (heap_align new_size) h)
      else migrate heap ptr block new_size h)
  unfolding heap_realloc
  heap_realloc-paths =
      let e0 : ((heap == 0) || (out == 0)) ≡ false = ground arith in
      let e1 : (ptr == 0) ≡ false = ground arith in
      let e2 : (new_size == 0) ≡ false = ground arith in
      let e3 : not ((h.blocks block).magic == magic_allocated) ≡ false = ground arith in
      rw (e0, e1, e2, e3) refl

module _ (base total heap a new_size out : ℕ) (h : Heap) (cs : List Chunk) (c : Chunk)
    (is : IsHeap base total h cs) (live : heap ≢ 0) (room : out ≢ 0) (some_size : new_size ≢ 0)
    (small : new_size ≤ 2 ^ 64 - 16) (found : chunk_at a (base + 48) cs ≡ some c)
    (used : c.free ≡ false) where
  right : (h.blocks (sub64 (a + 32) 32)).magic ≡ magic_allocated
  right =
      ap (λ (x : ℕ). (h.blocks x).magic) (back base total heap a h cs c is live found used)
      ∙ in_use base total heap a h cs c is live found used

  sized : (h.blocks a).size ≡ c.size
  sized = (chunk_at-header h.blocks a 0 (base + 48) cs (base + total) c is.linked found).0

  shrunk_here :
      round16 new_size ≤ c.size
      → heap_realloc heap (a + 32) new_size out h
        ≡ (ok (a + 32), record h { blocks = split_block a (round16 new_size) h.blocks })
  shrunk_here fits =
      let same : heap_align new_size ≡ round16 new_size = omega arith in
      let enough : leb (round16 new_size) c.size ≡ true = ground arith in
      heap_realloc-paths heap (a + 32) new_size out h live room (omega arith) some_size right
      ∙ rw (back base total heap a h cs c is live found used, same, sized, enough) refl

  carved :
      round16 new_size ≤ c.size
      → Linked
          (split_block a (round16 new_size) h.blocks)
          0
          (base + 48)
          (edit a (base + 48) (carve (round16 new_size)) cs)
          (base + total)
  carved fits =
      let n = round16 new_size in
      let end = base + total in
      let pos : 0 < a = omega (arith, chunk_at-le a (base + 48) cs c found) in
      let (r, ds, l) = Linked-at h.blocks a 0 (base + 48) cs end c is.linked found in
      edit-Linked h.blocks (split_block a n h.blocks) a end c (carve n)
        (λ q es m. split_block-Linked h.blocks q a c es end n m pos is.top fits)
        (λ es. ground arith)
        (λ x z below. split_block-below h.blocks r a c ds end n l pos is.top fits x z below) 0
        (base + 48) cs (omega arith) found is.linked

  -- On a heap that stands for the chunks `cs`, `heap_realloc` of a chunk in use to a size that
  -- leaves 64 bytes or more answers the same address and cuts the chunk, with the rest a free chunk
  -- behind it, but the counter stays as it was: it exceeds the bytes in use by the bytes cut off.
  pub heap_realloc-shrinks :
      round16 new_size + 64 ≤ c.size
      → let g = (heap_realloc heap (a + 32) new_size out h).1 in
        let ds = edit a (base + 48) (carve (round16 new_size)) cs in
        ((heap_realloc heap (a + 32) new_size out h).0 ≡ ok (a + 32))
        × Linked g.blocks 0 (base + 48) ds (base + total)
        × (g.context.used_size ≡ taken_bytes ds + (c.size - round16 new_size))
  heap_realloc-shrinks fits =
      let bytes = carve-taken_bytes (round16 new_size) a (base + 48) cs c found used fits in
      rw (shrunk_here (omega arith)) (refl, carved (omega arith), omega (arith, bytes, is.counted))
