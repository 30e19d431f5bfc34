-- ===== src/Heap/Realloc.antt =====
-- `heap_realloc` of heap.c.
use arm_os.Base.{
  ℕ, ◌+◌, ◌-◌, ◌&&◌, ◌||◌, leb, ltb, ◌==◌, not, if◌then◌else◌, add64, sub64, Result, ok, err,
  einval,
}
use arm_os.Heap.Block.{
  Heap, set_used, magic_allocated, heap_align, block_header_size, split_block, absorb, is_free_at,
}
use arm_os.Heap.Malloc.{heap_malloc, heap_free}

-- Path Beta: the free block behind is taken over, and what is too much is cut off again.
unfoldable pub grow_block : (block size : ℕ) → Heap → Heap
unfolding absorb split_block
grow_block block size h =
    let lowered = sub64 h.context.used_size (add64 block_header_size (h.blocks block).size) in
    let f = split_block block size (absorb block (h.blocks block).next h.blocks) in
    record h {
      context = set_used (add64 lowered (add64 block_header_size (f block).size)) h.context;
      blocks = f;
    }

-- `kmemcpy` of `n` bytes between payloads.
abbrev pub copy_bytes : (dst src n : ℕ) → (ℕ → ℕ) → ℕ → ℕ
copy_bytes dst src n m a = if leb dst a && ltb a (dst + n) then m (a - dst + src) else m a

-- What follows the allocation on Path Gamma: the bytes are copied, and the old block is freed.
-- `block->size` is read after the allocation.
unfoldable pub move_into : (heap ptr block : ℕ) → Result ℕ × Heap → Result ℕ × Heap
move_into heap ptr block (err e, g) = (err e, g)
move_into heap ptr block (ok new_ptr, g) =
    let copied = record g { bytes = copy_bytes new_ptr ptr (g.blocks block).size g.bytes } in
    (ok new_ptr, (heap_free heap ptr copied).1)

-- Path Gamma.
unfoldable pub migrate : (heap ptr block new_size : ℕ) → Heap → Result ℕ × Heap
migrate heap ptr block new_size h = move_into heap ptr block (heap_malloc heap new_size 1 h)

unfoldable pub heap_realloc : (heap ptr new_size out : ℕ) → Heap → Result ℕ × Heap
unfolding heap_malloc heap_free split_block grow_block migrate
heap_realloc heap ptr new_size out h =
    let block = sub64 ptr block_header_size in
    let size = heap_align new_size in
    let next = (h.blocks block).next in
    let room = add64 (add64 (h.blocks block).size block_header_size) (h.blocks next).size in
    if (heap == 0) || (out == 0)
    then (err einval, h)
    else if ptr == 0
    then heap_malloc heap new_size out h
    else if new_size == 0
    then (ok 0, (heap_free heap ptr h).1)
    else if not ((h.blocks block).magic == magic_allocated)
    then (err einval, h)
    else if leb size (h.blocks block).size
    then (ok ptr, record h { blocks = split_block block size h.blocks })
    else if is_free_at next h.blocks && leb size room
    then (ok ptr, grow_block block size h)
    else migrate heap ptr block new_size h
