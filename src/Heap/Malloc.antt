-- ===== src/Heap/Malloc.antt =====
-- `heap_malloc` and `heap_free` of heap.c. `heap` and `out` are the addresses of the context and of
-- the out parameter, 0 for NULL; a payload pointer 0 is NULL.
use arm_os.Base.{
  ℕ, zero, suc, ◌/◌, ◌&&◌, ◌||◌, Option, none, some, leb, ◌==◌, not, if◌then◌else◌, add64, sub64,
  Unit, tt, Result, ok, err, enomem, einval,
}
use arm_os.Heap.Block.{
  Blocks, Heap, set_used, magic_allocated, heap_align, block_header_size, split_block,
  coalesce_blocks, mark_allocated, mark_free,
}

-- The `while` loop up to the first block that serves.
unfoldable pub first_fit : (fuel curr size : ℕ) → Blocks → Option ℕ
first_fit zero curr size f = none
first_fit (suc k) curr size f =
    let rest = first_fit k (f curr).next size f in
    if curr == 0
    then none
    else if (f curr).is_free && leb size (f curr).size
    then some curr
    else rest

-- A heap has at most a block for each 32 bytes of its region.
abbrev pub most_blocks : Heap → ℕ
most_blocks h = h.context.total_size / 32

-- The block at `curr` is cut to size and marked, and the counter raised.
unfoldable pub take_block : (curr size : ℕ) → Heap → Heap
unfolding split_block mark_allocated
take_block curr size h =
    let f = mark_allocated curr (split_block curr size h.blocks) in
    record h {
      context =
          set_used (add64 h.context.used_size (add64 block_header_size (f curr).size)) h.context;
      blocks = f;
    }

unfoldable pub heap_malloc : (heap size out : ℕ) → Heap → Result ℕ × Heap
unfolding first_fit take_block
heap_malloc heap size out h =
    let found : Result ℕ × Heap =
      elim (first_fit (most_blocks h) h.context.head (heap_align size) h.blocks) [
        | none ↦ (err enomem, h)
        | some curr ↦ (ok (add64 curr block_header_size), take_block curr (heap_align size) h)
      ] in
    if (heap == 0) || (out == 0) then (err einval, h) else if size == 0 then (ok 0, h) else found

-- The counter after a block of `size` bytes is freed.
abbrev pub lower_used : (used size : ℕ) → ℕ
lower_used used size =
    if leb (add64 block_header_size size) used then sub64 used (add64 block_header_size size) else 0

-- The part of `heap_free` behind its checks.
unfoldable pub give_block : (block : ℕ) → Heap → Heap
unfolding mark_free coalesce_blocks
give_block block h = record h {
  context = set_used (lower_used h.context.used_size (h.blocks block).size) h.context;
  blocks = coalesce_blocks block (mark_free block h.blocks);
}

unfoldable pub heap_free : (heap ptr : ℕ) → Heap → Result (Unit {0}) × Heap
unfolding give_block
heap_free heap ptr h =
    let block = sub64 ptr block_header_size in
    if heap == 0
    then (err einval, h)
    else if ptr == 0
    then (ok tt, h)
    else if not ((h.blocks block).magic == magic_allocated)
    then (err einval, h)
    else (ok tt, give_block block h)
