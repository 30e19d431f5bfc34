-- ===== src/Heap/Block.antt =====
-- The blocks of heap.h, and `split_block` and `coalesce_blocks` of heap.c. A block's header lies in
-- front of its payload; the headers are a store by address, apart from the bytes of the payloads.
use arm_os.Base.{
  ℕ, ◌+◌, Bool, true, false, ◌&&◌, ltb, ◌==◌, not, if◌then◌else◌, add64, sub64, update, align_up,
}

-- `heap_block`. An address 0 is NULL.
pub record HeapBlock : Type 0 where
  pub magic : ℕ
  pub is_free : Bool
  pub size : ℕ
  pub next : ℕ
  pub prev : ℕ

abbrev pub Blocks : Type 0
Blocks = ℕ → HeapBlock

-- `heap_context`.
pub record HeapContext : Type 0 where
  pub vmm_root : ℕ
  pub vaddr_base : ℕ
  pub total_size : ℕ
  pub used_size : ℕ
  pub head : ℕ

-- A heap: its context, the headers of its blocks, and the bytes of their payloads.
pub record Heap : Type 0 where
  pub context : HeapContext
  pub blocks : Blocks
  pub bytes : ℕ → ℕ

-- `HEAP_MAGIC_ALLOCATED`.
abbrev pub magic_allocated : ℕ
magic_allocated = 0x414C4F43

-- `HEAP_MAGIC_FREE`.
abbrev pub magic_free : ℕ
magic_free = 0x46524545

abbrev pub heap_min_block_size : ℕ
heap_min_block_size = 32

-- `HEAP_ALIGN`.
abbrev pub heap_align : ℕ → ℕ
heap_align x = align_up x 16

-- `HEAP_ALIGN(sizeof(struct heap_block))`.
abbrev pub block_header_size : ℕ
block_header_size = 32

-- `HEAP_ALIGN(sizeof(struct heap_context))`.
abbrev pub context_size : ℕ
context_size = 48

abbrev pub set_used : ℕ → HeapContext → HeapContext
set_used n c = record c { used_size = n }

-- `if (p) p->prev = q`.
unfoldable pub relink : (p q : ℕ) → Blocks → Blocks
relink p q f = if p == 0 then f else update f p (record (f p) { prev = q })

-- A free block of `rest` bytes is written at `new_block` and entered between `block`, which keeps
-- `size` bytes, and `next`.
unfoldable pub link_in : (block new_block size rest next : ℕ) → Blocks → Blocks
unfolding relink
link_in block new_block size rest next f =
    let f1 =
      update f new_block
        (record { magic = magic_free; is_free = true; size = rest; next = next; prev = block }) in
    let f2 = relink next new_block f1 in
    update f2 block (record (f2 block) { next = new_block; size = size })

unfoldable pub split_block : (block size : ℕ) → Blocks → Blocks
unfolding link_in
split_block block size f =
    let rem_size = sub64 (f block).size size in
    let new_block = add64 (add64 block block_header_size) size in
    if ltb rem_size (block_header_size + heap_min_block_size)
    then f
    else link_in block new_block size (sub64 rem_size block_header_size) (f block).next f

-- `block` gets `size` bytes and the link `next` in place of `taken`, whose magic is cleared.
unfoldable pub link_out : (block taken size next : ℕ) → Blocks → Blocks
unfolding relink
link_out block taken size next f =
    let f1 = update f block (record (f block) { size = size; next = next }) in
    let f2 = relink next block f1 in update f2 taken (record (f2 taken) { magic = 0 })

-- `block` takes over `taken`, the block behind it: the body of both phases of `coalesce_blocks`,
-- where `block` is the block itself and then the one before it.
unfoldable pub absorb : (block taken : ℕ) → Blocks → Blocks
unfolding link_out
absorb block taken f =
    let size = add64 (f block).size (add64 block_header_size (f taken).size) in
    link_out block taken size (f taken).next f

-- `p && p->is_free`.
abbrev pub is_free_at : (p : ℕ) → Blocks → Bool
is_free_at p f = not (p == 0) && (f p).is_free

unfoldable pub coalesce_blocks : (block : ℕ) → Blocks → Blocks
unfolding absorb
coalesce_blocks block f =
    let f1 = if is_free_at (f block).next f then absorb block (f block).next f else f in
    let f2 = if is_free_at (f1 block).prev f1 then absorb (f1 block).prev block f1 else f1 in
    if block == 0 then f else f2

-- `curr->is_free = false; curr->magic = HEAP_MAGIC_ALLOCATED`.
unfoldable pub mark_allocated : (block : ℕ) → Blocks → Blocks
mark_allocated block f =
    update f block (record (f block) { magic = magic_allocated; is_free = false })

-- `block->is_free = true; block->magic = HEAP_MAGIC_FREE`.
unfoldable pub mark_free : (block : ℕ) → Blocks → Blocks
mark_free block f = update f block (record (f block) { magic = magic_free; is_free = true })
