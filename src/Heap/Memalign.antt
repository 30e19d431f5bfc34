-- ===== src/Heap/Memalign.antt =====
-- `heap_memalign` of heap.c.
use arm_os.Base.{
  ℕ, zero, suc, ◌+◌, ◌-◌, ◌&&◌, ◌||◌, Option, none, some, bit_and, ltb, leb, ◌==◌, not,
  if◌then◌else◌, add64, sub64, align_up, Result, ok, err, enomem, einval,
}
use arm_os.Heap.Block.{Blocks, Heap, heap_align, block_header_size, heap_min_block_size, link_in}
use arm_os.Heap.Malloc.{most_blocks, take_block}

abbrev pub min_required_padding : ℕ
min_required_padding = block_header_size + heap_min_block_size

-- `aligned_payload_addr - raw_payload_addr`.
abbrev pub natural_padding : (alignment curr : ℕ) → ℕ
natural_padding alignment curr =
    let raw = add64 curr block_header_size in sub64 (align_up raw alignment) raw

-- The padding after the sweep that makes room for a header and a payload in front.
abbrev pub swept_padding : (alignment padding : ℕ) → ℕ
swept_padding alignment padding =
    if ltb 0 padding && ltb padding min_required_padding
    then add64 padding (align_up (sub64 min_required_padding padding) alignment)
    else padding

-- What the loop does with the block that it stops at.
pub data Spot : Type 0 where
  natural : (curr : ℕ) → Spot
  padded : (curr padding : ℕ) → Spot

-- The `while` loop up to the first block that serves, by Case 1 or by Case 2.
unfoldable pub find_spot : (fuel alignment curr size : ℕ) → Blocks → Option Spot
find_spot zero alignment curr size f = none
find_spot (suc k) alignment curr size f =
    let rest = find_spot k alignment (f curr).next size f in
    let padding = natural_padding alignment curr in
    let wide = swept_padding alignment padding in
    if curr == 0
    then none
    else if not (f curr).is_free
    then rest
    else if padding == 0 && leb size (f curr).size
    then some (natural curr)
    else if leb min_required_padding wide && leb (add64 wide size) (f curr).size
    then some (padded curr wide)
    else rest

-- Case 2 up to `split_block`: the front of `curr` becomes a free block of its own.
unfoldable pub carve_front : (curr padding : ℕ) → Blocks → Blocks
unfolding link_in
carve_front curr padding f =
    let payload = add64 (add64 curr block_header_size) padding in
    link_in curr (sub64 payload block_header_size) (sub64 padding block_header_size)
      (sub64 (f curr).size padding) (f curr).next f

unfoldable pub take_spot : (size : ℕ) → Spot → Heap → ℕ × Heap
unfolding take_block carve_front
take_spot size (natural curr) h = (add64 curr block_header_size, take_block curr size h)
take_spot size (padded curr padding) h =
    let ptr = add64 (add64 curr block_header_size) padding in
    let carved = record h { blocks = carve_front curr padding h.blocks } in
    (ptr, take_block (sub64 ptr block_header_size) size carved)

unfoldable pub heap_memalign : (heap alignment size out : ℕ) → Heap → Result ℕ × Heap
unfolding find_spot take_spot
heap_memalign heap alignment size out h =
    let wanted = if ltb alignment 16 then 16 else alignment in
    let found : Result ℕ × Heap =
      elim (find_spot (most_blocks h) wanted h.context.head (heap_align size) h.blocks) [
        | none ↦ (err enomem, h)
        | some spot ↦ let (ptr, g) = take_spot (heap_align size) spot h in (ok ptr, g)
      ] in
    if (heap == 0) || (out == 0)
    then (err einval, h)
    else if (alignment == 0) || not (bit_and alignment (alignment - 1) == 0)
    then (err einval, h)
    else if size == 0
    then (ok 0, h)
    else found
