-- ===== src/Heap/Tests.antt =====
-- The heap at concrete inputs.
use arm_os.Base.{
  ℕ, ◌+◌, ◌-◌, ◌≤◌, ◌<◌, ◌^◌, ◌≡◌, refl, true, false, List, [], ◌∷◌, arith, tt, ok, err, einval,
}
use arm_os.Vmm.Sample.{bare, manager}
use arm_os.Vmm.Tree.{area_of, find_loop}
use arm_os.Vmm.Space.{find_vma, find_unmapped_area, probe_loop}
use arm_os.Vmm.Slabs.{vma_alloc}
use arm_os.Vmm.Registry
use arm_os.Vmm.Mapping
use arm_os.Heap.Block.{Blocks, Heap}
use arm_os.Heap.Create.{root_heap, heap_create}
use arm_os.Heap.Malloc.{heap_malloc, heap_free}
use arm_os.Heap.Realloc.{migrate, move_into, heap_realloc}
use arm_os.Heap.Memalign.{heap_memalign}
use arm_os.Heap.Chain.{Chunk, chunk, Linked}
use arm_os.Heap.Splitting.{carve}
use arm_os.Heap.Editing.{edit}
use arm_os.Heap.Model.{IsHeap, release, taken_bytes, take_first}
use arm_os.Heap.Creating.{region_answer, root_heap-IsHeap, heap_create-IsHeap}
use arm_os.Heap.Taking.{heap_malloc-take_first, heap_malloc-wraps}
use arm_os.Heap.Freeing.{heap_free-release, heap_free-twice}
use arm_os.Heap.Merged.{heap_free-heap_malloc}
use arm_os.Heap.Resizing.{heap_realloc-shrinks}
use arm_os.Heap.Moving.{move_chunk, migrate-move_chunk}

abbrev junk : Blocks
junk _ = record { magic = 7; is_free = false; size = 9; next = 5; prev = 3 }

-- A heap of one page at 0x1000.
abbrev page : Heap
page = root_heap 0x8000 0x1000 4096 junk (λ a. a + 1)

abbrev empty : List Chunk
empty = chunk 4016 true ∷ []

abbrev used_one : List Chunk
used_one = chunk 112 false ∷ chunk 3872 true ∷ []

page-IsHeap : IsHeap 0x1000 4096 page empty
page-IsHeap = root_heap-IsHeap 0x8000 0x1000 4096 junk (λ a. a + 1) (omega arith) (omega arith)

heap_malloc-take_first_example :
    ((heap_malloc 0x1000 100 1 page).0 ≡ (take_first 100 0x1030 empty).0)
    × IsHeap 0x1000 4096 (heap_malloc 0x1000 100 1 page).1 (take_first 100 0x1030 empty).1
heap_malloc-take_first_example =
    heap_malloc-take_first 0x1000 4096 0x1000 100 1 page empty page-IsHeap (omega arith)
      (omega arith) (omega arith) (omega arith)

-- The chunks after it: the first cut to 112 bytes.
take_first_run : take_first 100 0x1030 empty ≡ (ok 0x1050, used_one)
unfolding take_first
take_first_run = refl

abbrev one : Heap
one = (heap_malloc 0x1000 100 1 page).1

one-IsHeap : IsHeap 0x1000 4096 one used_one
one-IsHeap =
    rw take_first_run at
      (heap_malloc-take_first 0x1000 4096 0x1000 100 1 page empty page-IsHeap (omega arith)
        (omega arith) (omega arith) (omega arith)).1

heap_free-release_example :
    ((heap_free 0x1000 0x1050 one).0 ≡ ok tt)
    × IsHeap 0x1000 4096 (heap_free 0x1000 0x1050 one).1 (release 0x1030 0x1030 used_one)
heap_free-release_example =
    heap_free-release 0x1000 4096 0x1000 0x1030 one used_one (chunk 112 false) one-IsHeap
      (omega arith) refl refl

heap_free-twice_example :
    heap_free 0x1000 0x1050 (heap_free 0x1000 0x1050 one).1
    ≡ (err einval, (heap_free 0x1000 0x1050 one).1)
heap_free-twice_example =
    heap_free-twice 0x1000 4096 0x1000 0x1030 one used_one (chunk 112 false) one-IsHeap
      (omega arith) refl refl

heap_free-heap_malloc_example :
    ((heap_free 0x1000 0x1050 one).0 ≡ ok tt)
    × IsHeap 0x1000 4096 (heap_free 0x1000 0x1050 one).1 empty
unfolding heap_malloc root_heap
heap_free-heap_malloc_example =
    heap_free-heap_malloc 0x1000 4096 0x1000 100 page empty page-IsHeap (omega arith) (refl, tt)
      (omega arith) (omega arith) 0x1050 refl

heap_malloc-wraps_example :
    ((heap_malloc 0x1000 (2 ^ 64 - 1) 1 page).0 ≡ ok 0x1050)
    × IsHeap 0x1000 4096
        (heap_malloc 0x1000 (2 ^ 64 - 1) 1 page).1
        (chunk 0 false ∷ chunk 3984 true ∷ [])
heap_malloc-wraps_example =
    heap_malloc-wraps 0x1000 4096 0x1000 (2 ^ 64 - 1) 1 page (chunk 4016 true) [] page-IsHeap
      (omega arith) (omega arith) (omega arith) (omega arith) refl (omega arith)

heap_realloc-shrinks_example :
    let g = (heap_realloc 0x1000 0x1050 20 1 one).1 in
    let ds = edit 0x1030 0x1030 (carve 32) used_one in
    ((heap_realloc 0x1000 0x1050 20 1 one).0 ≡ ok 0x1050)
    × Linked g.blocks 0 0x1030 ds 0x2000
    × (g.context.used_size ≡ taken_bytes ds + 80)
heap_realloc-shrinks_example =
    heap_realloc-shrinks 0x1000 4096 0x1000 0x1030 20 1 one used_one (chunk 112 false) one-IsHeap
      (omega arith) (omega arith) (omega arith) (omega arith) refl refl (omega arith)

migrate-move_chunk_example :
    ((migrate 0x1000 0x1050 0x1030 200 one).0 ≡ (move_chunk 200 0x1030 0x1030 used_one).0)
    × IsHeap 0x1000 4096
        (migrate 0x1000 0x1050 0x1030 200 one).1
        (move_chunk 200 0x1030 0x1030 used_one).1
    × ((q i : ℕ)
        → (migrate 0x1000 0x1050 0x1030 200 one).0 ≡ ok q
        → i < 112
        → (migrate 0x1000 0x1050 0x1030 200 one).1.bytes (q + i) ≡ one.bytes (0x1050 + i))
migrate-move_chunk_example =
    migrate-move_chunk 0x1000 4096 0x1000 0x1030 200 one used_one (chunk 112 false) one-IsHeap
      (omega arith) (omega arith) (omega arith) refl refl

-- The migrated block lies behind the old one.
migrate_run : (migrate 0x1000 0x1050 0x1030 200 one).0 ≡ ok 0x10E0
unfolding migrate heap_malloc move_into root_heap
migrate_run = refl

-- An aligned block gets a free block in front.
memalign_run : (heap_memalign 0x1000 256 100 1 page).0 ≡ ok 0x1100
unfolding heap_memalign root_heap
memalign_run = refl

-- A heap of 1000 bytes on the region that the sample manager answers.
heap_create-IsHeap_example :
    (region_answer {b = bare} 0x5000 1000 manager ≡ ok 0xFFFF_9000_0000_0000)
    × IsHeap 0xFFFF_9000_0000_0000 4096
        (root_heap 0x5000 0xFFFF_9000_0000_0000 4096 junk (λ a. a))
        empty
    × (1000 ≤ 4016)
unfolding root_heap heap_create Registry.allocate Mapping.vmm_allocate find_vma area_of find_loop
    find_unmapped_area probe_loop vma_alloc
heap_create-IsHeap_example =
    heap_create-IsHeap 0x5000 1000 junk (λ a. a) manager 1
      (root_heap 0x5000 0xFFFF_9000_0000_0000 4096 junk (λ a. a)) (omega arith) refl (omega arith)
