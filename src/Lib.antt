-- ===== src/Lib.antt =====
-- The memory managers and the string library of the ARM_OS kernel.
--
-- ARM_OS is a kernel in modules: each exports a table of functions and imports the tables of others.
-- modules/hnsorens/memory/pmm hands out physical frames with a buddy allocator; modules/hnsorens/
-- memory/vmm keeps the areas of the address spaces and calls the pmm for frames and the mmu module for
-- page tables; modules2 is an older set of modules, from which the string library is taken.
--
-- Pmm models modules/hnsorens/memory/pmm/pmm.c and pmm.h. Pmm.State is the global allocator with its
-- free lists and page metadata (pmm_list_add is list_add, and so on: the prefix pmm_ is dropped);
-- Pmm.Alloc has pmm_alloc_page, pmm_alloc_aligned and pmm_alloc_in_range, Pmm.Free pmm_free_page,
-- pmm_retain and pmm_release, Pmm.Init pmm_init, Pmm.Reserve pmm_reserve_range. The free pages that
-- hold the links of the lists are the field nodes, a function of the address, apart from the metadata
-- array, which the code places in memory that it does not hand out.
--
-- Vmm models modules/hnsorens/memory/vmm/vmm.c and vmm.h. Vmm.Area and Vmm.Tree are vm_area_t and the
-- search tree that its links make, a node's address being its id; Vmm.State has the globals and Backend,
-- the functions of the pmm and mmu interfaces that vmm.c calls, a parameter of every definition;
-- Vmm.Slabs has the node pools (vma_alloc, vmm_space_meta_alloc), Vmm.Space find_vma, insert_vma,
-- remove_tree_node and find_unmapped_area, Vmm.Editing vmm_free, vmm_protect and vmm_query, Vmm.Mapping
-- vmm_allocate, vmm_reserve, vmm_resize and vmm_map_external on the space that get_space found, and
-- Vmm.Registry get_space, vmm_space_create, vmm_space_destroy, vmm_init and the calls from outside.
-- IsSound of Vmm.Sound is the invariant of a space: its areas are disjoint and in order, and a node is
-- in one tree or in the pool, once. The areas are compared by what an address shows (traits of
-- Vmm.Freeing), which forgets how a range is cut into areas.
--
-- Heap models modules/hnsorens/memory/heap/heap.c and heap.h, over the virtual memory manager. Heap.Block
-- has the headers with split_block and coalesce_blocks, Heap.Create heap_create, heap_destroy and
-- heap_get_stats, Heap.Malloc heap_malloc and heap_free, Heap.Realloc heap_realloc, Heap.Memalign
-- heap_memalign. IsHeap of Heap.Model says that a heap stands for a list of chunks, which forgets
-- links and magics; take_first, release and move_chunk are the operations on chunks. The headers
-- and the payload bytes are two stores: that a header in a free block covers bytes is not seen.
--
-- Mmu models modules/hnsorens/memory/mmu/pt.c and pt.h. Mmu.Entry has the masks and fields of an entry,
-- Mmu.State the tables by physical address and FrameSource, the functions of pmm that pt.c calls,
-- Mmu.Cpu the system registers and the operations on the translation buffer, Mmu.Translating
-- pt_translate, Mmu.Mapping pt_map and pt_alloc, Mmu.Unmapping pt_unmap, Mmu.Protecting pt_protect and
-- Mmu.Copying pt_copy and pt_free. IsTree of Mmu.Owned is the invariant of an address space: its tables
-- lie in owned frames, each one level below the entry that leads to it. IsFrames, beside it, is what
-- is assumed of the frames: one that is answered is a whole page and was not handed out before.
--
-- Slab models modules/hnsorens/memory/slab/slab.c and slab.h, over the virtual memory manager. Slab.State
-- has the slabs, the cache and the two list operations enqueue_slab and dequeue_slab, Slab.Cache
-- k_slab_create_cache, k_slab_shrink and k_slab_destroy_cache, Slab.Alloc k_slab_alloc and Slab.Release
-- k_slab_free. IsStack of Slab.Stack says which slots are free on a slab, in the order of the
-- chain that their links make; it forgets the words and the lists of slabs. The headers of the slabs
-- and the words in free slots are stores of their own; the loop that links the slots of a new slab
-- takes its rounds from the count of slots, and ends in the code if that is below 2 ^ 32.
--
-- Str models modules2/src2/string/string.c over a memory from addresses to bytes: Str.Bytes the memory
-- functions, Str.Text those on strings.
--
-- Bounds and fuel. Numbers are native naturals. 64-bit sums and products wrap in add64, sub64 and mul64
-- of Base.Word, and the 32-bit reference count wraps where it is raised. The remainder of a
-- division by 0 is the dividend, as the hardware computes it. Loops that count are recursions on their rounds. The
-- walk of a free list takes at most one step more than the list's count; the carving of a region takes
-- at most one round more than the region has pages; pmm_reserve_range takes at most a round for each page of its range;
-- the scan of find_unmapped_area takes at most one round more than there are areas, since each round
-- passes one; vmm_space_destroy as many as there are nodes. The walks of a heap take at most a
-- step for each 32 bytes of its region, and each block has a header of 32 bytes. The string walks take their fuel as an
-- argument, and none says that it ran out.
--
-- Not modelled. NULL is the number 0, and an out parameter is the result of the call. The locks are
-- empty functions in the code and are left out, as are log messages. A cached node that is not in the
-- tree counts as a miss, where the code would read freed memory; CacheHolds of Vmm.Lookup says that
-- the cache holds a node of the tree. The free lists of the pmm are counted by their block counts; that
-- the links of a list lead through as many nodes is not shown, and calls on pages inside a block can
-- break it. A cache's descriptor is a store of its own, apart from its slabs. The
-- loader in boot/, the drivers, memory managers and file systems of modules2/ and the serial output
-- are not modelled, nor is KernelForge. Two slots of a slab that overlap a word are not seen, since the
-- words are a store by address.
mod Base
pub mod Pmm
pub mod Vmm
pub mod Heap
pub mod Mmu
pub mod Slab
pub mod Str
