-- ===== src/Heap/Create.antt =====
-- `heap_create`, `heap_destroy` and `heap_get_stats` of heap.c, over the manager of address spaces.
use arm_os.Base.{
  ℕ, ◌+◌, true, ◌==◌, ◌||◌, if◌then◌else◌, add64, sub64, update, align_up, Unit, Result, ok, err,
  einval,
}
use arm_os.Vmm.Area.{RegionType}
use arm_os.Vmm.State.{Backend, Vmm}
use arm_os.Vmm.Registry
use arm_os.Heap.Block.{Blocks, HeapContext, Heap, magic_free, block_header_size, context_size}

-- The address that `heap_create` asks for.
abbrev pub heap_base : ℕ
heap_base = 0xFFFF_9000_0000_0000

-- The size of the region for a payload of `sz` bytes: whole pages.
abbrev pub region_size : ℕ → ℕ
region_size sz = align_up (add64 sz (context_size + block_header_size)) 4096

-- The heap on a region of `sz` bytes at `vaddr`, whose memory holds `blocks` and `bytes`.
unfoldable pub root_heap : (root vaddr sz : ℕ) → Blocks → (ℕ → ℕ) → Heap
root_heap root vaddr sz blocks bytes =
    let root_block = add64 vaddr context_size in
    record {
      context = record {
        vmm_root = root;
        vaddr_base = vaddr;
        total_size = sz;
        used_size = 0;
        head = root_block;
      };
      blocks = update blocks root_block (record {
        magic = magic_free;
        is_free = true;
        size = sub64 (sub64 sz context_size) block_header_size;
        next = 0;
        prev = 0;
      });
      bytes = bytes;
    }

module _ {b : Backend} where
  unfoldable pub heap_create :
      (root sz out_heap : ℕ) → Blocks → (ℕ → ℕ) → Vmm b → Result Heap × Vmm b
  unfolding root_heap
  heap_create root sz out_heap blocks bytes v =
      let (r, w) = Registry.allocate root 1 heap_base (region_size sz) 0x713 RegionType.heap v in
      let done : Result Heap = elim r [
        | err e ↦ err e
        | ok vaddr ↦ ok (root_heap root vaddr (region_size sz) blocks bytes)
      ] in
      if (root == 0) || (out_heap == 0) then (err einval, v) else (done, w)

  unfoldable pub heap_destroy : (heap : ℕ) → HeapContext → Vmm b → Result (Unit {0}) × Vmm b
  heap_destroy heap c v =
      if (heap == 0) || (c.vaddr_base == 0)
      then (err einval, v)
      else Registry.free c.vmm_root c.vaddr_base c.total_size v

-- The two counters; a NULL pointer for either leaves that one out.
unfoldable pub heap_get_stats : (heap : ℕ) → HeapContext → Result (ℕ × ℕ)
heap_get_stats heap c = if heap == 0 then err einval else ok (c.used_size, c.total_size)
