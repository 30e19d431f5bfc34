-- ===== src/Vmm/Sample.antt =====
-- A space with two areas, over a simple backend: data for the tests.
use arm_os.Base.{ℕ, ◌+◌, true, some, [], ◌∷◌, ok, tt}
use arm_os.Vmm.Area.{Area, heap, stack}
use arm_os.Vmm.Tree.{leaf, node}
use arm_os.Vmm.State.{Backend, Space, Vmm}

-- The state is the next free frame; nothing fails.
abbrev pub bare : Backend
bare = record {
  State = ℕ;
  alloc_page = λ n. (ok n, n + 4096);
  release = λ f n. (ok tt, n);
  table_alloc = λ n. (ok n, n + 4096);
  table_free = λ r n. (ok tt, n);
  map = λ r v p c f n. (ok tt, n);
  unmap = λ r v c n. (ok tt, n);
  translate = λ r v n. ok v;
  protect = λ r v c f n. (ok tt, n);
  set_user_ctx = λ r a n. (ok tt, n);
  invalidate = λ v c n. (ok tt, n);
  clear_table = λ r n. n;
}

abbrev pub low_area : Area
low_area = record { base = 0x10000; size = 0x3000; flags = 3; kind = stack; is_paged = true }

abbrev pub high_area : Area
high_area = record { base = 0x20000; size = 0x4000; flags = 1; kind = heap; is_paged = true }

abbrev pub sample : Space
sample = record {
  address = 0x900;
  page_table_root = 0x5000;
  mmap_cache = some 0x200;
  vma_head = node (node leaf 0x100 low_area leaf) 0x200 high_area leaf;
  in_use = true;
}

abbrev pub manager : Vmm bare
manager = record {
  spaces = sample ∷ [];
  slabs = 0x8000 ∷ [];
  vma_free_list = 0x300 ∷ 0x400 ∷ [];
  space_slabs = [];
  space_free_list = [];
  kernel_root = 0x5000;
  hw = 0x100000;
}
