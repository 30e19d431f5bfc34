-- ===== src/Slab/Tests.antt =====
-- The slab allocator at concrete inputs.
use arm_os.Base.{
  ◌-◌, ◌≤◌, ◌^◌, ◌≡◌, refl, true, false, arith, ok, err, tt, einval, [], ◌∷◌, if◌then◌else◌, ◌==◌,
  ◌*◌, ℕ, ◌≢◌,
}
use arm_os.Vmm.State.{Vmm}
use arm_os.Vmm.Slabs.{vma_alloc}
use arm_os.Vmm.Tree.{area_of, find_loop}
use arm_os.Vmm.Space.{find_vma, find_unmapped_area, probe_loop}
use arm_os.Vmm.Sample.{bare, manager}
use arm_os.Vmm.Registry
use arm_os.Vmm.Mapping
use arm_os.Slab.State.{KSlab, KSlabs, KSlabCache, Pool, slab_list_end, slot_addr, get_payload_start}
use arm_os.Slab.Cache.{new_cache, refuses, k_slab_create_cache, k_slab_shrink, k_slab_destroy_cache}
use arm_os.Slab.Alloc.{k_slab_alloc}
use arm_os.Slab.Release.{k_slab_free}
use arm_os.Slab.Layout.{IsLaid}
use arm_os.Slab.Stack.{IsStack}
use arm_os.Slab.Pushing.{k_slab_free-pushes}
use arm_os.Slab.Popping.{k_slab_alloc-pops}
use arm_os.Slab.Creating.{payload_start, IsPlaced, create_cache-slots}
use arm_os.Slab.Refusing.{create_cache-wide, dropped_pool, destroy_keeps_empty, IsList, free_pages}

-- A cache for objects of 24 bytes, on a multiple of 16.
abbrev small_cache : KSlabCache
small_cache = record {
  root = 0x5000;
  obj_size = 32;
  alignment = 16;
  slots_per_slab = 127;
  slabs_full = 0;
  slabs_partial = 0;
  slabs_empty = 0;
  is_allocated = true;
}

small_cache_run :
    (k_slab_create_cache {b = bare} 0x5000 24 16 1 manager).0
    ≡ ok (0xFFFF_9000_0000_0000, small_cache)
unfolding k_slab_create_cache Registry.allocate Mapping.vmm_allocate find_vma area_of find_loop
    find_unmapped_area probe_loop vma_alloc
small_cache_run = refl

create_cache-slots_example : (24 ≤ 32) × (1 ≤ 127) × IsPlaced 16 0x900 126 small_cache
create_cache-slots_example =
    create_cache-slots {b = bare} 0x5000 24 16 1 manager 0xFFFF_9000_0000_0000 small_cache
      small_cache_run 256 refl (omega arith) 0x900 126 (omega arith) (omega arith)

create_cache-wide_example :
    (refuses 100 8192 1 ≡ false)
    × ((new_cache 0x5000 100 8192).obj_size ≡ 8192)
    × ((new_cache 0x5000 100 8192).slots_per_slab ≡ 2 ^ 51 - 1)
create_cache-wide_example =
    create_cache-wide 0x5000 100 1 (omega arith) (omega arith) (λ e. omega (arith, e))

-- A cache with a full, a partial and an empty slab.
abbrev alone : KSlabs
alone a = record { free_count = 0; next_free_slot = 0; next = 0; prev = 0 }

abbrev one_each : Pool
one_each = record {
  cache = record small_cache { slabs_full = 0x7000; slabs_partial = 0x8000; slabs_empty = 0x9000 };
  slabs = alone;
  words = λ a. 0;
}

one_each-IsList : (a : ℕ) → a ≢ 0 → IsList alone a (a ∷ [])
unfolding IsList
one_each-IsList a some = (refl, some, refl)

destroy_keeps_empty_example :
    ((k_slab_shrink 1 one_each manager).2 ≡ free_pages 0x5000 (0x9000 ∷ []) manager)
    × (k_slab_destroy_cache 1 one_each manager ≡ (
      ok tt,
      dropped_pool one_each,
      free_pages 0x5000 (0x8000 ∷ []) (free_pages 0x5000 (0x7000 ∷ []) manager),
    ))
    × IsList (dropped_pool one_each).slabs 0x9000 (0x9000 ∷ [])
    × ((w : Vmm bare)
        → k_slab_shrink 1 (dropped_pool one_each) w ≡ (err einval, dropped_pool one_each, w))
destroy_keeps_empty_example =
    destroy_keeps_empty 1 one_each manager (λ e. omega (arith, e)) refl (0x7000 ∷ []) (0x8000 ∷ [])
      (0x9000 ∷ []) (one_each-IsList 0x7000 (λ e. omega (arith, e)))
      (one_each-IsList 0x8000 (λ e. omega (arith, e)))
      (one_each-IsList 0x9000 (λ e. omega (arith, e))) (omega arith) (omega arith) (omega arith)

-- A cache with four slots of 1000 bytes to a page.
abbrev quarter_cache : KSlabCache
quarter_cache = record {
  root = 0x5000;
  obj_size = 1000;
  alignment = 8;
  slots_per_slab = 4;
  slabs_full = 0;
  slabs_partial = 0x9000;
  slabs_empty = 0;
  is_allocated = true;
}

quarter_cache-IsLaid : IsLaid quarter_cache
quarter_cache-IsLaid = record {
  start = 24;
  starts = λ n page. payload_start 8 512 refl n page;
  behind = omega arith;
  wide = omega arith;
  fits = omega arith;
}

abbrev first_head : KSlab
first_head = record { free_count = 3; next_free_slot = 3; next = 0xa000; prev = 0 }

abbrev second_head : KSlab
second_head = record { free_count = 1; next_free_slot = 1; next = 0; prev = 0x9000 }

-- Slot 2 is in use on the page at 0x9000; on the one at 0xa000 all but slot 1.
abbrev two_slabs : Pool
two_slabs = record {
  cache = quarter_cache;
  slabs = λ a. if a == 0x9000 then first_head else second_head;
  words = λ a. if a == 0x9bd0 then 0 else if a == 0x9018 then 1 else slab_list_end;
}

first-IsStack : IsStack two_slabs 0x9000 (3 ∷ 0 ∷ 1 ∷ [])
unfolding IsStack slot_addr get_payload_start
first-IsStack = (
  (refl, omega arith, refl, (refl, omega arith, refl, (refl, omega arith, refl, refl))),
  refl,
  omega arith,
)

second-IsStack : IsStack two_slabs 0xa000 (1 ∷ [])
unfolding IsStack slot_addr get_payload_start
second-IsStack = ((refl, omega arith, refl, refl), refl, omega arith)

k_slab_free-pushes_example :
    ((k_slab_free 1 (slot_addr (9 * 4096) 2 quarter_cache) two_slabs).0 ≡ ok tt)
    × IsStack
        (k_slab_free 1 (slot_addr (9 * 4096) 2 quarter_cache) two_slabs).1
        (9 * 4096)
        (2 ∷ 3 ∷ 0 ∷ 1 ∷ [])
    × IsStack
        (k_slab_free 1 (slot_addr (9 * 4096) 2 quarter_cache) two_slabs).1
        (10 * 4096)
        (1 ∷ [])
k_slab_free-pushes_example =
    k_slab_free-pushes 1 two_slabs quarter_cache-IsLaid (λ e. omega (arith, e)) refl 9 2
      (omega arith) (omega arith) (3 ∷ 0 ∷ 1 ∷ []) refl (omega arith) first-IsStack 10 (omega arith)
      (λ e. omega (arith, e)) (1 ∷ []) second-IsStack

k_slab_alloc-pops_example :
    ((k_slab_alloc 1 1 two_slabs manager).0 ≡ ok (slot_addr 0x9000 3 quarter_cache))
    × IsStack (k_slab_alloc 1 1 two_slabs manager).1 0x9000 (0 ∷ 1 ∷ [])
    × IsStack (k_slab_alloc 1 1 two_slabs manager).1 0xa000 (1 ∷ [])
    × ((k_slab_alloc 1 1 two_slabs manager).2 ≡ manager)
k_slab_alloc-pops_example =
    k_slab_alloc-pops 1 1 two_slabs manager quarter_cache-IsLaid (λ e. omega (arith, e))
      (λ e. omega (arith, e)) refl 0x9000 refl (λ e. omega (arith, e)) 3 (0 ∷ 1 ∷ []) first-IsStack
      0xa000 (λ e. omega (arith, e)) (1 ∷ []) second-IsStack
