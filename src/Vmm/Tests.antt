-- ===== src/Vmm/Tests.antt =====
-- Runs of vmm.c, and the theorems at concrete inputs.
use arm_os.Base.{
  ◌/◌, ◌==◌, if◌then◌else◌, enomem, inl, count, ℕ, ◌+◌, ◌≡◌, refl, arith, some, [], ◌∷◌, ok, err,
  einval, tt, inr,
}
use arm_os.Vmm.Area.{heap, Area}
use arm_os.Vmm.Tree.{area_of, find_loop, node_count}
use arm_os.Vmm.State.{Backend, Vmm}
use arm_os.Vmm.Sample.{bare, low_area, high_area, sample, manager}
use arm_os.Vmm.Space.{find_vma, probe_loop, find_unmapped_area, insert_vma, remove_tree_node}
use arm_os.Vmm.Editing.{vmm_free, vmm_protect}
use arm_os.Vmm.Mapping.{map_loop, allocate_at, vmm_allocate, vmm_reserve}
use arm_os.Vmm.Sorted.{Within, area_at, area_of_pair}
use arm_os.Vmm.Nodes.{nodes_at}
use arm_os.Vmm.Sound.{IsSound}
use arm_os.Vmm.Lookup.{CacheHolds, find_vma-cache}
use arm_os.Vmm.Freeing.{IsFreed, vmm_free_exact, vmm_free_refused}
use arm_os.Vmm.Protecting.Edges.{IsProtected}
use arm_os.Vmm.Protecting.{vmm_protect_exact}
use arm_os.Vmm.Reserving.{IsReserved, vmm_reserve_exact, vmm_reserve_overlaps}
use arm_os.Vmm.Teardown.{space_destroy_returns}
use arm_os.Vmm.Registry.{space_destroy, new_space}
use arm_os.Vmm.Gaps.{IsGap, find_unmapped_area-IsGap}
use arm_os.Vmm.Allocating.{Outcome, vmm_allocate-Outcome, allocate_at_leaks}

abbrev top : ℕ
top = 0x8000_0000_0000

sample-IsSound : IsSound top (λ i. 0) sample.vma_head manager.vma_free_list
unfolding nodes_at
sample-IsSound = record {
  bound = omega arith;
  within = omega arith;
  once = λ i. ground arith;
  not_null = refl;
}

find_vma-cache_example :
    (area_of_pair (find_vma 0x10800 sample).0 ≡ area_at 0x10800 sample.vma_head)
    × CacheHolds (find_vma 0x10800 sample).1
    × ((n : ℕ) (c : Area) → CacheHolds (insert_vma n c sample))
    × ((id : ℕ) → CacheHolds (remove_tree_node id sample manager).0)
find_vma-cache_example =
    find_vma-cache 0x10800 0 top sample manager (omega arith) (omega arith)
      (high_area, inl (refl, refl))

vmm_free_exact_example :
    IsFreed top (λ i. 0) 0x21000 0x1000 sample (vmm_free 0x5000 0x21000 0x1000 sample manager)
unfolding area_at
vmm_free_exact_example =
    vmm_free_exact top (λ i. 0) 0x5000 0x21000 0x1000 sample manager sample-IsSound 0x300 high_area
      (0x400 ∷ []) refl refl (omega arith) refl

vmm_free_refused_example :
    ((vmm_free 0x5000 0x11000 0x5000 sample manager).0 ≡ err einval)
    × ((vmm_free 0x5000 0x11000 0x5000 sample manager).1.vma_head ≡ sample.vma_head)
    × ((vmm_free 0x5000 0x11000 0x5000 sample manager).2 ≡ manager)
unfolding area_at
vmm_free_refused_example =
    vmm_free_refused top (λ i. 0) 0x5000 0x11000 0x5000 sample manager sample-IsSound (omega arith)
      (inr (low_area, refl, omega arith))

vmm_protect_exact_example :
    IsProtected top
      (λ i. 0)
      0x21000
      0x1000
      7
      sample
      (vmm_protect 0x5000 0x21000 0x1000 7 sample manager)
unfolding area_at
vmm_protect_exact_example =
    vmm_protect_exact top (λ i. 0) 0x5000 0x21000 0x1000 7 0x300 0x400 high_area [] sample manager
      sample-IsSound refl (omega arith) refl refl (omega arith) refl

find_unmapped_area-IsGap_example :
    (r : ℕ) × ((find_unmapped_area 0x11000 0x2000 sample).0 ≡ some r)
    × IsGap 0x7FFF_FFFF_F000 0x2000 sample.vma_head r
find_unmapped_area-IsGap_example =
    find_unmapped_area-IsGap top 0x11000 0x2000 sample (omega arith) (omega arith) (omega arith)
      (omega arith) (omega arith) refl

gap_found : (find_unmapped_area 0x11000 0x2000 sample).0 ≡ some 0x13000
unfolding find_unmapped_area probe_loop find_vma area_of find_loop node_count
gap_found = refl

vmm_allocate-Outcome_example :
    Outcome top
      (λ i. 0)
      0x2000
      3
      heap
      sample
      (vmm_allocate 0x5000 0x11000 0x1800 3 heap sample manager)
vmm_allocate-Outcome_example =
    vmm_allocate-Outcome top (λ i. 0) 0x5000 0x11000 0x1800 3 0x300 heap (0x400 ∷ []) sample manager
      sample-IsSound (omega arith) (omega arith) (omega arith) (omega arith) (omega arith)
      (omega arith) refl

vmm_reserve_exact_example :
    IsReserved top (λ i. 0) 0x14000 0x2000 sample (vmm_reserve 0x14000 0x2000 sample manager)
unfolding area_at
vmm_reserve_exact_example =
    vmm_reserve_exact top (λ i. 0) 0x14000 0x2000 0x300 (0x400 ∷ []) sample manager sample-IsSound
      (omega arith) refl (omega arith) refl (omega arith) (λ y p q. ground arith)

vmm_reserve_overlaps_example :
    ((vmm_reserve 0xF000 0x6000 sample manager).0 ≡ ok tt)
    × ((lo hi : ℕ) → ¬ Within lo hi (vmm_reserve 0xF000 0x6000 sample manager).1.vma_head)
unfolding area_at
vmm_reserve_overlaps_example =
    vmm_reserve_overlaps top (λ i. 0) 0xF000 0x6000 0x300 (0x400 ∷ []) sample manager sample-IsSound
      (omega arith) refl (omega arith) refl 0x100 low_area (inr (inl (inl (refl, refl))))
      (omega arith) (omega arith) refl refl

-- The registry with another space in front.
abbrev two_spaces : Vmm bare
two_spaces = record manager { spaces = new_space 0x930 0x6000 ∷ sample ∷ [] }

space_destroy_returns_example :
    ((space_destroy 0x5000 two_spaces).0 ≡ ok tt)
    × ((space_destroy 0x5000 two_spaces).1.hw ≡ 0x100000)
    × ((space_destroy 0x5000 two_spaces).1.spaces ≡ new_space 0x930 0x6000 ∷ [])
    × ((space_destroy 0x5000 two_spaces).1.space_free_list ≡ 0x900 ∷ [])
    × ((i : ℕ)
        → count i (space_destroy 0x5000 two_spaces).1.vma_free_list
          ≡ nodes_at i sample.vma_head + count i manager.vma_free_list)
space_destroy_returns_example =
    space_destroy_returns top (λ i. 0) 0x5000 sample (new_space 0x930 0x6000 ∷ []) [] two_spaces
      (omega arith) (omega arith) refl (λ e. omega (arith, e), tt) refl sample-IsSound

-- As `bare`, with one free frame left at 0x100000.
abbrev last_frame : Backend
last_frame = record bare {
  alloc_page = λ n. if n == 0x100000 then (ok n, n + 4096) else (err enomem, n);
}

abbrev nearly_full : Vmm last_frame
nearly_full = record {
  spaces = sample ∷ [];
  slabs = 0x8000 ∷ [];
  vma_free_list = 0x300 ∷ 0x400 ∷ [];
  space_slabs = [];
  space_free_list = [];
  kernel_root = 0x5000;
  hw = 0x100000;
}

allocate_at_leaks_example :
    ((allocate_at 0x5000 0x14000 0x2000 3 heap sample nearly_full).0 ≡ err enomem)
    × ((allocate_at 0x5000 0x14000 0x2000 3 heap sample nearly_full).2.hw
        ≡ (map_loop last_frame (0x2000 / 4096) 0x5000 0x14000 0 3 nearly_full.hw).1)
unfolding area_at map_loop
allocate_at_leaks_example =
    allocate_at_leaks top (λ i. 0) 0x5000 0x14000 0x2000 3 0x300 0x1000 heap (0x400 ∷ []) sample
      nearly_full sample-IsSound refl refl refl
