-- ===== src/Pmm/Tests.antt =====
-- A small memory of 16 pages: runs of pmm.c, and the theorems at concrete inputs.
use arm_os.Base.{
  ◌%◌, add64, ℕ, ◌+◌, ◌*◌, ◌^◌, ◌<◌, ◌≤◌, ◌≡◌, ◌⊎◌, refl, arith, true, false, ◌==◌, ◌&&◌, leb, ltb,
  if◌then◌else◌, some, List, [], ◌∷◌, ok, err, enomem, efault, tt,
}
use mathlib.Core.Option
use arm_os.Pmm.State.{Pmm, block_bytes, kv_to_paddr, list_add, mark_free}
use arm_os.Pmm.Alloc.{alloc_page, claim, alloc_aligned, alloc_in_range, order_of, order_loop, walk}
use arm_os.Pmm.Placing.{alloc_aligned-fits, alloc_in_range-fits}
use arm_os.Pmm.Free.{retain, release}
use arm_os.Pmm.Init.{Region, init}
use arm_os.Pmm.Init
use arm_os.Pmm.Reserve.{reserve_range}
use arm_os.Pmm.Marks.{HasOrders}
use arm_os.Pmm.Account.{Accounted}
use arm_os.Pmm.Account.Sum.{◌≈◌, list_bytes}
use arm_os.Pmm.Calls.{IsConsistent, Call, run_all, run_all-IsConsistent}
use arm_os.Pmm.Startup.{free_region_bytes, meta_bytes, init_total}
use arm_os.Pmm.Merging.{IsMerged, release_last}
use arm_os.Pmm.Claiming.{ClaimedAt, claim_pages}
use arm_os.Pmm.Choice.{Chosen, Empty, alloc_page_choice, release-retain}
use arm_os.Pmm.Reserving.{reserve_range_clears}

abbrev offset : ℕ
offset = 0x100_0000

-- One free block of order 3 at page 8, and a taken page 4.
abbrev sample : Pmm
sample = record {
  orders = λ o.
      if o == 3
      then record { head = 0x8000 + offset; block_count = 1 }
      else record { head = 0; block_count = 0 };
  total_memory_bytes = 0x9000;
  free_memory_bytes = 0x8000;
  meta_array = λ i.
      if leb 8 i && ltb i 16
      then record { ref_count = 0; order = 3; is_free = true; flags = 0 }
      else record { ref_count = 1; order = 0; is_free = false; flags = 0 };
  meta_base = offset;
  total_pages = 16;
  hhdm_offset = offset;
  nodes = λ _. record { next = 0; prev = 0 };
}

sample-IsConsistent : IsConsistent sample
unfolding list_bytes
sample-IsConsistent = record { accounted = refl; ordered = λ i. ground arith }

abbrev regions : List Region
regions =
    record { start = 0x4000; size = 12; memory_type = Init.MemoryType.free }
    ∷ record { start = 0; size = 4; memory_type = Init.MemoryType.used }
    ∷ []

-- The free pages of the map are 5 to 15: the first went to the metadata.
init_counts :
    Option.map
      (λ (s : Pmm). s.free_memory_bytes)
      (init regions offset (λ _. record { next = 0; prev = 0 }))
    ≡ some (11 * 4096)
unfolding init list_add mark_free
init_counts = refl

init_total_example :
    (s : Pmm) × (init regions offset sample.nodes ≡ some s)
    × (s.free_memory_bytes + meta_bytes regions ≈ free_region_bytes regions)
    × (s.total_memory_bytes + meta_bytes regions ≈ free_region_bytes regions)
    × Accounted s
    × HasOrders s
unfolding Init.is_free_region
init_total_example = init_total regions offset sample.nodes (λ _. omega arith, (λ e. cc, tt))

alloc_frame : (alloc_page 1 1 sample).0 ≡ ok 0x8000
unfolding alloc_page claim kv_to_paddr
alloc_frame = refl

run_all-IsConsistent_example : IsConsistent (
    run_all
      (Call.page 1 1 ∷ Call.aligned 2 0x2000 1 ∷ Call.drop 0x8000 ∷ Call.reserve 0x8000 1 ∷ [])
      sample)
run_all-IsConsistent_example =
    run_all-IsConsistent
      (Call.page 1 1 ∷ Call.aligned 2 0x2000 1 ∷ Call.drop 0x8000 ∷ Call.reserve 0x8000 1 ∷ [])
      sample sample-IsConsistent

-- Page 5 is a free block of order 0, the buddy of page 4.
abbrev two_buddies : Pmm
two_buddies = record sample {
  meta_array = λ i.
      if i == 5
      then record { ref_count = 0; order = 0; is_free = true; flags = 0 }
      else sample.meta_array i;
}

release_last_example :
    ((release 0x4000 two_buddies).0 ≡ ok tt)
    × ((order : ℕ) × IsMerged 0x4000 0 order two_buddies (release 0x4000 two_buddies).1)
    × ((i : ℕ)
        → 4 ≤ i
        → i < 4 + 2 ^ 0
        → ((release 0x4000 two_buddies).1.meta_array i).is_free ≡ true)
    × ((release 0x4000 (release 0x4000 two_buddies).1).0 ≡ err efault)
release_last_example = release_last 0x4000 two_buddies (omega arith) refl refl (omega arith)

claim_pages_example : ClaimedAt 1 3 0x8000 9 sample (claim 3 1 (0x8000 + offset) sample).1
unfolding kv_to_paddr
claim_pages_example =
    claim_pages 3 1 (0x8000 + offset) sample 9 (omega arith) (omega arith) (omega arith)

alloc_page_choice_example :
    ((f : ℕ) × (t : Pmm) × (alloc_page 1 1 sample ≡ (ok f, t)) × Chosen 1 sample t f)
    ⊎ (Empty sample 1 64 × (alloc_page 1 1 sample ≡ (err enomem, sample)))
alloc_page_choice_example = alloc_page_choice 1 1 sample (omega arith) (omega arith)

release-retain_example :
    ((retain 0x4000 sample).0 ≡ ok tt)
    × ((release 0x4000 (retain 0x4000 sample).1).0 ≡ ok tt)
    × ((i : ℕ) → (release 0x4000 (retain 0x4000 sample).1).1.meta_array i ≡ sample.meta_array i)
release-retain_example = release-retain 0x4000 sample (omega arith) refl (omega arith) (omega arith)

reserve_range_clears_example :
    ((reserve_range 0x9000 0x1001 sample).0 ≡ ok tt)
    × (9 ≤ 10 → 10 < 9 + 2 → ((reserve_range 0x9000 0x1001 sample).1.meta_array 10).is_free ≡ false)
reserve_range_clears_example =
    reserve_range_clears 0x9000 0x1001 10 sample (omega arith) (omega arith) (omega arith)

aligned_frame : (alloc_aligned 2 0x8000 1 sample).0 ≡ ok 0x8000
unfolding alloc_aligned order_of order_loop walk claim kv_to_paddr
aligned_frame = refl

alloc_aligned-fits_example :
    (0x8000 % 0x8000 ≡ 0)
    × (((alloc_aligned 2 0x8000 1 sample).1.meta_array 8).order < 64)
    × (2 ≤ 2 ^ ((alloc_aligned 2 0x8000 1 sample).1.meta_array 8).order)
alloc_aligned-fits_example = alloc_aligned-fits 2 0x8000 1 0x8000 sample aligned_frame

ranged_frame : (alloc_in_range 2 0x10000 1 sample).0 ≡ ok 0x8000
unfolding alloc_in_range order_of order_loop walk claim kv_to_paddr
ranged_frame = refl

alloc_in_range-fits_example :
    (add64 0x8000 (block_bytes ((alloc_in_range 2 0x10000 1 sample).1.meta_array 8).order)
      ≤ 0x10000)
    × (2 ≤ 2 ^ ((alloc_in_range 2 0x10000 1 sample).1.meta_array 8).order)
alloc_in_range-fits_example = alloc_in_range-fits 2 0x10000 1 0x8000 sample ranged_frame
