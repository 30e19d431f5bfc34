-- ===== src/Mmu/Tests.antt =====
-- The page tables at concrete inputs.
use arm_os.Base.{
  ℕ, suc, ◌+◌, ◌*◌, ◌/◌, ◌%◌, ◌^◌, ◌<◌, ◌≡◌, refl, Bool, true, false, ◌&&◌, ◌||◌, [], ◌==◌, ltb,
  if◌then◌else◌, arith, tt, ok, err, eexist, efault, bit_and,
}
use arm_os.Mmu.Entry.{
  pte_valid, has_table_bit, page_mask, page_entry, ps_4kb, ps_2mb, return_flag_mask,
}
use arm_os.Mmu.Cpu.{Cpu}
use arm_os.Mmu.State.{FrameSource, Mmu}
use arm_os.Mmu.Translating.{walk, pt_translate}
use arm_os.Mmu.Mapping.{pt_map, pt_map_single_page}
use arm_os.Mmu.Unmapping.{pt_unmap}
use arm_os.Mmu.Protecting.{pt_protect}
use arm_os.Mmu.Clearing.{Tables, meets_block}
use arm_os.Mmu.Unmapped.{page_at, pt_unmap-translate}
use arm_os.Mmu.Owned.{IsFrames, IsTree}
use arm_os.Mmu.Roundtrip.{pt_map-pt_translate, pt_map-no_exec}
use arm_os.Mmu.Refusing.{map_mapped, protect_block-unmaps}

-- Frames in order; the state counts those handed out.
abbrev in_order : FrameSource
in_order = record { State = ℕ; alloc_page = λ n. (ok (n * 4096), suc n); release = λ f n. n }

abbrev below : ℕ → ℕ → Bool
below n f = f % 4096 == 0 && ltb (f / 4096) n

below_step : (n g : ℕ) → below (suc n) g ≡ ((g == n * 4096) || below n g)
below_step n g = ground arith

in_order-IsFrames : IsFrames in_order below
in_order-IsFrames = record {
  fresh = λ n f e.
      let same : n * 4096 ≡ f = cc in rw (← same) (ground arith, omega arith, λ g. below_step n g);
}

abbrev cpu : Cpu
cpu = record { ttbr0 = 0x5_0000_0000_1000; ttbr1 = 0; mair = 0; tlb = [] }

-- An empty root table in the frame at 4096.
abbrev bare : Mmu in_order
bare = record { tables = λ t i. 0; frames = 2; cpu = cpu }

bare-IsTree : IsTree below (λ t. 0) 4096 bare
bare-IsTree = record {
  root_owned = refl;
  root_level = refl;
  down = λ t i o low v h. absurd (cc v);
  top = λ i v. absurd (cc v);
}

-- A page mapped into it.
abbrev mapped : Mmu in_order
mapped = (pt_map 4096 0x40_0000 0x8_0000 1 ps_4kb 0x743 bare).1

map_run : (pt_map 4096 0x40_0000 0x8_0000 1 ps_4kb 0x743 bare).0 ≡ ok tt
unfolding pt_map
map_run = refl

pt_map-pt_translate_example :
    ((o : ℕ)
      → o < 4096
      → pt_translate 4096 (0x40_0000 + o) 1 1 mapped.tables
        ≡ ok (0x8_0000 + o, bit_and (page_entry 0x8_0000 0x743) return_flag_mask))
    × ((w : ℕ) (r : ℕ × ℕ)
        → pt_translate 4096 w 1 1 bare.tables ≡ ok r
        → pt_translate 4096 w 1 1 mapped.tables ≡ ok r)
pt_map-pt_translate_example =
    pt_map-pt_translate below in_order-IsFrames (λ t. 0) 4096 0x40_0000 0x8_0000 0x743 bare
      bare-IsTree refl (omega arith) (omega arith) 1 1 (omega arith) (omega arith) (omega arith)
      (omega arith) map_run

no_exec_run : (pt_map 4096 0x40_0000 0x8_0000 1 ps_4kb (2 ^ 54 + 0x743) bare).0 ≡ ok tt
unfolding pt_map
no_exec_run = refl

pt_map-no_exec_example :
    pt_translate 4096
      (0x40_0000 + 5)
      1
      1
      (pt_map 4096 0x40_0000 0x8_0000 1 ps_4kb (2 ^ 54 + 0x743) bare).1.tables
    ≡ ok (0x8_0000 + 2 ^ 54 + 5, bit_and (page_entry 0x8_0000 (2 ^ 54 + 0x743)) return_flag_mask)
pt_map-no_exec_example =
    pt_map-no_exec below in_order-IsFrames (λ t. 0) 4096 0x40_0000 0x8_0000 (2 ^ 54 + 0x743) bare
      bare-IsTree refl (omega arith) (omega arith) 1 1 (omega arith) (omega arith) 0x743
      (omega arith) (omega arith) refl no_exec_run 5 (omega arith)

-- A second page at the same address is refused.
mapped_walk_run : walk mapped.tables 4096 0x40_0010 ≡ ok (0x8_0010, 0x40)
unfolding pt_map walk
mapped_walk_run = refl

mapped_free : meets_block mapped.tables 4096 0x40_0010 ≡ false
unfolding pt_map
mapped_free = refl

map_mapped_example :
    pt_map_single_page 4096 0x40_0010 0x9_0000 ps_4kb 0x743 mapped ≡ (err eexist, mapped)
map_mapped_example =
    map_mapped 4096 0x40_0010 0x9_0000 0x743 mapped (0x8_0010, 0x40) mapped_walk_run mapped_free

one_page_free : (j : ℕ) → j < 1 → meets_block mapped.tables 4096 (page_at 0x40_0000 j) ≡ false
unfolding pt_map
one_page_free j h = let first : j ≡ 0 = omega arith in rw first refl

pt_unmap-translate_example :
    ((pt_unmap 4096 0x40_0000 1 ps_4kb mapped).0 ≡ ok tt)
    × ((j : ℕ)
        → j < 1
        → pt_translate 4096
            (page_at 0x40_0000 j)
            1
            1
            (pt_unmap 4096 0x40_0000 1 ps_4kb mapped).1.tables
          ≡ err efault)
pt_unmap-translate_example =
    pt_unmap-translate 4096 0x40_0000 1 mapped 1 1 (omega arith) (omega arith) (omega arith)
      one_page_free

-- A block of 2 MB behind two tables.
abbrev block_tables : Tables
block_tables t i =
    if i == 0
    then if t == 4096
      then 0x2003
      else if t == 0x2000
      then 0x3003
      else if t == 0x3000
      then 0x20_0705
      else 0
    else 0

abbrev depth : ℕ → ℕ
depth t = if t == 4096 then 0 else if t == 0x2000 then 1 else if t == 0x3000 then 2 else 3

abbrev block : Mmu in_order
block = record { tables = block_tables; frames = 4; cpu = cpu }

block_down :
    (t i : ℕ)
    → depth t < 3
    → pte_valid (block_tables t i) ≡ true
    → has_table_bit (block_tables t i) ≡ true
    → (below 4 (page_mask (block_tables t i)) ≡ true)
      × (depth (page_mask (block_tables t i)) ≡ suc (depth t))
block_down t i low v h = ground arith

block_top :
    (i : ℕ) → pte_valid (block_tables 4096 i) ≡ true → has_table_bit (block_tables 4096 i) ≡ true
block_top i v = ground arith

block-IsTree : IsTree below depth 4096 block
block-IsTree = record {
  root_owned = refl;
  root_level = refl;
  down = λ t i o low v h. block_down t i low v h;
  top = block_top;
}

protect_block-unmaps_example :
    ((pt_protect 4096 0 1 ps_2mb 0x40 block).0 ≡ ok tt)
    × ((w : ℕ)
        → w / 2 ^ 21 ≡ 0
        → walk (pt_protect 4096 0 1 ps_2mb 0x40 block).1.tables 4096 w ≡ err efault)
protect_block-unmaps_example =
    protect_block-unmaps below depth 4096 0 0x40 block block-IsTree refl refl refl refl refl
      (omega arith) (omega arith)
