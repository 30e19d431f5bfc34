-- ===== src/Pmm/Init.antt =====
-- `pmm_init` of pmm.c, over the boot loader's memory map of modules/boot_info.h.
use arm_os.Base.{
  ℕ, zero, suc, ◌-◌, ◌%◌, Bool, true, false, ◌&&◌, Option, none, some, List, [], ◌∷◌, ◌==◌, ltb,
  leb, if◌then◌else◌, add64, sub64, mul64, ◌/◌,
}
use arm_os.Pmm.State.{
  PageMeta, BlockNode, Pmm, max_order, page_size, to_kv, to_index, block_bytes, list_add, mark_free,
}

pub data MemoryType : Type 0 where
  unknown : MemoryType
  free : MemoryType
  used : MemoryType

-- `size` counts pages.
pub record Region : Type 0 where
  pub start : ℕ
  pub size : ℕ
  pub memory_type : MemoryType

unfoldable pub is_free_region : Region → Bool
is_free_region r = elim r.memory_type [ MemoryType.free ↦ true | _ ↦ false ]

abbrev pub region_end : Region → ℕ
region_end r = add64 r.start (mul64 r.size page_size)

unfoldable pub highest_loop : List Region → ℕ → ℕ
highest_loop [] highest = highest
highest_loop (r ∷ rs) highest =
    highest_loop rs (if ltb highest (region_end r) then region_end r else highest)

-- The first free region with room gives its first pages to the metadata array. The result is the
-- array's physical start, 0 if no region has room, and the map without those pages.
unfoldable pub place_meta : ℕ → List Region → ℕ × List Region
place_meta needed [] = (0, [])
place_meta needed (r ∷ rs) =
    let (start, rest) = place_meta needed rs in
    if is_free_region r && leb needed r.size
    then (
      r.start,
      record r { start = add64 r.start (mul64 needed page_size); size = sub64 r.size needed } ∷ rs,
    )
    else (start, r ∷ rest)

-- `while (target_order > 0)`. A divisor of 0, which the shift gives from order 52 on, leaves the
-- dividend as the remainder, as the AArch64 division does.
unfoldable pub fit_order : (target cursor remaining : ℕ) → ℕ
fit_order zero cursor remaining = zero
fit_order (suc o) cursor remaining =
    let lower = fit_order o cursor remaining in
    let bytes = block_bytes (suc o) in
    if leb bytes remaining && (cursor % bytes == 0) then suc o else lower

-- One block of a free region.
unfoldable pub add_block : (cursor order : ℕ) → Pmm → Pmm
add_block cursor order s =
    let added = list_add order (to_kv s cursor) (mark_free (to_index cursor) order s) in
    record added {
      total_memory_bytes = add64 added.total_memory_bytes (block_bytes order);
      free_memory_bytes = add64 added.free_memory_bytes (block_bytes order);
    }

-- `while (chunk_cursor < chunk_end)`; `none` means that the fuel ran out.
unfoldable pub carve_loop : (fuel cursor end : ℕ) → Pmm → Option Pmm
unfolding fit_order add_block
carve_loop zero cursor end s = none
carve_loop (suc k) cursor end s =
    let order = fit_order (max_order - 1) cursor (sub64 end cursor) in
    let rest = carve_loop k (add64 cursor (block_bytes order)) end (add_block cursor order s) in
    if ltb cursor end then rest else some s

-- A block has at least a page, so that `size + 1` rounds are enough for a region.
unfoldable pub add_regions : List Region → Pmm → Option Pmm
unfolding carve_loop is_free_region
add_regions [] s = some s
add_regions (r ∷ rs) s =
    elim (if is_free_region r then carve_loop (suc r.size) r.start (region_end r) s else some s) [
      | none ↦ none
      | some s' ↦ add_regions rs s'
    ]

abbrev pub meta_size : ℕ
meta_size = 8

abbrev pub zero_meta : PageMeta
zero_meta = record { ref_count = 0; order = 0; is_free = false; flags = 0 }

-- The state before the regions are added. `memory` is what the free pages hold at that time.
unfoldable pub initial : (total_pages hhdm_offset meta_base : ℕ) → (ℕ → BlockNode) → Pmm
initial pages offset base memory = record {
  orders = λ _. record { head = 0; block_count = 0 };
  total_memory_bytes = 0;
  free_memory_bytes = 0;
  meta_array = λ _. zero_meta;
  meta_base = base;
  total_pages = pages;
  hhdm_offset = offset;
  nodes = memory;
}

unfoldable pub init : List Region → (hhdm_offset : ℕ) → (ℕ → BlockNode) → Option Pmm
unfolding highest_loop place_meta add_regions initial
init regions offset memory =
    let pages = highest_loop regions 0 / page_size in
    let needed = add64 (mul64 pages meta_size) (page_size - 1) / page_size in
    let (start, map) = place_meta needed regions in
    add_regions map (initial pages offset (add64 start offset) memory)
