-- ===== src/Vmm/Space.antt =====
-- What vmm.c does to one address space: `find_vma`, `insert_vma`, `remove_tree_node` and
-- `find_unmapped_area`.
use arm_os.Base.{
  ℕ, zero, suc, ◌/◌, ◌||◌, Option, none, some, ◌==◌, ltb, leb, if◌then◌else◌, add64, sub64,
  align_up, u64_mod, ◌-◌,
}
use arm_os.Vmm.Area.{
  Area, area_end, covers, alignment, user_space_min, user_space_max, kernel_space_min,
}
use arm_os.Vmm.Tree.{find_loop, insert, remove_loop, area_of, node_count}
use arm_os.Vmm.State.{Backend, Space, Vmm}
use arm_os.Vmm.Slabs.{vma_free}

-- The cached node, if it covers the address. The code would read a cached node that is not in the
-- tree; here that is a miss, and `CacheHolds` of Vmm.Lookup excludes it.
unfoldable pub cached : ℕ → Space → Option (ℕ × Area)
cached addr s = elim s.mmap_cache [
  | none ↦ none
  | some id ↦ elim (area_of id s.vma_head) [
    | none ↦ none
    | some a ↦ if covers a addr then some (id, a) else none
  ]
]

-- The node and its area, and the space with the new cache.
unfoldable pub find_vma : ℕ → Space → Option (ℕ × Area) × Space
unfolding cached
find_vma addr s = elim (cached addr s) [
  | some hit ↦ (some hit, s)
  | none ↦ elim (find_loop addr s.vma_head) [
    | none ↦ (none, s)
    | some (id, a) ↦ (some (id, a), record s { mmap_cache = some id })
  ]
]

-- The node `id` holds the area already in the code; here it gets it when it is inserted.
unfoldable pub insert_vma : ℕ → Area → Space → Space
insert_vma id a s = record s { vma_head = insert id a s.vma_head }

module _ {b : Backend} where
  unfoldable pub remove_tree_node : (target : ℕ) → Space → Vmm b → Space × Vmm b
  unfolding vma_free
  remove_tree_node target s v = elim (area_of target s.vma_head) [
    | none ↦ (s, v)
    | some a ↦ elim (remove_loop target a.base s.vma_head) [
      | none ↦ (s, v)
      | some (t, unlinked) ↦ (record s { vma_head = t; mmap_cache = none }, vma_free unlinked v)
    ]
  ]

-- `for (probe = addr; probe < addr + sz; probe += 4096)`: the first area that covers a probe.
unfoldable pub probe_loop : (rounds probe limit : ℕ) → Space → Option (ℕ × Area) × Space
probe_loop zero probe limit s = (none, s)
probe_loop (suc k) probe limit s =
    let (conflict, t) = find_vma probe s in
    let rest = probe_loop k (add64 probe alignment) limit t in
    let found : Option (ℕ × Area) × Space = elim conflict [ some c ↦ (some c, t) | none ↦ rest ] in
    if ltb probe limit then found else (none, s)

-- `for (;;)`. `some 0` is the code's 0 and `none` means that the fuel ran out.
unfoldable pub scan_loop : (fuel addr max_limit sz : ℕ) → Space → Option ℕ × Space
scan_loop zero addr max_limit sz s = (none, s)
scan_loop (suc k) addr max_limit sz s =
    let (conflict, t) = probe_loop (suc (sz / alignment)) addr (add64 addr sz) s in
    let next : Option ℕ × Space = elim conflict [
      | none ↦ (some addr, t)
      | some (id, a) ↦ scan_loop k (align_up (area_end a) alignment) max_limit sz t
    ] in
    if ltb max_limit addr || ltb (add64 (sub64 max_limit addr) 1) sz then (some 0, s) else next

unfoldable pub start_address : (hint : ℕ) → ℕ
start_address hint =
    align_up
      (if leb kernel_space_min hint
        then hint
        else if ltb hint user_space_min
        then user_space_min
        else hint)
      alignment

-- Each conflict is another area, so one round more than there are areas is enough.
unfoldable pub find_unmapped_area : (hint sz : ℕ) → Space → Option ℕ × Space
unfolding scan_loop start_address
find_unmapped_area hint sz s =
    if sz == 0
    then (some 0, s)
    else scan_loop (suc (node_count s.vma_head)) (start_address hint)
        (if leb kernel_space_min hint then u64_mod - 1 else user_space_max) sz s
