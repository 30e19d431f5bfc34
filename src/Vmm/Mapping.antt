-- ===== src/Vmm/Mapping.antt =====
-- `vmm_allocate`, `vmm_reserve`, `vmm_resize` and `vmm_map_external` on one space. The descriptor
-- `s` is the one that `get_space` answered for `root`.
use arm_os.Base.{
  ℕ, zero, suc, ◌+◌, ◌/◌, ◌&&◌, ◌||◌, not, Bool, true, false, Option, none, some, ◌==◌, ltb, leb,
  if◌then◌else◌, add64, sub64, align_up, Unit, tt, Result, ok, err, enomem, einval, eexist,
}
use arm_os.Vmm.Area.{
  Area, RegionType, free, code, region_data, stack, heap, mmio, guard, alignment, user_space_max,
}
use arm_os.Vmm.State.{Backend, Space, Vmm}
use arm_os.Vmm.Slabs.{vma_alloc, vma_free}
use arm_os.Vmm.Space.{find_vma, insert_vma, find_unmapped_area}
use arm_os.Vmm.Editing.{write_area, vmm_free}

-- The number of a region type, by which types are compared.
abbrev pub type_number : RegionType → ℕ
type_number free = 0
type_number code = 1
type_number region_data = 2
type_number stack = 3
type_number heap = 4
type_number mmio = 5
type_number guard = 6

abbrev pub is_some {ℓ} : {A : Type ℓ} → Option A → Bool
is_some none = false
is_some (some _) = true

-- `find_vma(space, vaddr) || find_vma(space, vaddr + sz - 1)`, as a test and the space after it.
unfoldable pub collides : (vaddr sz : ℕ) → Space → Bool × Space
collides vaddr sz s =
    let (first, t) = find_vma vaddr s in
    let (last, u) = find_vma (sub64 (add64 vaddr sz) 1) t in
    if is_some first then (true, t) else (is_some last, u)

-- A frame for each page from `base + i` on. `some i` where a page failed.
unfoldable pub map_loop :
    (b : Backend) (rounds root base i flags : ℕ) → b.State → Option ℕ × b.State
map_loop b zero root base i flags hw = (none, hw)
map_loop b (suc k) root base i flags hw =
    let (page, h) = b.alloc_page hw in
    elim page [
      | err e ↦ (some i, h)
      | ok phys ↦
          let (status, g) = b.map root (add64 base i) phys 1 flags h in
          elim status [
            | err e ↦ (some i, (b.release phys g).1)
            | ok _ ↦ map_loop b k root base (add64 i alignment) flags g
          ]
    ]

abbrev pub paged_area : (base size flags : ℕ) → RegionType → Area
paged_area base size flags kind = record {
  base = base;
  size = size;
  flags = flags;
  kind = kind;
  is_paged = true;
}

module _ {b : Backend} where
  -- From the allocation of the node `n` on.
  unfoldable pub allocate_node :
      (root target sz flags : ℕ) → RegionType → (n : ℕ) → Space → Vmm b → Result ℕ × Space × Vmm b
  unfolding map_loop insert_vma
  allocate_node root target sz flags kind n s v =
      let (failed, hw) = map_loop b (sz / alignment) root target 0 flags v.hw in
      let mapped = record v { hw = hw } in
      elim failed [
        | none ↦ (
          ok target,
          record (insert_vma n (paged_area target sz flags kind) s) { mmap_cache = some n },
          mapped,
        )
        | some i ↦ let (_, t, u) = vmm_free root target i s mapped in (err enomem, t, vma_free n u)
      ]

  -- From the choice of the address on.
  unfoldable pub allocate_at :
      (root target sz flags : ℕ) → RegionType → Space → Vmm b → Result ℕ × Space × Vmm b
  unfolding allocate_node
  allocate_at root target sz flags kind s v =
      let (fresh, w) = vma_alloc v in
      elim fresh [
        | none ↦ (err enomem, s, w)
        | some n ↦ allocate_node root target sz flags kind n s w
      ]

  unfoldable pub allocate_fresh :
      (root hint sz flags : ℕ) → RegionType → Space → Vmm b → Result ℕ × Space × Vmm b
  unfolding allocate_at
  allocate_fresh root hint sz flags kind s v =
      let (target, t) = find_unmapped_area hint sz s in
      elim target [
        | none ↦ (err enomem, t, v)
        | some at ↦ if at == 0 then (err enomem, t, v) else allocate_at root at sz flags kind t v
      ]

  -- `hint` is `*vaddr`; the checks of the arguments stand in `Registry`, before `get_space`.
  unfoldable pub vmm_allocate :
      (root hint sz flags : ℕ) → RegionType → Space → Vmm b → Result ℕ × Space × Vmm b
  unfolding allocate_fresh
  vmm_allocate root hint sz flags kind s v =
      let size = align_up sz alignment in
      let (existing, t) = find_vma hint s in
      let search = allocate_fresh root hint size flags kind t v in
      let shortcut : Result ℕ × Space × Vmm b = elim existing [
        | none ↦ search
        | some (id, a) ↦
            if type_number a.kind == type_number kind && leb size a.size
            then (ok a.base, t, v)
            else search
      ] in
      if leb 0xF0_0000_0000 hint then shortcut else allocate_fresh root hint size flags kind s v

  unfoldable pub vmm_reserve : (vaddr sz : ℕ) → Space → Vmm b → Result (Unit {0}) × Space × Vmm b
  unfolding insert_vma
  vmm_reserve vaddr sz s v =
      let size = align_up sz alignment in
      let (collision, t) = collides vaddr size s in
      let (fresh, w) = vma_alloc v in
      let placed : Result (Unit {0}) × Space × Vmm b = elim fresh [
        | none ↦ (err enomem, t, w)
        | some n ↦ (
          ok tt,
          insert_vma n
              (record { base = vaddr; size = size; flags = 0; kind = guard; is_paged = false }) t,
          w,
        )
      ] in
      if collision then (err eexist, t, v) else placed

  unfoldable pub vmm_map_external :
      (root v p sz flags : ℕ) → Space → Vmm b → Result (Unit {0}) × Space × Vmm b
  unfolding insert_vma
  vmm_map_external root v p sz flags s st =
      let size = align_up sz alignment in
      let (collision, t) = collides v size s in
      let (fresh, w) = vma_alloc st in
      let placed : Result (Unit {0}) × Space × Vmm b = elim fresh [
        | none ↦ (err enomem, t, w)
        | some n ↦
            let (status, hw) = b.map root v p (size / alignment) flags w.hw in
            elim status [
              | err e ↦ (err e, t, vma_free n (record w { hw = hw }))
              | ok _ ↦ (
                ok tt,
                record (insert_vma n
                    (record { base = v; size = size; flags = flags; kind = mmio; is_paged = false })
                    t) { mmap_cache = some n },
                record w { hw = hw },
              )
            ]
      ] in
      if collision then (err eexist, t, st) else placed

  -- The growing track, after the checks.
  unfoldable pub grow :
      (root vaddr old_sz new_sz id : ℕ) → Area → Space → Vmm b → Result (Unit {0}) × Space × Vmm b
  unfolding map_loop write_area
  grow root vaddr old_sz new_sz id a s v =
      let (failed, hw) =
        map_loop b ((sub64 new_sz old_sz + 4095) / alignment) root vaddr old_sz a.flags v.hw in
      elim failed [
        | some _ ↦ (err enomem, s, record v { hw = hw })
        | none ↦ (
          ok tt,
          record (write_area id (λ c. record c { size = new_sz }) s) { mmap_cache = some id },
          record v { hw = hw },
        )
      ]

  unfoldable pub vmm_resize :
      (root vaddr old_sz new_sz : ℕ) → Space → Vmm b → Result (Unit {0}) × Space × Vmm b
  unfolding grow
  vmm_resize root vaddr old_sz new_sz s v =
      let (hit, t) = find_vma vaddr s in
      let size = align_up new_sz alignment in
      elim hit [
        | none ↦ (err einval, t, v)
        | some (id, a) ↦
            let (next, u) = find_vma (add64 vaddr old_sz) t in
            let blocked = is_some next || ltb user_space_max (add64 vaddr size) in
            if not (a.base == vaddr) || not (a.size == old_sz)
            then (err einval, t, v)
            else if size == old_sz
            then (ok tt, t, v)
            else if ltb size old_sz
            then vmm_free root (add64 vaddr size) (sub64 old_sz size) t v
            else if blocked
            then (err enomem, u, v)
            else grow root vaddr old_sz size id a u v
      ]
