-- ===== src/Vmm/Registry.antt =====
-- The registry of spaces of vmm.c: `get_space`, the functions that make and drop spaces, and the
-- exported functions as calls on the whole state.
use arm_os.Base.{
  ℕ, zero, suc, ◌/◌, ◌&&◌, ◌||◌, true, Option, none, some, List, [], ◌∷◌, ◌==◌, if◌then◌else◌,
  add64, Unit, tt, Result, ok, err, enomem, einval,
}
use arm_os.Vmm.Area.{Area, RegionType, alignment}
use arm_os.Vmm.Tree.{Tree, leaf, node, node_count}
use arm_os.Vmm.State.{Backend, Space, Vmm}
use arm_os.Vmm.Slabs.{vma_alloc, space_meta_alloc, space_meta_free}
use arm_os.Vmm.Space.{insert_vma, remove_tree_node}
use arm_os.Vmm.Editing
use arm_os.Vmm.Mapping

-- `boot_region_t`.
pub record BootRegion : Type 0 where
  pub base : ℕ
  pub size : ℕ
  pub flags : ℕ
  pub kind : RegionType

unfoldable pub find_space : (root : ℕ) → List Space → Option Space
find_space root [] = none
find_space root (s ∷ rest) =
    if s.in_use && s.page_table_root == root then some s else find_space root rest

-- A write through a pointer to a space of the registry.
unfoldable pub put_space : Space → List Space → List Space
put_space s [] = []
put_space s (t ∷ rest) =
    let others = t ∷ put_space s rest in if t.address == s.address then s ∷ rest else others

abbrev pub new_space : (address root : ℕ) → Space
new_space address root = record {
  address = address;
  page_table_root = root;
  mmap_cache = none;
  vma_head = leaf;
  in_use = true;
}

-- `while (curr->vma_head) remove_tree_node(curr, curr->vma_head)`.
unfoldable pub root_node : Tree → Option ℕ
root_node leaf = none
root_node (node l id a r) = some id

-- The first space with the root, whatever its `in_use`, and the registry without it.
unfoldable pub take_out : (root : ℕ) → List Space → Option (Space × List Space)
take_out root [] = none
take_out root (s ∷ rest) =
    let later : Option (Space × List Space) = elim (take_out root rest) [
      | none ↦ none
      | some (t, others) ↦ some (t, s ∷ others)
    ] in
    if s.page_table_root == root then some (s, rest) else later

module _ {b : Backend} where
  unfoldable pub teardown : (fuel : ℕ) → Space → Vmm b → Space × Vmm b
  unfolding root_node
  teardown zero s v = (s, v)
  teardown (suc k) s v = elim (root_node s.vma_head) [
    | none ↦ (s, v)
    | some id ↦ let (t, w) = remove_tree_node id s v in teardown k t w
  ]

  unfoldable pub get_space : (root : ℕ) → Vmm b → Option Space × Vmm b
  unfolding find_space
  get_space root v = elim (find_space root v.spaces) [
    | some s ↦ (some s, v)
    | none ↦
        let (fresh, w) = space_meta_alloc v in
        elim fresh [
          | none ↦ (none, w)
          | some n ↦
              let s = new_space n root in
              (some s, record w { spaces = s ∷ w.spaces; hw = b.clear_table root w.hw })
        ]
  ]

  -- An operation on the space of `root`; the space is written back.
  unfoldable pub with_space {ℓ} :
      {A : Type ℓ} (root : ℕ)
      → (Space → Vmm b → Result A × Space × Vmm b)
      → Vmm b
      → Result A × Vmm b
  unfolding get_space put_space
  with_space root op v =
      let (found, w) = get_space root v in
      elim found [
        | none ↦ (err einval, w)
        | some s ↦ let (r, t, u) = op s w in (r, record u { spaces = put_space t u.spaces })
      ]

  unfoldable pub allocate : (root out hint sz flags : ℕ) → RegionType → Vmm b → Result ℕ × Vmm b
  unfolding with_space
  allocate root out hint sz flags kind v =
      if (root == 0) || (out == 0) || (sz == 0)
      then (err einval, v)
      else with_space root (Mapping.vmm_allocate root hint sz flags kind) v

  unfoldable pub reserve : (root vaddr sz : ℕ) → Vmm b → Result (Unit {0}) × Vmm b
  unfolding with_space
  reserve root vaddr sz v =
      if (root == 0) || (vaddr == 0) || (sz == 0)
      then (err einval, v)
      else with_space root (Mapping.vmm_reserve vaddr sz) v

  unfoldable pub free : (root vaddr sz : ℕ) → Vmm b → Result (Unit {0}) × Vmm b
  unfolding with_space
  free root vaddr sz v = with_space root (Editing.vmm_free root vaddr sz) v

  unfoldable pub resize : (root vaddr old_sz new_sz : ℕ) → Vmm b → Result (Unit {0}) × Vmm b
  unfolding with_space
  resize root vaddr old_sz new_sz v =
      with_space root (Mapping.vmm_resize root vaddr old_sz new_sz) v

  unfoldable pub map_external : (root virt phys sz flags : ℕ) → Vmm b → Result (Unit {0}) × Vmm b
  unfolding with_space
  map_external root virt phys sz flags v =
      with_space root (Mapping.vmm_map_external root virt phys sz flags) v

  unfoldable pub protect : (root vaddr sz new_flags : ℕ) → Vmm b → Result (Unit {0}) × Vmm b
  unfolding with_space
  protect root vaddr sz new_flags v =
      with_space root (Editing.vmm_protect root vaddr sz new_flags) v

  unfoldable pub query : (root vaddr : ℕ) → Vmm b → Result Area × Vmm b
  unfolding with_space
  query root vaddr v = with_space root (Editing.vmm_query vaddr) v

  unfoldable pub activate : (root : ℕ) → Vmm b → Result (Unit {0}) × Vmm b
  activate root v = let (r, hw) = b.set_user_ctx root 1 v.hw in (r, record v { hw = hw })

  unfoldable pub sync : (vaddr sz : ℕ) → Vmm b → Result (Unit {0}) × Vmm b
  sync vaddr sz v =
      let (r, hw) = b.invalidate vaddr (add64 sz 4095 / alignment) v.hw in (r, record v { hw = hw })

  unfoldable pub space_create : (out : ℕ) → Vmm b → Result ℕ × Vmm b
  space_create out v =
      let (table, hw) = b.table_alloc v.hw in
      let done : Result ℕ × Vmm b = elim table [
        | err e ↦ (err e, record v { hw = hw })
        | ok root ↦
            let (fresh, w) = space_meta_alloc (record v { hw = hw }) in
            elim fresh [
              | none ↦ (err enomem, record w { hw = (b.table_free root w.hw).1 })
              | some n ↦ (ok root, record w { spaces = new_space n root ∷ w.spaces })
            ]
      ] in
      if out == 0 then (err einval, v) else done

  unfoldable pub space_destroy : (root : ℕ) → Vmm b → Result (Unit {0}) × Vmm b
  unfolding take_out teardown
  space_destroy root v =
      let done : Result (Unit {0}) × Vmm b = elim (take_out root v.spaces) [
        | none ↦ (err einval, v)
        | some (s, others) ↦
            let (t, w) = teardown (node_count s.vma_head) s v in
            let u = space_meta_free s.address (record w { spaces = others }) in
            let (r, hw) = b.table_free root u.hw in (r, record u { hw = hw })
      ] in
      if root == 0 then (err einval, v) else done

  -- The loop over the boot regions; `none` where no node was left, with all nodes given back.
  unfoldable pub insert_regions : List BootRegion → Space → Vmm b → Option Space × Vmm b
  unfolding teardown
  insert_regions [] s v = (some s, v)
  insert_regions (r ∷ rest) s v =
      let (fresh, w) = vma_alloc v in
      elim fresh [
        | none ↦ (none, (teardown (node_count s.vma_head) s w).1)
        | some n ↦
            insert_regions rest
              (insert_vma n
                (record {
                  base = r.base;
                  size = r.size;
                  flags = r.flags;
                  kind = r.kind;
                  is_paged = true;
                })
                s)
              w
      ]

  unfoldable pub space_create_with_state :
      (root : ℕ) → List BootRegion → (out : ℕ) → Vmm b → Result (Unit {0}) × Vmm b
  unfolding insert_regions
  space_create_with_state root regions out v =
      let (fresh, w) = space_meta_alloc v in
      let done : Result (Unit {0}) × Vmm b = elim fresh [
        | none ↦ (err enomem, w)
        | some n ↦
            let (filled, u) = insert_regions regions (new_space n root) w in
            elim filled [
              | none ↦ (err enomem, space_meta_free n u)
              | some s ↦ (ok tt, record u { spaces = s ∷ u.spaces; kernel_root = root })
            ]
      ] in
      if (root == 0) || (out == 0) then (err einval, v) else done

  -- The kernel's root is where `space_create_with_state` writes; its address is not NULL.
  unfoldable pub init : (root : ℕ) → List BootRegion → Vmm b → Result (Unit {0}) × Vmm b
  unfolding space_create_with_state
  init root regions v =
      if root == 0
      then (err einval, v)
      else space_create_with_state root regions 1 (record v {
        spaces = [];
        slabs = [];
        vma_free_list = [];
        space_slabs = [];
        space_free_list = [];
      })
