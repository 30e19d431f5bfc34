-- ===== src/Vmm/Slabs.antt =====
-- The two node pools of vmm.c: `vma_alloc`, `vma_free`, `vmm_space_meta_alloc` and
-- `vmm_space_meta_free`. The physical address of a slab is used as a pointer, as in the code.
use arm_os.Base.{
  ℕ, zero, suc, Option, none, some, List, [], ◌∷◌, ◌==◌, if◌then◌else◌, add64, ok, err,
}
use arm_os.Vmm.State.{Backend, Vmm}

-- `VMA_PER_PAGE` and `VMM_SPACE_PER_PAGE`: both nodes take 48 bytes.
abbrev pub nodes_per_page : ℕ
nodes_per_page = 85

-- The addresses of the nodes of a slab, from `p` on, in the order of the free list.
unfoldable pub slab_nodes : (rounds p : ℕ) → List ℕ
slab_nodes zero p = []
slab_nodes (suc k) p = p ∷ slab_nodes k (add64 p 48)

module _ {b : Backend} where
  -- A node from a list that is not empty.
  unfoldable pub take_vma : List ℕ → Vmm b → Option ℕ × Vmm b
  take_vma [] v = (none, v)
  take_vma (n ∷ rest) v = (some n, record v { vma_free_list = rest })

  -- The list after a new slab was stitched, if there is a page for it.
  unfoldable pub refill_vmas : Vmm b → Vmm b
  unfolding slab_nodes
  refill_vmas v =
      let (r, hw) = b.alloc_page v.hw in
      elim r [
        | err e ↦ record v { hw = hw }
        | ok slab ↦ if slab == 0 then record v { hw = hw } else record v {
          hw = hw;
          slabs = slab ∷ v.slabs;
          vma_free_list = slab_nodes nodes_per_page (add64 slab 16);
        }
      ]

  unfoldable pub vma_alloc : Vmm b → Option ℕ × Vmm b
  unfolding take_vma refill_vmas
  vma_alloc v = elim v.vma_free_list [
    | [] ↦ let w = refill_vmas v in take_vma w.vma_free_list w
    | n ∷ rest ↦ (some n, record v { vma_free_list = rest })
  ]

  unfoldable pub vma_free : ℕ → Vmm b → Vmm b
  vma_free n v = if n == 0 then v else record v { vma_free_list = n ∷ v.vma_free_list }

  unfoldable pub take_space : List ℕ → Vmm b → Option ℕ × Vmm b
  take_space [] v = (none, v)
  take_space (n ∷ rest) v = (some n, record v { space_free_list = rest })

  unfoldable pub refill_spaces : Vmm b → Vmm b
  unfolding slab_nodes
  refill_spaces v =
      let (r, hw) = b.alloc_page v.hw in
      elim r [
        | err e ↦ record v { hw = hw }
        | ok slab ↦ if slab == 0 then record v { hw = hw } else record v {
          hw = hw;
          space_slabs = slab ∷ v.space_slabs;
          space_free_list = slab_nodes nodes_per_page (add64 slab 16);
        }
      ]

  unfoldable pub space_meta_alloc : Vmm b → Option ℕ × Vmm b
  unfolding take_space refill_spaces
  space_meta_alloc v = elim v.space_free_list [
    | [] ↦ let w = refill_spaces v in take_space w.space_free_list w
    | n ∷ rest ↦ (some n, record v { space_free_list = rest })
  ]

  unfoldable pub space_meta_free : ℕ → Vmm b → Vmm b
  space_meta_free n v = if n == 0 then v else record v { space_free_list = n ∷ v.space_free_list }
