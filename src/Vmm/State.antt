-- ===== src/Vmm/State.antt =====
-- The state of vmm.c, and what it calls of the physical memory manager and of the MMU module.
use arm_os.Base.{ℕ, Bool, Option, List, Unit, Result}
use arm_os.Vmm.Tree.{Tree}

-- The functions of the imported `pmm` and `mmu` interfaces that vmm.c calls, over one state of both.
-- Page orders and page sizes are left out: vmm.c passes order 0 and PS_4KB only.
pub record Backend : Type 1 where
  pub State : Type 0
  pub alloc_page : State → Result ℕ × State
  pub release : (frame : ℕ) → State → Result (Unit {0}) × State
  pub table_alloc : State → Result ℕ × State
  pub table_free : (root : ℕ) → State → Result (Unit {0}) × State
  pub map : (root virt phys count flags : ℕ) → State → Result (Unit {0}) × State
  pub unmap : (root virt count : ℕ) → State → Result (Unit {0}) × State
  pub translate : (root virt : ℕ) → State → Result ℕ
  pub protect : (root virt count flags : ℕ) → State → Result (Unit {0}) × State
  pub set_user_ctx : (root asid : ℕ) → State → Result (Unit {0}) × State
  pub invalidate : (virt count : ℕ) → State → Result (Unit {0}) × State
  -- The `kmemset` of a root table through the direct map.
  pub clear_table : (root : ℕ) → State → State

-- `vmm_space`; `address` is where it lies. The lock is an empty stub in the code.
pub record Space : Type 0 where
  pub address : ℕ
  pub page_table_root : ℕ
  pub mmap_cache : Option ℕ
  pub vma_head : Tree
  pub in_use : Bool

-- The globals: the registry, newest first, the two pools of free nodes with their slab pages, and
-- the state of the other managers.
pub record Vmm (b : Backend) : Type 0 where
  pub spaces : List Space
  pub slabs : List ℕ
  pub vma_free_list : List ℕ
  pub space_slabs : List ℕ
  pub space_free_list : List ℕ
  pub kernel_root : ℕ
  pub hw : b.State
