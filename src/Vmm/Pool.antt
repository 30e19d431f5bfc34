-- ===== src/Vmm/Pool.antt =====
-- `vma_alloc` of vmm.c on a pool that is not empty.
use arm_os.Base.{ℕ, ◌≡◌, arith, some, List, ◌∷◌}
use arm_os.Vmm.State.{Backend, Vmm}
use arm_os.Vmm.Slabs.{vma_alloc}

pub vma_alloc-front :
    {b : Backend} (v : Vmm b) {n : ℕ} {rest : List ℕ}
    → v.vma_free_list ≡ n ∷ rest
    → vma_alloc v ≡ (some n, record v { vma_free_list = rest })
unfolding vma_alloc
vma_alloc-front v {n} {rest} p = ground arith
