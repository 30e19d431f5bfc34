-- ===== src/Vmm/Protecting/Pieces.antt =====
-- The track of `vmm_protect` of vmm.c that cuts an area in three.
use arm_os.Base.{
  ℕ, ◌+◌, ◌-◌, ◌<◌, ◌≤◌, ◌≡◌, refl, arith, none, some, true, if◌then◌else◌, List, ◌∷◌, add64, sub64,
}
use arm_os.Vmm.Area.{Area, area_end}
use arm_os.Vmm.Tree.{Tree, insert}
use arm_os.Vmm.State.{Backend, Space, Vmm}
use arm_os.Vmm.Pool.{vma_alloc-front}
use arm_os.Vmm.Space.{remove_tree_node, insert_vma}
use arm_os.Vmm.Editing.{forget, part, protect_pieces}
use arm_os.Vmm.Sorted.{inside, area_at, area_at-insert}
use arm_os.Vmm.Removed.{Holds, Holds-bounds}
use arm_os.Vmm.Nodes.{one_if}
use arm_os.Vmm.Lookup.{Holds-area_at}
use arm_os.Vmm.Sound.{IsSound, insert-IsSound, remove_tree_node-IsRemoved}
use arm_os.Vmm.Freeing.{traits, in_range}
use arm_os.Vmm.Protecting.Edges.{with_flags, IsProtected}

-- Two nodes of the pool are taken in hand, and put back behind a third one.
module _ (hi : ℕ) (others : ℕ → ℕ) (m r : ℕ) where
  take_hand :
      (pool : List ℕ) (t : Tree)
      → IsSound hi others t (m ∷ r ∷ pool)
      → IsSound hi (λ i. one_if m i + one_if r i + others i) t pool
  take_hand pool t k = record {
    bound = k.bound;
    within = k.within;
    once = λ i. omega (arith, k.once i);
    not_null = omega (arith, k.not_null);
  }

  give_hand :
      (n : ℕ) (pool : List ℕ) (t : Tree)
      → one_if m 0 + one_if r 0 ≡ 0
      → IsSound hi (λ i. one_if m i + one_if r i + others i) t (n ∷ pool)
      → IsSound hi others t (n ∷ m ∷ r ∷ pool)
  give_hand n pool t z k = record {
    bound = k.bound;
    within = k.within;
    once = λ i. omega (arith, k.once i);
    not_null = omega (arith, k.not_null);
  }

module _ (hi : ℕ) (others : ℕ → ℕ) where
  module _ {b : Backend} (vaddr sz flags id : ℕ) (a : Area) (s : Space) (v : Vmm b)
      (h : Holds id a s.vma_head) (low : a.base ≤ vaddr) (some_bytes : 0 < sz)
      (ends : vaddr + sz ≤ a.base + a.size) where
    abbrev left : Area
    left = part a.base (sub64 vaddr a.base) a

    abbrev mid : Area
    mid = record (part vaddr sz a) { flags = flags }

    abbrev right : Area
    right = part (add64 vaddr sz) (sub64 (area_end a) (add64 vaddr sz)) a

    -- The three pieces take the place of the area in a tree `t` that has lost it.
    module _ (n m r : ℕ) (t : Tree) (pool : List ℕ) (k : IsSound hi others t (n ∷ m ∷ r ∷ pool))
        (old : (x : ℕ) → inside a x ≡ true → area_at x s.vma_head ≡ some a)
        (gone : (x : ℕ) → area_at x t ≡ (if inside a x then none else area_at x s.vma_head))
        (pos : 0 < a.size) (top : a.base + a.size ≤ hi) (l : a.base < vaddr)
        (u : vaddr + sz < a.base + a.size) where
      pieces-IsSound :
          (IsSound hi others (insert r right (insert m mid (insert n left t))) pool)
          × ((x : ℕ)
              → traits (area_at x (insert r right (insert m mid (insert n left t)))) ≡ (
                  if in_range vaddr sz x
                  then with_flags flags (traits (area_at x s.vma_head))
                  else traits (area_at x s.vma_head)))
      unfolding part
      pieces-IsSound =
          let bound = k.bound in
          let size : left.size ≡ vaddr - a.base = omega arith in
          let start : add64 vaddr sz ≡ vaddr + sz = omega arith in
          let size' : right.size ≡ a.base + a.size - (vaddr + sz) = omega arith in
          let t1 = insert n left t in
          let t2 = insert m mid t1 in
          let see1 = λ (x : ℕ). area_at-insert x n left t (λ g. ground (arith, gone x)) in
          let see2 = λ (x : ℕ). area_at-insert x m mid t1 (λ g. ground (arith, gone x, see1 x)) in
          let see3 =
            λ (x : ℕ). area_at-insert x r right t2 (λ g. ground (arith, gone x, see1 x, see2 x)) in
          let s1 =
            insert-IsSound hi others n left t (m ∷ r ∷ pool) k (omega arith) (omega arith)
              (λ y g g'. ground (arith, gone y)) in
          let s2 =
            insert-IsSound hi others m mid t1 (r ∷ pool) s1 some_bytes (omega arith)
              (λ y g g'. ground (arith, gone y, see1 y)) in
          (
            insert-IsSound hi others r right t2 pool s2 (omega arith) (omega arith)
                (λ y g g'. ground (arith, gone y, see1 y, see2 y)),
            λ x. ground (arith, gone x, see1 x, see2 x, see3 x, old x),
          )

    -- The nodes `m` and `r` are in hand.
    pub pieces-IsProtected :
        (m r : ℕ)
        → IsSound hi others s.vma_head (m ∷ r ∷ v.vma_free_list)
        → a.base < vaddr
        → vaddr + sz < a.base + a.size
        → IsProtected hi others vaddr sz flags s (protect_pieces vaddr sz flags id a m r s v)
    unfolding protect_pieces insert_vma forget part
    pieces-IsProtected m r k l u =
        let bounds = Holds-bounds id 0 hi a s.vma_head k.within h in
        let gone =
          remove_tree_node-IsRemoved hi (λ i. one_if m i + one_if r i + others i) id a s v
            (take_hand hi others m r v.vma_free_list s.vma_head k) h in
        let w = (remove_tree_node id s v).1 in
        let (n, freed) = gone.freed in
        let fresh = vma_alloc-front w freed in
        let k1 =
          give_hand hi others m r n v.vma_free_list (remove_tree_node id s v).0.vma_head
            (omega (arith, k.not_null)) (rw freed at gone.sound) in
        let whole =
          pieces-IsSound n m r (remove_tree_node id s v).0.vma_head v.vma_free_list k1
            (λ x g. Holds-area_at x id 0 hi a s.vma_head k.within h g) gone.sees bounds.1 bounds.2 l
            u in
        rw (fresh, protect_pieces)
          (record { done = refl; sound = rw fresh whole.0; sees = whole.1 })
