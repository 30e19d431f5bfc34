-- ===== src/Vmm/Sound.antt =====
-- The invariant of one space of vmm.c and the node pool, and the three edits of the tree that keep it.
use arm_os.Base.{
  ℕ, ◌+◌, ◌<◌, ◌≤◌, ◌≡◌, ap, sym, ◌∙◌, arith, none, some, if◌then◌else◌, List, ◌∷◌, u64_mod, count,
}
use arm_os.Vmm.Area.{Area}
use arm_os.Vmm.Tree.{Tree, insert, update_area, remove_loop}
use arm_os.Vmm.State.{Backend, Space, Vmm}
use arm_os.Vmm.Slabs.{vma_free}
use arm_os.Vmm.Space.{remove_tree_node}
use arm_os.Vmm.Sorted.{inside, area_at, Within, insert-Within}
use arm_os.Vmm.Removed.{Holds, Only, remove_loop-Removal}
use arm_os.Vmm.Nodes.{
  nodes_at, nodes_at-insert, nodes_at-update_area, nodes_at-remove_loop, Only-once, Holds-area_of,
}
use arm_os.Vmm.Writes.{update_area-Written}

-- The areas of the tree are disjoint, in order and below `hi`, and every node address is in use once
-- at most: in the tree, in the pool, or among the `others`, which are the nodes of other spaces. NULL
-- is no node.
pub record IsSound (hi : ℕ) (others : ℕ → ℕ) (t : Tree) (pool : List ℕ) : Type 0 where
  pub bound : hi < u64_mod
  pub within : Within 0 hi t
  pub once : (i : ℕ) → nodes_at i t + count i pool + others i ≤ 1
  pub not_null : nodes_at 0 t + count 0 pool ≡ 0

removed-at :
    (x hi id : ℕ) (a : Area) (t : Tree) {t' : Tree} {u : ℕ}
    → Within 0 hi t
    → Only id a t
    → Holds id a t
    → remove_loop id a.base t ≡ some (t', u)
    → area_at x t' ≡ (if inside a x then none else area_at x t)
removed-at x hi id a t {t'} {u} w o h e =
    let (r, v, found, done) = remove_loop-Removal x 0 hi id a t w o h in
    let same : r ≡ t' = cc in ap (area_at x) (sym same) ∙ done.sees

module _ (hi : ℕ) (others : ℕ → ℕ) where
  pub IsSound-Only :
      (id : ℕ) (a : Area) {t : Tree} {pool : List ℕ}
      → IsSound hi others t pool
      → Holds id a t
      → Only id a t
  IsSound-Only id a {t} {pool} s h = Only-once id a t h (omega (arith, s.once id))

  pub insert-IsSound :
      (n : ℕ) (a : Area) (t : Tree) (pool : List ℕ)
      → IsSound hi others t (n ∷ pool)
      → 0 < a.size
      → a.base + a.size ≤ hi
      → ((y : ℕ) → a.base ≤ y → y < a.base + a.size → area_at y t ≡ none)
      → IsSound hi others (insert n a t) pool
  insert-IsSound n a t pool s pos top free = record {
    bound = s.bound;
    within = insert-Within 0 hi n a t s.within (omega arith) pos top free;
    once = λ i. omega (arith, nodes_at-insert i n a t, s.once i);
    not_null = omega (arith, nodes_at-insert 0 n a t, s.not_null);
  }

  pub write-IsSound :
      (id : ℕ) (a : Area) (f : Area → Area) (t : Tree) (pool : List ℕ)
      → IsSound hi others t pool
      → Holds id a t
      → a.base ≤ (f a).base
      → 0 < (f a).size
      → (f a).base + (f a).size ≤ a.base + a.size
      → IsSound hi others (update_area id f t) pool
  write-IsSound id a f t pool s h p q r = record {
    bound = s.bound;
    within = (update_area-Written 0 0 hi id a f t s.within (IsSound-Only id a s h) h p q r).within;
    once = λ i. omega (arith, nodes_at-update_area i id f t, s.once i);
    not_null = omega (arith, nodes_at-update_area 0 id f t, s.not_null);
  }

  module _ {b : Backend} where
    -- After the removal of the node `id`, its area is gone and the rest of the tree is as it was.
    pub record IsRemoved (a : Area) (s t : Space) (v w : Vmm b) : Type 0 where
      pub sound : IsSound hi others t.vma_head w.vma_free_list
      pub freed : (u : ℕ) × (w.vma_free_list ≡ u ∷ v.vma_free_list)
      pub sees :
          (x : ℕ) → area_at x t.vma_head ≡ (if inside a x then none else area_at x s.vma_head)

    pub remove_tree_node-IsRemoved :
        (id : ℕ) (a : Area) (s : Space) (v : Vmm b)
        → IsSound hi others s.vma_head v.vma_free_list
        → Holds id a s.vma_head
        → IsRemoved a s (remove_tree_node id s v).0 v (remove_tree_node id s v).1
    unfolding remove_tree_node vma_free
    remove_tree_node-IsRemoved id a s v k h =
        let only = IsSound-Only id a k h in
        let (t', u, found, done) = remove_loop-Removal 0 0 hi id a s.vma_head k.within only h in
        rw (Holds-area_of id a s.vma_head only h, found, remove_tree_node)
          (record {
            sound = record {
              bound = k.bound;
              within = done.within;
              not_null =
                  ground (arith, nodes_at-remove_loop 0 id a.base s.vma_head found, k.not_null);
              once =
                  λ i. ground (arith, nodes_at-remove_loop i id a.base s.vma_head found, k.once i);
            };
            freed =
                (u, ground (arith, nodes_at-remove_loop 0 id a.base s.vma_head found, k.not_null));
            sees = λ x. removed-at x hi id a s.vma_head k.within only h found;
          })
