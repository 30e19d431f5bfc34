-- ===== src/Vmm/Teardown.antt =====
-- The loop of `vmm_space_destroy` of vmm.c that drops every area of a space.
use arm_os.Base.{
  ℕ, zero, suc, ◌+◌, ◌≤◌, ◌≡◌, ◌≢◌, refl, ap, ◌∙◌, arith, none, some, false, ◌==◌, ltb, inl, inr,
  List, ◌∷◌, Option-cases, Bool-cases, count, [], ◌++◌, Unit, true,
}
use arm_os.Vmm.Area.{Area}
use arm_os.Vmm.Tree.{Tree, leaf, node, take_min, remove_root, remove_loop, node_count}
use arm_os.Vmm.State.{Backend, Space, Vmm}
use arm_os.Vmm.Slabs.{vma_free, space_meta_free}
use arm_os.Vmm.Space.{remove_tree_node}
use arm_os.Vmm.Registry.{root_node, teardown, take_out, space_destroy}
use arm_os.Vmm.Removed.{Holds, remove_loop-Removal}
use arm_os.Vmm.Nodes.{nodes_at, nodes_at-remove_loop, Holds-area_of}
use arm_os.Vmm.Sound.{IsSound, IsSound-Only, remove_tree_node-IsRemoved}

node_count-take_min :
    (id : ℕ) (a : Area) (l r : Tree)
    → node_count (take_min l id a r).2 ≡ node_count l + node_count r
unfolding node_count take_min
node_count-take_min id a leaf r = omega arith
node_count-take_min id a (node ll j b lr) r = omega (arith, node_count-take_min j b ll lr)

node_count-remove_root :
    (id : ℕ) (l r : Tree) → node_count (remove_root l id r).0 ≡ node_count l + node_count r
unfolding node_count remove_root
node_count-remove_root id leaf r = omega arith
node_count-remove_root id (node ll j b lr) leaf = omega arith
node_count-remove_root id (node ll j b lr) (node rl k c rr) =
    omega (arith, node_count-take_min k c rl rr)

node_count-remove_loop :
    (id base : ℕ) (t : Tree) {t' : Tree} {u : ℕ}
    → remove_loop id base t ≡ some (t', u)
    → suc (node_count t') ≡ node_count t
unfolding node_count remove_loop
node_count-remove_loop id base leaf e = cc
node_count-remove_loop id base (node l j b r) e = elim (Bool-cases (j == id)) [
  | inl here ↦ ground (arith, node_count-remove_root j l r)
  | inr away ↦ elim (Bool-cases (ltb base b.base)) [
    | inl low ↦ elim (Option-cases (remove_loop id base l)) [
      | inl n ↦ absurd (cc (rw (away, low, n) at e))
      | inr ((l', v), q) ↦ ground (arith, node_count-remove_loop id base l q)
    ]
    | inr high ↦ elim (Option-cases (remove_loop id base r)) [
      | inl n ↦ absurd (cc (rw (away, high, n) at e))
      | inr ((r', v), q) ↦ ground (arith, node_count-remove_loop id base r q)
    ]
  ]
]

root_node-Holds : (t : Tree) {id : ℕ} → root_node t ≡ some id → (a : Area) × Holds id a t
unfolding root_node
root_node-Holds leaf e = cc
root_node-Holds (node l j a r) e = (a, inl (cc, refl))

root_node-leaf : (t : Tree) → root_node t ≡ none → t ≡ leaf
unfolding root_node
root_node-leaf leaf e = refl
root_node-leaf (node l j a r) e = cc

node_count-leaf : (t : Tree) → node_count t ≤ 0 → t ≡ leaf
unfolding node_count
node_count-leaf leaf h = refl
node_count-leaf (node l j a r) h = absurd (omega arith)

nodes_at-leaf : (i : ℕ) → nodes_at i leaf ≡ 0
unfolding nodes_at
nodes_at-leaf i = refl

module _ (hi : ℕ) (others : ℕ → ℕ) {b : Backend} where
  -- A removal leaves one node less in the tree, and in tree and pool together the same nodes.
  remove_tree_node-moves :
      (id : ℕ) (a : Area) (s : Space) (v : Vmm b)
      → IsSound hi others s.vma_head v.vma_free_list
      → Holds id a s.vma_head
      → (suc (node_count (remove_tree_node id s v).0.vma_head) ≡ node_count s.vma_head)
        × ((i : ℕ)
            → nodes_at i (remove_tree_node id s v).0.vma_head
                + count i (remove_tree_node id s v).1.vma_free_list
              ≡ nodes_at i s.vma_head + count i v.vma_free_list)
  unfolding remove_tree_node vma_free
  remove_tree_node-moves id a s v k h =
      let only = IsSound-Only hi others id a k h in
      let (t', u, found, done) = remove_loop-Removal 0 0 hi id a s.vma_head k.within only h in
      rw (Holds-area_of id a s.vma_head only h, found, remove_tree_node)
        (
          node_count-remove_loop id a.base s.vma_head found,
          λ i. ground (
            arith,
            nodes_at-remove_loop i id a.base s.vma_head found,
            nodes_at-remove_loop 0 id a.base s.vma_head found,
            k.not_null,
          ),
        )

  -- With as much fuel as the tree has nodes the loop ends with an empty tree, and every node that was
  -- in the tree or in the pool is in the pool, as often.
  pub teardown_empties :
      (fuel : ℕ) (s : Space) (v : Vmm b)
      → IsSound hi others s.vma_head v.vma_free_list
      → node_count s.vma_head ≤ fuel
      → ((teardown fuel s v).0.vma_head ≡ leaf)
        × ((i : ℕ)
            → count i (teardown fuel s v).1.vma_free_list
              ≡ nodes_at i s.vma_head + count i v.vma_free_list)
  unfolding teardown
  teardown_empties zero s v k f =
      let empty = node_count-leaf s.vma_head f in
      (empty, λ i. omega (arith, ap (nodes_at i) empty, nodes_at-leaf i))
  teardown_empties (suc fuel) s v k f = elim (Option-cases (root_node s.vma_head)) [
    | inl n ↦
        let empty = root_node-leaf s.vma_head n in
        rw (n, teardown) (empty, λ i. omega (arith, ap (nodes_at i) empty, nodes_at-leaf i))
    | inr (id, e) ↦
        let (a, h) = root_node-Holds s.vma_head e in
        let gone = remove_tree_node-IsRemoved hi others id a s v k h in
        let moved = remove_tree_node-moves id a s v k h in
        let ih =
          teardown_empties fuel (remove_tree_node id s v).0 (remove_tree_node id s v).1 gone.sound
            (omega (arith, moved.0)) in
        rw (e, teardown) (ih.0, λ i. ih.1 i ∙ moved.1 i)
  ]

-- No space of the list has the root.
abbrev pub NoRoot : (root : ℕ) → List Space → Type 0
NoRoot root [] = Unit
NoRoot root (t ∷ rest) = (t.page_table_root ≢ root) × NoRoot root rest

-- The first space with the root is taken out of the registry.
take_out-first :
    (root : ℕ) (s : Space) (before after : List Space)
    → NoRoot root before
    → s.page_table_root ≡ root
    → take_out root (before ++ s ∷ after) ≡ some (s, before ++ after)
unfolding take_out
take_out-first root s [] after first e =
    let here : (s.page_table_root == root) ≡ true = ground arith in rw here refl
take_out-first root s (t ∷ rest) after (other, first) e =
    let away : (t.page_table_root == root) ≡ false = ground (arith, other) in
    rw (away, take_out-first root s rest after first e) refl

module _ {b : Backend} where
  remove_tree_node-keeps :
      (id : ℕ) (s : Space) (v : Vmm b)
      → ((remove_tree_node id s v).0.address ≡ s.address)
        × ((remove_tree_node id s v).1.space_free_list ≡ v.space_free_list)
        × ((remove_tree_node id s v).1.hw ≡ v.hw)
  unfolding remove_tree_node vma_free
  remove_tree_node-keeps id s v = (ground arith, ground arith, ground arith)

  teardown-keeps :
      (fuel : ℕ) (s : Space) (v : Vmm b)
      → ((teardown fuel s v).0.address ≡ s.address)
        × ((teardown fuel s v).1.space_free_list ≡ v.space_free_list)
        × ((teardown fuel s v).1.hw ≡ v.hw)
  unfolding teardown
  teardown-keeps zero s v = (refl, refl, refl)
  teardown-keeps (suc fuel) s v = elim (Option-cases (root_node s.vma_head)) [
    | inl n ↦ rw (n, teardown) (refl, refl, refl)
    | inr (id, e) ↦
        let step = remove_tree_node-keeps id s v in
        let ih = teardown-keeps fuel (remove_tree_node id s v).0 (remove_tree_node id s v).1 in
        rw (e, teardown) (ih.0 ∙ step.0, ih.1 ∙ step.1, ih.2 ∙ step.2)
  ]

  -- Destroying a space of the registry, the first one with its root, answers what the MMU answers on
  -- the root. The space leaves the registry and the others stay, its descriptor goes to the free
  -- list, the node pool holds all nodes of its tree, and nothing but the call on the root reaches
  -- the other managers: no range is unmapped and no frame is released.
  pub space_destroy_returns :
      (hi : ℕ) (others : ℕ → ℕ) (root : ℕ) (s : Space) (before after : List Space) (v : Vmm b)
      → root ≢ 0
      → s.address ≢ 0
      → v.spaces ≡ before ++ s ∷ after
      → NoRoot root before
      → s.page_table_root ≡ root
      → IsSound hi others s.vma_head v.vma_free_list
      → ((space_destroy root v).0 ≡ (b.table_free root v.hw).0)
        × ((space_destroy root v).1.hw ≡ (b.table_free root v.hw).1)
        × ((space_destroy root v).1.spaces ≡ before ++ after)
        × ((space_destroy root v).1.space_free_list ≡ s.address ∷ v.space_free_list)
        × ((i : ℕ)
            → count i (space_destroy root v).1.vma_free_list
              ≡ nodes_at i s.vma_head + count i v.vma_free_list)
  unfolding space_destroy space_meta_free
  space_destroy_returns hi others root s before after v nz node_nz listed first is_root k =
      let some_root : (root == 0) ≡ false = ground arith in
      let some_node : (s.address == 0) ≡ false = ground arith in
      let e : take_out root v.spaces ≡ some (s, before ++ after) =
        ap (take_out root) listed ∙ take_out-first root s before after first is_root in
      let done = teardown_empties hi others (node_count s.vma_head) s v k (omega arith) in
      let kept = teardown-keeps (node_count s.vma_head) s v in
      rw (some_root, e, space_destroy, some_node)
        (
          ap (λ h. (b.table_free root h).0) kept.2,
          ap (λ h. (b.table_free root h).1) kept.2,
          refl,
          ap (λ (l : List ℕ). s.address ∷ l) kept.1,
          done.1,
        )
