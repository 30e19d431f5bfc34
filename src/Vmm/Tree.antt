-- ===== src/Vmm/Tree.antt =====
-- The search tree of areas of vmm.c. A node's `prev` is its left child and `next` its right child;
-- `id` is the node's address.
use arm_os.Base.{ℕ, suc, ◌+◌, Bool, false, ◌||◌, Option, none, some, ◌==◌, ltb, if◌then◌else◌}
use arm_os.Vmm.Area.{Area, covers}

pub data Tree : Type 0 where
  leaf : Tree
  node : (prev : Tree) (id : ℕ) (area : Area) (next : Tree) → Tree

-- The walk of `find_vma` from the root.
unfoldable pub find_loop : ℕ → Tree → Option (ℕ × Area)
find_loop addr leaf = none
find_loop addr (node l id a r) =
    let left = find_loop addr l in
    let right = find_loop addr r in
    if covers a addr then some (id, a) else if ltb addr a.base then left else right

-- The walk of `insert_vma`.
unfoldable pub insert : ℕ → Area → Tree → Tree
insert id a leaf = node leaf id a leaf
insert id a (node l j b r) =
    let left = node (insert id a l) j b r in
    let right = node l j b (insert id a r) in if ltb a.base b.base then left else right

-- `while (successor->prev)`: the node of the lowest base of a tree, given by the parts of its root,
-- and the tree without it.
unfoldable pub take_min : Tree → ℕ → Area → Tree → ℕ × Area × Tree
take_min leaf id a r = (id, a, r)
take_min (node ll j b lr) id a r = let (m, n, rest) = take_min ll j b lr in (m, n, node rest id a r)

-- The tree without its root's area, and the address of the node that is unlinked: with two children
-- the root keeps its node and takes over the contents of the successor's.
unfoldable pub remove_root : Tree → ℕ → Tree → Tree × ℕ
unfolding take_min
remove_root leaf id r = (r, id)
remove_root (node ll j b lr) id leaf = (node ll j b lr, id)
remove_root (node ll j b lr) id (node rl k c rr) =
    let (m, n, rest) = take_min rl k c rr in (node (node ll j b lr) id n rest, m)

-- The walk of `remove_tree_node` to the node `target`, whose area begins at `base`; `none` if it is
-- not met on the way.
unfoldable pub remove_loop : (target base : ℕ) → Tree → Option (Tree × ℕ)
unfolding remove_root
remove_loop target base leaf = none
remove_loop target base (node l id a r) =
    let left : Option (Tree × ℕ) = elim (remove_loop target base l) [
      | none ↦ none
      | some (t, f) ↦ some (node t id a r, f)
    ] in
    let right : Option (Tree × ℕ) = elim (remove_loop target base r) [
      | none ↦ none
      | some (t, f) ↦ some (node l id a t, f)
    ] in
    if id == target then some (remove_root l id r) else if ltb base a.base then left else right

-- A read and a write through a pointer to a node.
unfoldable pub area_of : ℕ → Tree → Option Area
area_of id leaf = none
area_of id (node l j a r) =
    let below : Option Area = elim (area_of id l) [ none ↦ area_of id r | some b ↦ some b ] in
    if j == id then some a else below

unfoldable pub update_area : ℕ → (Area → Area) → Tree → Tree
update_area id f leaf = leaf
update_area id f (node l j a r) =
    node (update_area id f l) j (if j == id then f a else a) (update_area id f r)

-- Whether a node is in the tree.
unfoldable pub present : ℕ → Tree → Bool
present id leaf = false
present id (node l j a r) = (j == id) || (present id l || present id r)

unfoldable pub node_count : Tree → ℕ
node_count leaf = 0
node_count (node l j a r) = suc (node_count l + node_count r)
