-- ===== src/Vmm/Lookup.antt =====
-- `find_vma` of vmm.c, and its cache: the operations on the tree keep it empty or on a node of the tree.
use arm_os.Base.{
  ℕ, ◌+◌, ◌<◌, ◌≡◌, sym, arith, none, some, true, inl, inr, Bool-cases, Option-cases, u64_mod, Unit,
  tt, refl, ltb,
}
use arm_os.Vmm.Area.{Area, covers}
use arm_os.Vmm.Tree.{Tree, leaf, node, find_loop, area_of, insert, remove_loop}
use arm_os.Vmm.State.{Space, Backend, Vmm}
use arm_os.Vmm.Space.{cached, find_vma, insert_vma, remove_tree_node}
use arm_os.Vmm.Sorted.{inside, area_at, Within, area_at-above, find_loop-eq, area_of_pair}
use arm_os.Vmm.Removed.{Holds, Holds-bounds}
use arm_os.Vmm.Nodes.{find_loop-Holds, area_of-Holds}

pub Holds-area_at :
    (x id lo hi : ℕ) (a : Area) (t : Tree)
    → Within lo hi t
    → Holds id a t
    → inside a x ≡ true
    → area_at x t ≡ some a
unfolding area_at
Holds-area_at x id lo hi a leaf w h c = absurd h
Holds-area_at x id lo hi a (node l j b r) w (inl (e, same)) c = ground arith
Holds-area_at x id lo hi a (node l j b r) w (inr (inl h)) c =
    ground (arith, Holds-bounds id lo b.base a l w.3 h, Holds-area_at x id lo b.base a l w.3 h c)
Holds-area_at x id lo hi a (node l j b r) w (inr (inr h)) c =
    let bounds = Holds-bounds id (b.base + b.size) hi a r w.4 h in
    ground (
      arith,
      bounds,
      area_at-above x lo b.base l,
      Holds-area_at x id (b.base + b.size) hi a r w.4 h c,
    )

cached-Holds :
    (x : ℕ) (s : Space) {id : ℕ} {a : Area}
    → cached x s ≡ some (id, a)
    → Holds id a s.vma_head × (covers a x ≡ true)
unfolding cached
cached-Holds x s {id} {a} e = elim (Option-cases s.mmap_cache) [
  | inl n ↦ absurd (ground arith)
  | inr (c, n) ↦ elim (Option-cases (area_of c s.vma_head)) [
    | inl m ↦ absurd (ground arith)
    | inr (d, m) ↦
        let held = area_of-Holds c s.vma_head m in
        elim (Bool-cases (covers d x)) [
          | inl y ↦
              let here : id ≡ c = ground arith in
              let same : a ≡ d = ground arith in rw (here, same) (held, y)
          | inr y ↦ absurd (ground arith)
        ]
  ]
]

-- An answer is a node of the tree that covers the address.
pub find_vma-Holds :
    (x : ℕ) (s : Space) {id : ℕ} {a : Area}
    → (find_vma x s).0 ≡ some (id, a)
    → Holds id a s.vma_head × (covers a x ≡ true)
unfolding find_vma
find_vma-Holds x s e = elim (Option-cases (cached x s)) [
  | inr (c, n) ↦ cached-Holds x s (ground arith)
  | inl n ↦ find_loop-Holds x s.vma_head (ground arith)
]

find_vma-none : (x : ℕ) (s : Space) → (find_vma x s).0 ≡ none → find_loop x s.vma_head ≡ none
unfolding find_vma
find_vma-none x s e = elim (Option-cases (cached x s)) [
  | inr (c, n) ↦ absurd (ground arith)
  | inl n ↦ elim (Option-cases (find_loop x s.vma_head)) [
    | inl m ↦ m
    | inr ((id, a), m) ↦ absurd (ground arith)
  ]
]

-- Only the cache changes.
pub find_vma-tree : (x : ℕ) (s : Space) → (find_vma x s).1.vma_head ≡ s.vma_head
unfolding find_vma
find_vma-tree x s = ground arith

-- The answer is the area that covers the address, if there is one.
pub find_vma-eq :
    (x lo hi : ℕ) (s : Space)
    → hi < u64_mod
    → Within lo hi s.vma_head
    → area_of_pair (find_vma x s).0 ≡ area_at x s.vma_head
find_vma-eq x lo hi s h w = elim (Option-cases (find_vma x s).0) [
  | inl n ↦ ground (arith, find_vma-none x s n, find_loop-eq x lo hi s.vma_head h w)
  | inr ((id, a), n) ↦
      let (held, c) = find_vma-Holds x s n in
      let bounds = Holds-bounds id lo hi a s.vma_head w held in
      rw n (sym (Holds-area_at x id lo hi a s.vma_head w held (ground (arith, c, bounds))))
]

-- The cache is empty, or holds a node of the tree: never one that was given back to the pool.
abbrev pub CacheHolds : Space → Type 0
CacheHolds s = elim s.mmap_cache [ none ↦ Unit | some id ↦ (a : Area) × Holds id a s.vma_head ]

CacheHolds-eq : (s t : Space) → s ≡ t → CacheHolds t → CacheHolds s
CacheHolds-eq s t e h = rw e h

insert-Holds : (n id : ℕ) (c a : Area) (t : Tree) → Holds id a t → Holds id a (insert n c t)
unfolding insert
insert-Holds n id c a leaf h = absurd h
insert-Holds n id c a (node l j b r) h = elim (Bool-cases (ltb c.base b.base)) [
  | inl low ↦ rw low (elim h [
    | inl here ↦ inl here
    | inr (inl left) ↦ inr (inl (insert-Holds n id c a l left))
    | inr (inr right) ↦ inr (inr right)
  ])
  | inr high ↦ rw high (elim h [
    | inl here ↦ inl here
    | inr (inl left) ↦ inr (inl left)
    | inr (inr right) ↦ inr (inr (insert-Holds n id c a r right))
  ])
]

find_vma-CacheHolds : (x : ℕ) (s : Space) → CacheHolds s → CacheHolds (find_vma x s).1
unfolding find_vma
find_vma-CacheHolds x s h = elim (Option-cases (cached x s)) [
  | inr (c, n) ↦ CacheHolds-eq (find_vma x s).1 s (rw (n, find_vma) refl) h
  | inl n ↦ elim (Option-cases (find_loop x s.vma_head)) [
    | inl m ↦ CacheHolds-eq (find_vma x s).1 s (rw (n, m, find_vma) refl) h
    | inr ((id, a), m) ↦
        CacheHolds-eq (find_vma x s).1 (record s { mmap_cache = some id })
          (rw (n, m, find_vma) refl) (a, (find_loop-Holds x s.vma_head m).0)
  ]
]

insert_vma-CacheHolds :
    (n : ℕ) (c : Area) (s : Space) → CacheHolds s → CacheHolds (insert_vma n c s)
unfolding insert_vma
insert_vma-CacheHolds n c s h = elim (Option-cases s.mmap_cache) [
  | inl e ↦ rw e tt
  | inr (id, e) ↦
      let (a, held) : (a : Area) × Holds id a s.vma_head = rw e at h in
      rw e (a, insert-Holds n id c a s.vma_head held)
]

module _ {b : Backend} where
  remove_tree_node-CacheHolds :
      (id : ℕ) (s : Space) (v : Vmm b) → CacheHolds s → CacheHolds (remove_tree_node id s v).0
  unfolding remove_tree_node
  remove_tree_node-CacheHolds id s v h = elim (Option-cases (area_of id s.vma_head)) [
    | inl e ↦ CacheHolds-eq (remove_tree_node id s v).0 s (rw (e, remove_tree_node) refl) h
    | inr (a, e) ↦ elim (Option-cases (remove_loop id a.base s.vma_head)) [
      | inl m ↦ CacheHolds-eq (remove_tree_node id s v).0 s (rw (e, m, remove_tree_node) refl) h
      | inr ((t, u), m) ↦
          CacheHolds-eq (remove_tree_node id s v).0 (record s { vma_head = t; mmap_cache = none })
            (rw (e, m, remove_tree_node) refl) tt
    ]
  ]

  -- On a search tree of disjoint areas that ends below 2 ^ 64, with a cache that is empty or holds a
  -- node of the tree, `find_vma` answers the area that covers the address, if there is one, and it,
  -- `insert_vma` and `remove_tree_node` leave such a cache.
  pub find_vma-cache :
      (x lo hi : ℕ) (s : Space) (v : Vmm b)
      → hi < u64_mod
      → Within lo hi s.vma_head
      → CacheHolds s
      → (area_of_pair (find_vma x s).0 ≡ area_at x s.vma_head)
        × CacheHolds (find_vma x s).1
        × ((n : ℕ) (c : Area) → CacheHolds (insert_vma n c s))
        × ((id : ℕ) → CacheHolds (remove_tree_node id s v).0)
  find_vma-cache x lo hi s v h w valid = (
    find_vma-eq x lo hi s h w,
    find_vma-CacheHolds x s valid,
    λ n c. insert_vma-CacheHolds n c s valid,
    λ id. remove_tree_node-CacheHolds id s v valid,
  )
