-- ===== src/Vmm/Removed.antt =====
-- `remove_tree_node` and writes to a node of vmm.c, on a search tree of disjoint areas.
use native.Mathlib.Decide.{ℕ_discrete}
use arm_os.Base.{
  ℕ, ◌+◌, ◌<◌, ◌≤◌, ◌≡◌, refl, arith, true, false, none, some, ◌==◌, ltb, if◌then◌else◌, inl, inr,
  ◌⊎◌, Unit, tt,
}
use arm_os.Vmm.Area.{Area}
use arm_os.Vmm.Tree.{Tree, leaf, node, take_min, remove_root, remove_loop}
use arm_os.Vmm.Sorted.{inside, or_else, area_at, Within, area_at-below, area_at-above}

-- The node `id` holds the area `a` and is in the tree.
abbrev pub Holds : (id : ℕ) (a : Area) → Tree → Type 0
Holds id a leaf = ⊥
Holds id a (node l j b r) = ((j ≡ id) × (b ≡ a)) ⊎ Holds id a l ⊎ Holds id a r

-- No other node has the address `id`: what a node of that address holds is `a`.
abbrev pub Only : (id : ℕ) (a : Area) → Tree → Type 0
Only id a leaf = Unit
Only id a (node l j b r) = (j ≡ id → b ≡ a) × Only id a l × Only id a r

pub Within-wider :
    (lo lo' hi hi' : ℕ) (t : Tree) → lo' ≤ lo → hi ≤ hi' → Within lo hi t → Within lo' hi' t
Within-wider lo lo' hi hi' leaf p q w = tt
Within-wider lo lo' hi hi' (node l id a r) p q w = (
  omega arith,
  w.1,
  omega arith,
  Within-wider lo lo' a.base a.base l p (omega arith) w.3,
  Within-wider (a.base + a.size) (a.base + a.size) hi hi' r (omega arith) q w.4,
)

pub Holds-bounds :
    (id lo hi : ℕ) (a : Area) (t : Tree)
    → Within lo hi t
    → Holds id a t
    → (lo ≤ a.base) × (0 < a.size) × (a.base + a.size ≤ hi)
Holds-bounds id lo hi a leaf w h = absurd h
Holds-bounds id lo hi a (node l j b r) w (inl (e, same)) = ground arith
Holds-bounds id lo hi a (node l j b r) w (inr (inl h)) =
    omega (arith, Holds-bounds id lo b.base a l w.3 h)
Holds-bounds id lo hi a (node l j b r) w (inr (inr h)) =
    omega (arith, Holds-bounds id (b.base + b.size) hi a r w.4 h)

-- What `take_min` takes from a tree given by the parts of its root.
record Taken (x lo hi : ℕ) (t : Tree) (n : Area) (rest : Tree) : Type 0 where
  low : lo ≤ n.base
  size : 0 < n.size
  high : n.base + n.size ≤ hi
  within : Within (n.base + n.size) hi rest
  sees : area_at x t ≡ (if inside n x then some n else area_at x rest)

take_min-Taken :
    (x lo hi id : ℕ) (a : Area) (l r : Tree)
    → Within lo hi (node l id a r)
    → Taken x lo hi (node l id a r) (take_min l id a r).1 (take_min l id a r).2
unfolding take_min area_at
take_min-Taken x lo hi id a leaf r w = record {
  low = w.0;
  size = w.1;
  high = w.2;
  within = w.4;
  sees = ground arith;
}
take_min-Taken x lo hi id a (node ll j b lr) r w =
    let ih = take_min-Taken x lo a.base j b ll lr w.3 in
    record {
      low = ih.low;
      size = ih.size;
      high = omega (arith, ih.high, w.2);
      within = (ih.high, w.1, w.2, ih.within, w.4);
      sees = ground (arith, ih.sees, ih.high);
    }

-- Without the root's area the tree is still sorted, and shows what its two subtrees show.
remove_root-area :
    (x lo hi id : ℕ) (a : Area) (l r : Tree)
    → Within lo hi (node l id a r)
    → Within lo hi (remove_root l id r).0
      × (area_at x (remove_root l id r).0 ≡ or_else (area_at x l) (area_at x r))
unfolding remove_root area_at
remove_root-area x lo hi id a leaf r w =
    (Within-wider (a.base + a.size) lo hi hi r (omega arith) (omega arith) w.4, refl)
remove_root-area x lo hi id a (node ll j b lr) leaf w =
    (Within-wider lo lo a.base hi (node ll j b lr) (omega arith) (omega arith) w.3, ground arith)
remove_root-area x lo hi id a (node ll j b lr) (node rl k c rr) w =
    let taken = take_min-Taken x (a.base + a.size) hi k c rl rr w.4 in
    let n = (take_min rl k c rr).1 in
    let below = area_at-above x lo a.base (node ll j b lr) in
    (
      (
        omega (arith, taken.low),
        taken.size,
        taken.high,
        Within-wider lo lo a.base n.base (node ll j b lr) (omega arith) (omega (arith, taken.low))
            w.3,
        taken.within,
      ),
      ground (arith, taken.sees, taken.low, below),
    )

-- The outcome of a removal of the area `a`, at the address `x`.
pub record Removal (x lo hi : ℕ) (a : Area) (t t' : Tree) : Type 0 where
  pub within : Within lo hi t'
  pub sees : area_at x t' ≡ (if inside a x then none else area_at x t)

-- The walk finds a node of the tree, and its removal takes away its area and nothing else.
pub remove_loop-Removal :
    (x lo hi id : ℕ) (a : Area) (t : Tree)
    → Within lo hi t
    → Only id a t
    → Holds id a t
    → (t' : Tree) × (u : ℕ) × (remove_loop id a.base t ≡ some (t', u)) × Removal x lo hi a t t'
unfolding remove_loop area_at
remove_loop-Removal x lo hi id a leaf w o h = absurd h
remove_loop-Removal x lo hi id a (node l j b r) w o h = elim (ℕ_discrete j id) [
  | yes e ↦
      let same = o.0 e in
      let t : (j == id) ≡ true = ground arith in
      let root = remove_root-area x lo hi j b l r w in
      (
        (remove_root l j r).0,
        (remove_root l j r).1,
        rw t refl,
        record {
          within = root.0;
          sees =
              ground (
                arith,
                root.1,
                area_at-above x lo b.base l,
                area_at-below x (b.base + b.size) hi r,
              );
        },
      )
  | no ne ↦
      let t : (j == id) ≡ false = ground arith in
      elim h [
        | inl (e, _) ↦ absurd (ne e)
        | inr (inl hl) ↦
            let bounds = Holds-bounds id lo b.base a l w.3 hl in
            let (l', u, found, done) = remove_loop-Removal x lo b.base id a l w.3 o.1 hl in
            let lt : ltb a.base b.base ≡ true = ground (arith, bounds) in
            (
              node l' j b r,
              u,
              rw (t, lt, found) refl,
              record {
                within = (w.0, w.1, w.2, done.within, w.4);
                sees = ground (
                  arith,
                  done.sees,
                  bounds,
                  area_at-above x lo b.base l,
                  area_at-below x (b.base + b.size) hi r,
                );
              },
            )
        | inr (inr hr) ↦
            let bounds = Holds-bounds id (b.base + b.size) hi a r w.4 hr in
            let (r', u, found, done) =
              remove_loop-Removal x (b.base + b.size) hi id a r w.4 o.2 hr in
            let lt : ltb a.base b.base ≡ false = ground (arith, bounds) in
            (
              node l j b r',
              u,
              rw (t, lt, found) refl,
              record {
                within = (w.0, w.1, w.2, w.3, done.within);
                sees = ground (arith, done.sees, bounds, area_at-above x lo b.base l);
              },
            )
      ]
]
