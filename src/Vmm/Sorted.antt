-- ===== src/Vmm/Sorted.antt =====
-- The tree of vmm.c as a search tree of disjoint areas, and the walk of `find_vma` on it.
use native.Mathlib.Decide.{dec_le}
use arm_os.Base.{
  ℕ, ◌+◌, ◌<◌, ◌≤◌, ◌≡◌, refl, arith, Bool, true, false, ◌&&◌, Option, none, some, ltb, leb,
  if◌then◌else◌, Bool-cases, inl, inr, ◌⊎◌, Unit, tt, u64_mod,
}
use arm_os.Vmm.Area.{Area}
use arm_os.Vmm.Tree.{Tree, leaf, node, find_loop, insert}

abbrev pub inside : Area → ℕ → Bool
inside a x = leb a.base x && ltb x (a.base + a.size)

abbrev pub or_else : Option Area → Option Area → Option Area
or_else (some a) o = some a
or_else none o = o

-- The reference: the area of the tree that covers `x`, found by a look at every node.
unfoldable pub area_at : ℕ → Tree → Option Area
area_at x leaf = none
area_at x (node l id a r) = if inside a x then some a else or_else (area_at x l) (area_at x r)

-- The areas are not empty, in order, disjoint, and between `lo` and `hi`.
abbrev pub Within : (lo hi : ℕ) → Tree → Type 0
Within lo hi leaf = Unit
Within lo hi (node l id a r) =
    (lo ≤ a.base)
    × (0 < a.size)
    × (a.base + a.size ≤ hi)
    × Within lo a.base l
    × Within (a.base + a.size) hi r

pub area_at-below : (x lo hi : ℕ) (t : Tree) → x < lo → Within lo hi t → area_at x t ≡ none
unfolding area_at
area_at-below x lo hi leaf h w = refl
area_at-below x lo hi (node l id a r) h w =
    ground (arith, area_at-below x lo a.base l, area_at-below x (a.base + a.size) hi r)

pub area_at-above : (x lo hi : ℕ) (t : Tree) → hi ≤ x → Within lo hi t → area_at x t ≡ none
unfolding area_at
area_at-above x lo hi leaf h w = refl
area_at-above x lo hi (node l id a r) h w =
    ground (arith, area_at-above x lo a.base l, area_at-above x (a.base + a.size) hi r)

abbrev pub area_of_pair : Option (ℕ × Area) → Option Area
area_of_pair none = none
area_of_pair (some (id, a)) = some a

-- On such a tree the search finds what the look at every node finds.
pub find_loop-eq :
    (x lo hi : ℕ) (t : Tree)
    → hi < u64_mod
    → Within lo hi t
    → area_of_pair (find_loop x t) ≡ area_at x t
unfolding area_at find_loop
find_loop-eq x lo hi leaf h w = refl
find_loop-eq x lo hi (node l id a r) h w =
    let left = find_loop-eq x lo a.base l (omega arith) w.3 in
    let right = find_loop-eq x (a.base + a.size) hi r h w.4 in
    ground (arith, left, right, area_at-above x lo a.base l, area_at-below x (a.base + a.size) hi r)

-- A new area shows where it lies and nowhere else, if the tree has nothing there.
pub area_at-insert :
    (x id : ℕ) (a : Area) (t : Tree)
    → (inside a x ≡ true → area_at x t ≡ none)
    → area_at x (insert id a t) ≡ (if inside a x then some a else area_at x t)
unfolding area_at insert
area_at-insert x id a leaf h = ground arith
area_at-insert x id a (node l j b r) h =
    ground (arith, h, area_at-insert x id a l, area_at-insert x id a r)

nothing_there :
    (y id : ℕ) (a : Area) (l r : Tree)
    → area_at y (node l id a r) ≡ none
    → (inside a y ≡ false) × (area_at y l ≡ none) × (area_at y r ≡ none)
unfolding area_at
nothing_there y id a l r h = (ground arith, ground arith, ground arith)

pub insert-Within :
    (lo hi id : ℕ) (a : Area) (t : Tree)
    → Within lo hi t
    → lo ≤ a.base
    → 0 < a.size
    → a.base + a.size ≤ hi
    → ((y : ℕ) → a.base ≤ y → y < a.base + a.size → area_at y t ≡ none)
    → Within lo hi (insert id a t)
unfolding area_at insert
insert-Within lo hi id a leaf w l s u h = (l, s, u, tt, tt)
insert-Within lo hi id a (node l j b r) w low s u h =
    let away : (a.base + a.size ≤ b.base) ⊎ (b.base + b.size ≤ a.base) =
      elim (Bool-cases (ltb a.base b.base)) [
        | inl e ↦ elim (dec_le (a.base + a.size) b.base) [
          | yes q ↦ inl q
          | no q ↦
              absurd (
                ground
                  (arith, nothing_there b.base j b l r (h b.base (ground arith) (omega arith))))
        ]
        | inr e ↦ elim (dec_le (b.base + b.size) a.base) [
          | yes q ↦ inr q
          | no q ↦
              absurd (
                ground (arith, nothing_there a.base j b l r (h a.base (omega arith) (omega arith))))
        ]
      ] in
    elim away [
      | inl before ↦
          let e : ltb a.base b.base ≡ true = ground arith in
          rw e (
            w.0,
            w.1,
            w.2,
            insert-Within lo b.base id a l w.3 low s before
                (λ y p q. (nothing_there y j b l r (h y p q)).1),
            w.4,
          )
      | inr after ↦
          let e : ltb a.base b.base ≡ false = ground arith in
          rw e (
            w.0,
            w.1,
            w.2,
            w.3,
            insert-Within (b.base + b.size) hi id a r w.4 after s u
                (λ y p q. (nothing_there y j b l r (h y p q)).2),
          )
    ]
