-- ===== src/Vmm/Nodes.antt =====
-- How the nodes of vmm.c move: every node is in one tree or on the free list, once.
use arm_os.Base.{
  ℕ, ◌+◌, ◌≤◌, ◌≡◌, refl, sym, ◌∙◌, arith, some, ◌==◌, ltb, if◌then◌else◌, Bool-cases, inl, inr, tt,
  Option-cases, true,
}
use arm_os.Vmm.Area.{Area}
use arm_os.Vmm.Tree.{
  Tree, leaf, node, find_loop, insert, take_min, remove_root, remove_loop, area_of, update_area,
}
use arm_os.Vmm.Area.{covers}
use arm_os.Vmm.Removed.{Holds, Only}

abbrev pub one_if : ℕ → ℕ → ℕ
one_if n i = if n == i then 1 else 0

-- How many nodes of the tree have the address `i`.
unfoldable pub nodes_at : ℕ → Tree → ℕ
nodes_at i leaf = 0
nodes_at i (node l j a r) = one_if j i + nodes_at i l + nodes_at i r

pub nodes_at-insert :
    (i n : ℕ) (a : Area) (t : Tree) → nodes_at i (insert n a t) ≡ one_if n i + nodes_at i t
unfolding nodes_at insert
nodes_at-insert i n a leaf = omega arith
nodes_at-insert i n a (node l j b r) = elim (Bool-cases (ltb a.base b.base)) [
  | inl e ↦ rw e (omega (arith, nodes_at-insert i n a l))
  | inr e ↦ rw e (omega (arith, nodes_at-insert i n a r))
]

pub nodes_at-update_area :
    (i id : ℕ) (f : Area → Area) (t : Tree) → nodes_at i (update_area id f t) ≡ nodes_at i t
unfolding nodes_at update_area
nodes_at-update_area i id f leaf = refl
nodes_at-update_area i id f (node l j b r) =
    omega (arith, nodes_at-update_area i id f l, nodes_at-update_area i id f r)

nodes_at-take_min :
    (i id : ℕ) (a : Area) (l r : Tree)
    → one_if (take_min l id a r).0 i + nodes_at i (take_min l id a r).2
      ≡ one_if id i + nodes_at i l + nodes_at i r
unfolding nodes_at take_min
nodes_at-take_min i id a leaf r = omega arith
nodes_at-take_min i id a (node ll j b lr) r = omega (arith, nodes_at-take_min i j b ll lr)

nodes_at-remove_root :
    (i id : ℕ) (l r : Tree)
    → one_if (remove_root l id r).1 i + nodes_at i (remove_root l id r).0
      ≡ one_if id i + nodes_at i l + nodes_at i r
unfolding nodes_at remove_root
nodes_at-remove_root i id leaf r = omega arith
nodes_at-remove_root i id (node ll j b lr) leaf = omega arith
nodes_at-remove_root i id (node ll j b lr) (node rl k c rr) =
    omega (arith, nodes_at-take_min i k c rl rr)

-- A removal unlinks one node and keeps the others.
pub nodes_at-remove_loop :
    (i id base : ℕ) (t : Tree) {t' : Tree} {u : ℕ}
    → remove_loop id base t ≡ some (t', u)
    → one_if u i + nodes_at i t' ≡ nodes_at i t
unfolding nodes_at remove_loop
nodes_at-remove_loop i id base leaf e = cc
nodes_at-remove_loop i id base (node l j b r) e = elim (Bool-cases (j == id)) [
  | inl here ↦ ground (arith, nodes_at-remove_root i j l r)
  | inr away ↦ elim (Bool-cases (ltb base b.base)) [
    | inl low ↦ elim (Option-cases (remove_loop id base l)) [
      | inl n ↦ absurd (cc (rw (away, low, n) at e))
      | inr ((l', v), q) ↦ ground (arith, nodes_at-remove_loop i id base l q)
    ]
    | inr high ↦ elim (Option-cases (remove_loop id base r)) [
      | inl n ↦ absurd (cc (rw (away, high, n) at e))
      | inr ((r', v), q) ↦ ground (arith, nodes_at-remove_loop i id base r q)
    ]
  ]
]

Holds-nodes_at : (id : ℕ) (a : Area) (t : Tree) → Holds id a t → 1 ≤ nodes_at id t
unfolding nodes_at
Holds-nodes_at id a leaf h = absurd h
Holds-nodes_at id a (node l j b r) (inl (e, _)) = ground arith
Holds-nodes_at id a (node l j b r) (inr (inl h)) = omega (arith, Holds-nodes_at id a l h)
Holds-nodes_at id a (node l j b r) (inr (inr h)) = omega (arith, Holds-nodes_at id a r h)

Only-absent : (id : ℕ) (a : Area) (t : Tree) → nodes_at id t ≡ 0 → Only id a t
unfolding nodes_at
Only-absent id a leaf z = tt
Only-absent id a (node l j b r) z = (
  λ e. absurd (ground arith),
  Only-absent id a l (ground arith),
  Only-absent id a r (ground arith),
)

-- A node that is in the tree once is the only one of its address.
pub Only-once : (id : ℕ) (a : Area) (t : Tree) → Holds id a t → nodes_at id t ≤ 1 → Only id a t
unfolding nodes_at
Only-once id a leaf h u = tt
Only-once id a (node l j b r) (inl (e, same)) u =
    (λ _. same, Only-absent id a l (ground arith), Only-absent id a r (ground arith))
Only-once id a (node l j b r) (inr (inl h)) u =
    let one = Holds-nodes_at id a l h in
    (λ e. absurd (ground arith), Only-once id a l h (omega arith), Only-absent id a r (omega arith))
Only-once id a (node l j b r) (inr (inr h)) u =
    let one = Holds-nodes_at id a r h in
    (λ e. absurd (ground arith), Only-absent id a l (omega arith), Only-once id a r h (omega arith))

pub find_loop-Holds :
    (x : ℕ) (t : Tree) {id : ℕ} {a : Area}
    → find_loop x t ≡ some (id, a)
    → Holds id a t × (covers a x ≡ true)
unfolding find_loop
find_loop-Holds x leaf e = cc
find_loop-Holds x (node l j b r) e = elim (Bool-cases (covers b x)) [
  | inl c ↦ (inl (ground arith, ground arith), ground arith)
  | inr c ↦ elim (Bool-cases (ltb x b.base)) [
    | inl low ↦ let (h, y) = find_loop-Holds x l (ground arith) in (inr (inl h), y)
    | inr high ↦ let (h, y) = find_loop-Holds x r (ground arith) in (inr (inr h), y)
  ]
]

pub area_of-Holds : (id : ℕ) (t : Tree) {a : Area} → area_of id t ≡ some a → Holds id a t
unfolding area_of
area_of-Holds id leaf e = cc
area_of-Holds id (node l j b r) e = elim (Bool-cases (j == id)) [
  | inl here ↦ inl (ground arith, ground arith)
  | inr away ↦ elim (Option-cases (area_of id l)) [
    | inl n ↦ inr (inr (area_of-Holds id r (ground arith)))
    | inr (c, q) ↦ inr (inl (area_of-Holds id l (ground arith)))
  ]
]

Holds-Only : (id : ℕ) (a c : Area) (t : Tree) → Only id a t → Holds id c t → c ≡ a
Holds-Only id a c leaf o h = absurd h
Holds-Only id a c (node l j b r) o (inl (e, same)) = sym same ∙ o.0 e
Holds-Only id a c (node l j b r) o (inr (inl h)) = Holds-Only id a c l o.1 h
Holds-Only id a c (node l j b r) o (inr (inr h)) = Holds-Only id a c r o.2 h

pub Holds-area_of :
    (id : ℕ) (a : Area) (t : Tree) → Only id a t → Holds id a t → area_of id t ≡ some a
unfolding area_of
Holds-area_of id a leaf o h = absurd h
Holds-area_of id a (node l j b r) o h = elim (Bool-cases (j == id)) [
  | inl here ↦ let same = o.0 (ground arith) in ground arith
  | inr away ↦ elim (Option-cases (area_of id l)) [
    | inr (c, q) ↦ let same = Holds-Only id a c l o.1 (area_of-Holds id l q) in ground arith
    | inl n ↦ elim h [
      | inl (e, _) ↦ absurd (ground arith)
      | inr (inl hl) ↦ absurd (ground (arith, Holds-area_of id a l o.1 hl))
      | inr (inr hr) ↦ ground (arith, Holds-area_of id a r o.2 hr)
    ]
  ]
]
