-- ===== src/Vmm/Gaps/Measure.antt =====
-- The measure of the scan of `find_unmapped_area` of vmm.c.
use arm_os.Base.{ℕ, ◌+◌, ◌<◌, ◌≤◌, arith, if◌then◌else◌, ltb, inl, inr}
use arm_os.Vmm.Area.{Area}
use arm_os.Vmm.Tree.{Tree, leaf, node, node_count}
use arm_os.Vmm.Removed.{Holds}

-- How many areas end after an address: the measure of the scan.
pub count_above : ℕ → Tree → ℕ
count_above x leaf = 0
count_above x (node l id a r) =
    (if ltb x (a.base + a.size) then 1 else 0) + count_above x l + count_above x r

pub count_above-le : (x : ℕ) (t : Tree) → count_above x t ≤ node_count t
unfolding count_above node_count
count_above-le x leaf = omega arith
count_above-le x (node l id a r) = ground (arith, count_above-le x l, count_above-le x r)

count_above-anti : (x y : ℕ) (t : Tree) → x ≤ y → count_above y t ≤ count_above x t
unfolding count_above
count_above-anti x y leaf h = omega arith
count_above-anti x y (node l id a r) h =
    ground (arith, count_above-anti x y l h, count_above-anti x y r h)

pub count_above-lt :
    (x y id : ℕ) (a : Area) (t : Tree)
    → Holds id a t
    → x < a.base + a.size
    → a.base + a.size ≤ y
    → count_above y t < count_above x t
unfolding count_above
count_above-lt x y id a leaf h p q = absurd h
count_above-lt x y id a (node l j b r) (inl (e, same)) p q =
    ground (arith, count_above-anti x y l, count_above-anti x y r)
count_above-lt x y id a (node l j b r) (inr (inl h)) p q =
    ground (arith, count_above-lt x y id a l h p q, count_above-anti x y r)
count_above-lt x y id a (node l j b r) (inr (inr h)) p q =
    ground (arith, count_above-lt x y id a r h p q, count_above-anti x y l)
