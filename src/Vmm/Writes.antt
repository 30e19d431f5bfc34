-- ===== src/Vmm/Writes.antt =====
-- A write through a pointer to a node of the tree of vmm.c that makes its area smaller, or keeps it.
use arm_os.Base.{
  ℕ, ◌+◌, ◌<◌, ◌≤◌, ◌≡◌, refl, arith, none, some, ◌==◌, true, false, if◌then◌else◌, inl, inr,
}
use arm_os.Vmm.Area.{Area}
use arm_os.Vmm.Tree.{Tree, leaf, node, update_area}
use arm_os.Vmm.Sorted.{inside, area_at, Within, area_at-below, area_at-above}
use arm_os.Vmm.Removed.{Holds, Only, Holds-bounds, Within-wider}

-- A tree whose areas lie elsewhere is not written.
update_area-below :
    (id lo hi : ℕ) (a : Area) (f : Area → Area) (t : Tree)
    → a.base < lo
    → Within lo hi t
    → Only id a t
    → update_area id f t ≡ t
unfolding update_area
update_area-below id lo hi a f leaf q w o = refl
update_area-below id lo hi a f (node l j b r) q w o = ground (
  arith,
  o.0,
  update_area-below id lo b.base a f l,
  update_area-below id (b.base + b.size) hi a f r,
)

update_area-above :
    (id lo hi : ℕ) (a : Area) (f : Area → Area) (t : Tree)
    → hi ≤ a.base
    → Within lo hi t
    → Only id a t
    → update_area id f t ≡ t
unfolding update_area
update_area-above id lo hi a f leaf q w o = refl
update_area-above id lo hi a f (node l j b r) q w o = ground (
  arith,
  o.0,
  update_area-above id lo b.base a f l,
  update_area-above id (b.base + b.size) hi a f r,
)

-- The outcome of a write of the area `c` to the node of `a`, at the address `x`.
pub record Written (x lo hi : ℕ) (a c : Area) (t t' : Tree) : Type 0 where
  pub within : Within lo hi t'
  pub sees :
      area_at x t' ≡ (if inside c x then some c else if inside a x then none else area_at x t)

write_here :
    (x lo hi id : ℕ) (a c : Area) (l r : Tree)
    → Within lo hi (node l id a r)
    → a.base ≤ c.base
    → 0 < c.size
    → c.base + c.size ≤ a.base + a.size
    → Written x lo hi a c (node l id a r) (node l id c r)
unfolding area_at
write_here x lo hi id a c l r w p q s = record {
  within = (
    omega arith,
    q,
    omega arith,
    Within-wider lo lo a.base c.base l (omega arith) p w.3,
    Within-wider (a.base + a.size) (c.base + c.size) hi hi r s (omega arith) w.4,
  );
  sees = ground (arith, area_at-above x lo a.base l, area_at-below x (a.base + a.size) hi r);
}

pub update_area-Written :
    (x lo hi id : ℕ) (a : Area) (f : Area → Area) (t : Tree)
    → Within lo hi t
    → Only id a t
    → Holds id a t
    → a.base ≤ (f a).base
    → 0 < (f a).size
    → (f a).base + (f a).size ≤ a.base + a.size
    → Written x lo hi a (f a) t (update_area id f t)
unfolding update_area area_at
update_area-Written x lo hi id a f leaf w o h p q s = absurd h
update_area-Written x lo hi id a f (node l j b r) w o h p q s = elim h [
  | inl (e, same) ↦
      let l' = update_area-above id lo b.base a f l (ground arith) w.3 o.1 in
      let r' = update_area-below id (b.base + b.size) hi a f r (ground arith) w.4 o.2 in
      let t : (j == id) ≡ true = ground arith in
      rw (t, l', r', same) (write_here x lo hi j a (f a) l r (rw same at w) p q s)
  | inr (inl hl) ↦
      let bounds = Holds-bounds id lo b.base a l w.3 hl in
      let ih = update_area-Written x lo b.base id a f l w.3 o.1 hl p q s in
      let r' = update_area-below id (b.base + b.size) hi a f r (omega arith) w.4 o.2 in
      let t : (j == id) ≡ false = ground (arith, o.0) in
      rw (t, r')
        (record {
          within = (w.0, w.1, w.2, ih.within, w.4);
          sees = ground (
            arith,
            ih.sees,
            bounds,
            area_at-above x lo b.base l,
            area_at-below x (b.base + b.size) hi r,
          );
        })
  | inr (inr hr) ↦
      let bounds = Holds-bounds id (b.base + b.size) hi a r w.4 hr in
      let ih = update_area-Written x (b.base + b.size) hi id a f r w.4 o.2 hr p q s in
      let l' = update_area-above id lo b.base a f l (omega arith) w.3 o.1 in
      let t : (j == id) ≡ false = ground (arith, o.0) in
      rw (t, l')
        (record {
          within = (w.0, w.1, w.2, w.3, ih.within);
          sees = ground (arith, ih.sees, bounds, area_at-above x lo b.base l);
        })
]
