-- ===== src/Vmm/Reserving.antt =====
-- `vmm_reserve` of vmm.c: on a free range it does what it should, and its check of the two ends lets
-- a range through that holds a whole area.
use arm_os.Base.{
  ℕ, ◌+◌, ◌-◌, ◌%◌, ◌<◌, ◌≤◌, ◌≡◌, refl, ap, ◌∙◌, arith, Option, none, some, false, if◌then◌else◌,
  ltb, inl, inr, List, ◌∷◌, u64_mod, Option-cases, Bool-cases, align_up, add64, sub64, Result, ok,
  tt, Unit,
}
use arm_os.Vmm.Area.{Area, guard}
use arm_os.Vmm.Tree.{Tree, leaf, node, insert}
use arm_os.Vmm.State.{Backend, Space, Vmm}
use arm_os.Vmm.Pool.{vma_alloc-front}
use arm_os.Vmm.Space.{find_vma, insert_vma}
use arm_os.Vmm.Mapping.{is_some, collides, vmm_reserve}
use arm_os.Vmm.Sorted.{area_at, Within, area_at-insert}
use arm_os.Vmm.Removed.{Holds, Holds-bounds}
use arm_os.Vmm.Lookup.{Holds-area_at, find_vma-eq, find_vma-tree}
use arm_os.Vmm.Sound.{IsSound, insert-IsSound}
use arm_os.Vmm.Freeing.{traits, in_range}

abbrev pub guard_area : (base size : ℕ) → Area
guard_area base size = record {
  base = base;
  size = size;
  flags = 0;
  kind = guard;
  is_paged = false;
}

find_vma-miss :
    (x hi : ℕ) (s : Space)
    → hi < u64_mod
    → Within 0 hi s.vma_head
    → area_at x s.vma_head ≡ none
    → (find_vma x s).0 ≡ none
find_vma-miss x hi s h w e =
    let found = find_vma-eq x 0 hi s h w in
    elim (Option-cases (find_vma x s).0) [ inl n ↦ n | inr ((id, a), q) ↦ absurd (ground arith) ]

collides-miss :
    (vaddr sz hi : ℕ) (s : Space)
    → hi < u64_mod
    → Within 0 hi s.vma_head
    → area_at vaddr s.vma_head ≡ none
    → area_at (sub64 (add64 vaddr sz) 1) s.vma_head ≡ none
    → ((collides vaddr sz s).0 ≡ false) × ((collides vaddr sz s).1.vma_head ≡ s.vma_head)
unfolding collides
collides-miss vaddr sz hi s h w first last =
    let t = (find_vma vaddr s).1 in
    let tree = find_vma-tree vaddr s in
    let e = find_vma-miss vaddr hi s h w first in
    let e' = find_vma-miss (sub64 (add64 vaddr sz) 1) hi t h (rw tree w) (rw tree last) in
    let past = find_vma-tree (sub64 (add64 vaddr sz) 1) t in rw e (ap is_some e', past ∙ tree)

Holds-insert_self : (n : ℕ) (a : Area) (t : Tree) → Holds n a (insert n a t)
unfolding insert
Holds-insert_self n a leaf = inl (refl, refl)
Holds-insert_self n a (node l j b r) = elim (Bool-cases (ltb a.base b.base)) [
  | inl e ↦ rw e (inr (inl (Holds-insert_self n a l)))
  | inr e ↦ rw e (inr (inr (Holds-insert_self n a r)))
]

Holds-insert : (id n : ℕ) (c a : Area) (t : Tree) → Holds id c t → Holds id c (insert n a t)
unfolding insert
Holds-insert id n c a leaf h = absurd h
Holds-insert id n c a (node l j b r) h = elim (Bool-cases (ltb a.base b.base)) [
  | inl e ↦ rw e (elim h [
    | inl here ↦ inl here
    | inr (inl hl) ↦ inr (inl (Holds-insert id n c a l hl))
    | inr (inr hr) ↦ inr (inr hr)
  ])
  | inr e ↦ rw e (elim h [
    | inl here ↦ inl here
    | inr (inl hl) ↦ inr (inl hl)
    | inr (inr hr) ↦ inr (inr (Holds-insert id n c a r hr))
  ])
]

module _ (hi : ℕ) (others : ℕ → ℕ) where
  -- The call succeeded, and the range is a guard area; all else is as it was.
  pub record IsReserved {b : Backend} (vaddr sz : ℕ) (s : Space)
      (r : Result (Unit {0}) × Space × Vmm b) : Type 0 where
    pub done : r.0 ≡ ok tt
    pub sound : IsSound hi others r.1.vma_head r.2.vma_free_list
    pub sees :
        (x : ℕ)
        → traits (area_at x r.1.vma_head)
          ≡ (if in_range vaddr sz x then some (0, guard, false) else traits (area_at x s.vma_head))

  module _ {b : Backend} (vaddr sz n : ℕ) (rest : List ℕ) (s : Space) (v : Vmm b)
      (k : IsSound hi others s.vma_head v.vma_free_list) (pos : 0 < sz) (pages : sz % 4096 ≡ 0)
      (below : vaddr + sz < u64_mod) (p : v.vma_free_list ≡ n ∷ rest) where
    reserve-tree :
        area_at vaddr s.vma_head ≡ none
        → area_at (vaddr + sz - 1) s.vma_head ≡ none
        → ((vmm_reserve vaddr sz s v).0 ≡ ok tt)
          × ((vmm_reserve vaddr sz s v).1.vma_head ≡ insert n (guard_area vaddr sz) s.vma_head)
          × ((vmm_reserve vaddr sz s v).2.vma_free_list ≡ rest)
    unfolding vmm_reserve insert_vma
    reserve-tree first last =
        let size : align_up sz 4096 ≡ sz = omega arith in
        let end : sub64 (add64 vaddr sz) 1 ≡ vaddr + sz - 1 = omega arith in
        let free = collides-miss vaddr sz hi s k.bound k.within first (rw end last) in
        let fresh = vma_alloc-front v p in
        let c' : (collides vaddr (align_up sz 4096) s).0 ≡ false = rw size free.0 in
        rw (c', fresh, vmm_reserve)
          (refl, rw (size, free.1) refl, ap (λ (q : Option ℕ × Vmm b). q.1.vma_free_list) fresh)

    -- Reserving whole pages that no area touches, with a node in the pool, succeeds: the range is a
    -- guard area with no pages behind it, every other address is as it was, and the space is sound.
    pub vmm_reserve_exact :
        vaddr + sz ≤ hi
        → ((y : ℕ) → vaddr ≤ y → y < vaddr + sz → area_at y s.vma_head ≡ none)
        → IsReserved vaddr sz s (vmm_reserve vaddr sz s v)
    vmm_reserve_exact ends free =
        let new = guard_area vaddr sz in
        let (done, tree, pool) =
          reserve-tree (free vaddr (omega arith) (omega arith))
            (free (vaddr + sz - 1) (omega arith) (omega arith)) in
        record {
          done = done;
          sound =
              rw (tree, pool)
                (insert-IsSound hi others n new s.vma_head rest (rw p at k) pos ends free);
          sees = λ x.
              let add =
                area_at-insert x n new s.vma_head (λ g. free x (ground arith) (ground arith)) in
              rw tree (ground (arith, add));
        }

    -- In a sound space with a node in the pool, reserving whole pages whose first and last address lie
    -- in no area succeeds although an area lies between them, and the areas of the tree are then not
    -- disjoint.
    pub vmm_reserve_overlaps :
        (id : ℕ) (a : Area)
        → Holds id a s.vma_head
        → vaddr < a.base
        → a.base + a.size < vaddr + sz
        → area_at vaddr s.vma_head ≡ none
        → area_at (vaddr + sz - 1) s.vma_head ≡ none
        → ((vmm_reserve vaddr sz s v).0 ≡ ok tt)
          × ((lo top : ℕ) → ¬ Within lo top (vmm_reserve vaddr sz s v).1.vma_head)
    vmm_reserve_overlaps id a h l u first last =
        let (done, tree, pool) = reserve-tree first last in
        let new = guard_area vaddr sz in
        (
          done,
          λ lo top w.
              let w' : Within lo top (insert n new s.vma_head) = rw tree at w in
              let held = Holds-insert id n a new s.vma_head h in
              let mine = Holds-insert_self n new s.vma_head in
              let some_bytes = Holds-bounds id lo top a (insert n new s.vma_head) w' held in
              let one = Holds-area_at a.base id lo top a _ w' held (ground (arith, some_bytes)) in
              let two = Holds-area_at a.base n lo top new _ w' mine (ground (arith, some_bytes)) in
              absurd (ground (arith, one, two)),
        )
