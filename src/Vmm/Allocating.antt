-- ===== src/Vmm/Allocating.antt =====
-- `vmm_allocate` of vmm.c: what it maps, and what it leaves behind when it fails.
use arm_os.Base.{
  ℕ, ◌+◌, ◌/◌, ◌%◌, ◌<◌, ◌≤◌, ◌≡◌, refl, ap, sym, ◌∙◌, arith, none, some, true, false,
  if◌then◌else◌, ◌==◌, leb, inl, inr, ◌⊎◌, List, ◌∷◌, u64_mod, Option-cases, Bool-cases, align_up,
  Result, ok, err, enomem,
}
use arm_os.Vmm.Area.{RegionType}
use arm_os.Vmm.Tree.{Tree}
use arm_os.Vmm.State.{Backend, Space, Vmm}
use arm_os.Vmm.Slabs.{vma_free}
use arm_os.Vmm.Pool.{vma_alloc-front}
use arm_os.Vmm.Space.{find_unmapped_area, insert_vma}
use arm_os.Vmm.Editing.{vmm_free}
use arm_os.Vmm.Mapping.{
  paged_area, map_loop, allocate_node, allocate_at, allocate_fresh, vmm_allocate,
}
use arm_os.Vmm.Sorted.{area_at, area_at-insert}
use arm_os.Vmm.Sound.{IsSound, insert-IsSound}
use arm_os.Vmm.Freeing.{traits, in_range, vmm_free-unmapped}
use arm_os.Vmm.Gaps.{InPages, IsGap, find_unmapped_area-IsGap, find_unmapped_area-tree}

drop_node :
    (hi : ℕ) (others : ℕ → ℕ) (n : ℕ) (t : Tree) (rest : List ℕ)
    → IsSound hi others t (n ∷ rest)
    → IsSound hi others t rest
drop_node hi others n t rest k = record {
  bound = k.bound;
  within = k.within;
  once = λ i. omega (arith, k.once i);
  not_null = omega (arith, k.not_null);
}

vma_free-IsSound :
    {b : Backend} (hi : ℕ) (others : ℕ → ℕ) (n : ℕ) (t : Tree) (rest : List ℕ) (w : Vmm b)
    → IsSound hi others t (n ∷ rest)
    → w.vma_free_list ≡ rest
    → IsSound hi others t (vma_free n w).vma_free_list
unfolding vma_free
vma_free-IsSound hi others n t rest w k e = elim (Bool-cases (n == 0)) [
  | inl z ↦ rw (z, e) (drop_node hi others n t rest k)
  | inr nz ↦ rw (nz, e) k
]

vma_free-hw : {b : Backend} (n : ℕ) (w : Vmm b) → (vma_free n w).hw ≡ w.hw
unfolding vma_free
vma_free-hw n w = ground arith

module _ (hi : ℕ) (others : ℕ → ℕ) where
  -- The range was free, and is now paged with the flags and the type; all else is as it was.
  pub record IsAllocated {b : Backend} (target sz flags : ℕ) (kind : RegionType) (s : Space)
      (r : Result ℕ × Space × Vmm b) : Type 0 where
    pub done : r.0 ≡ ok target
    pub fresh : (y : ℕ) → target ≤ y → y < target + sz → area_at y s.vma_head ≡ none
    pub sound : IsSound hi others r.1.vma_head r.2.vma_free_list
    pub sees :
        (x : ℕ)
        → traits (area_at x r.1.vma_head) ≡ (
            if in_range target sz x
            then some (flags, kind, true)
            else traits (area_at x s.vma_head))

  -- The areas and the pool are as they were.
  pub record IsFailed {b : Backend} (s : Space) (r : Result ℕ × Space × Vmm b) : Type 0 where
    pub failed : r.0 ≡ err enomem
    pub tree : r.1.vma_head ≡ s.vma_head
    pub sound : IsSound hi others r.1.vma_head r.2.vma_free_list

  module _ {b : Backend} (root target sz flags n : ℕ) (kind : RegionType) (rest : List ℕ)
      (s : Space) (v : Vmm b) (k : IsSound hi others s.vma_head v.vma_free_list)
      (p : v.vma_free_list ≡ n ∷ rest) (pos : 0 < sz) (top : target + sz ≤ hi)
      (fresh : (y : ℕ) → target ≤ y → y < target + sz → area_at y s.vma_head ≡ none) where
    allocate_node_ends :
        IsAllocated target sz flags kind s
          (allocate_node root target sz flags kind n s (record v { vma_free_list = rest }))
        ⊎ IsFailed s
            (allocate_node root target sz flags kind n s (record v { vma_free_list = rest }))
    unfolding allocate_node insert_vma vma_free
    allocate_node_ends =
        let a = paged_area target sz flags kind in
        let loop = map_loop b (sz / 4096) root target 0 flags v.hw in
        let k' : IsSound hi others s.vma_head (n ∷ rest) = rw p at k in
        elim (Option-cases loop.0) [
          | inl mapped ↦ inl (
              rw (mapped, allocate_node)
                (record {
                  done = refl;
                  fresh = fresh;
                  sound = insert-IsSound hi others n a s.vma_head rest k' pos top fresh;
                  sees = λ x.
                      let add =
                        area_at-insert x n a s.vma_head
                          (λ g. fresh x (ground arith) (ground arith)) in
                      ground (arith, add);
                }))
          | inr (i, stopped) ↦
              let left = record v { vma_free_list = rest; hw = loop.1 } in
              let pool = drop_node hi others n s.vma_head rest k' in
              let none_freed =
                vmm_free-unmapped hi others root target i s left pool
                  (fresh target (omega arith) (omega arith)) in
              inr (
                rw (stopped, allocate_node)
                  (record {
                    failed = refl;
                    tree = none_freed.0;
                    sound = rw (none_freed.0) (
                        vma_free-IsSound hi others n s.vma_head rest
                          (vmm_free root target i s left).2 k'
                          (ap (λ (u : Vmm b). u.vma_free_list) none_freed.1));
                  }))
        ]

  allocate_at-eq :
      {b : Backend} (root target sz flags n : ℕ) (kind : RegionType) (rest : List ℕ) (s : Space)
      (v : Vmm b)
      → v.vma_free_list ≡ n ∷ rest
      → allocate_at root target sz flags kind s v
        ≡ allocate_node root target sz flags kind n s (record v { vma_free_list = rest })
  unfolding allocate_at
  allocate_at-eq root target sz flags n kind rest s v p = ground (arith, vma_alloc-front v p)

  -- What an allocation can come to.
  abbrev pub Outcome :
      {b : Backend} (sz flags : ℕ) → RegionType → Space → Result ℕ × Space × Vmm b → Type 0
  Outcome sz flags kind s r =
      ((target : ℕ) × (target % 4096 ≡ 0) × IsAllocated target sz flags kind s r) ⊎ IsFailed s r

  Outcome-same :
      {b : Backend} (sz flags : ℕ) (kind : RegionType) (s t : Space) (r : Result ℕ × Space × Vmm b)
      → t.vma_head ≡ s.vma_head
      → Outcome sz flags kind t r
      → Outcome sz flags kind s r
  Outcome-same sz flags kind s t r e (inr f) =
      inr (record { failed = f.failed; tree = f.tree ∙ e; sound = f.sound })
  Outcome-same sz flags kind s t r e (inl (target, al, f)) = inl (
    target,
    al,
    record {
      done = f.done;
      fresh = λ y p q. ap (area_at y) (sym e) ∙ f.fresh y p q;
      sound = f.sound;
      sees = λ x.
          f.sees x
          ∙ ap
              (λ (u : Tree).
                if in_range target sz x then some (flags, kind, true) else traits (area_at x u))
              e;
    },
  )

  with_target :
      {b : Backend} {sz flags : ℕ} {kind : RegionType} {s : Space} {r : Result ℕ × Space × Vmm b}
      (target : ℕ)
      → target % 4096 ≡ 0
      → IsAllocated target sz flags kind s r ⊎ IsFailed s r
      → Outcome sz flags kind s r
  with_target target al (inl f) = inl (target, al, f)
  with_target target al (inr f) = inr f

  allocate_fresh-Outcome :
      {b : Backend} (root hint sz flags n r : ℕ) (kind : RegionType) (rest : List ℕ) (s : Space)
      (v : Vmm b)
      → IsSound hi others s.vma_head v.vma_free_list
      → 0x7FFF_FFFF_F001 ≤ hi
      → 0 < sz
      → v.vma_free_list ≡ n ∷ rest
      → (find_unmapped_area hint sz s).0 ≡ some r
      → IsGap 0x7FFF_FFFF_F000 sz s.vma_head r
      → Outcome sz flags kind s (allocate_fresh root hint sz flags kind s v)
  unfolding allocate_fresh
  allocate_fresh-Outcome root hint sz flags n r kind rest s v k top pos p found gap =
      let t = (find_unmapped_area hint sz s).1 in
      let tree = find_unmapped_area-tree hint sz s in
      elim (Bool-cases (r == 0)) [
        | inl nothing ↦
            rw (found, allocate_fresh, nothing)
              (inr (record { failed = refl; tree = tree; sound = rw tree k }))
        | inr something ↦ elim gap [
          | inl zero ↦ absurd (ground arith)
          | inr (al, ends, fresh) ↦
              let made =
                allocate_node_ends root r sz flags n kind rest t v (rw tree k) p pos (omega arith)
                  (rw tree fresh) in
              rw
                (found, allocate_fresh, something, allocate_at-eq root r sz flags n kind rest t v p)
                (Outcome-same sz flags kind s t _ tree (with_target r al made))
        ]
      ]

  -- In a sound space of whole pages whose areas end 4096 bytes below 2 ^ 64, with a node in the pool, an
  -- allocation from a user hint below 0xF000000000 either succeeds, at a range of whole pages that
  -- was free and is now paged with the flags and the type asked for, everything else as it was; or it
  -- fails with ENOMEM and the areas are as they were. The space is sound in both cases.
  pub vmm_allocate-Outcome :
      {b : Backend} (root hint sz flags n : ℕ) (kind : RegionType) (rest : List ℕ) (s : Space)
      (v : Vmm b)
      → IsSound hi others s.vma_head v.vma_free_list
      → InPages s.vma_head
      → hi + 4096 ≤ u64_mod
      → 0x7FFF_FFFF_F001 ≤ hi
      → hint < 0xF0_0000_0000
      → 0 < sz
      → sz + 4096 ≤ u64_mod
      → v.vma_free_list ≡ n ∷ rest
      → Outcome (align_up sz 4096) flags kind s (vmm_allocate root hint sz flags kind s v)
  unfolding vmm_allocate
  vmm_allocate-Outcome root hint sz flags n kind rest s v k i bound top user pos fits p =
      let size = align_up sz 4096 in
      let low : leb 0xF0_0000_0000 hint ≡ false = ground arith in
      let some_pages : 0 < size = omega arith in
      let (r, found, gap) =
        find_unmapped_area-IsGap hi hint size s bound k.within i (omega arith) some_pages
          (omega arith) in
      rw low
        (allocate_fresh-Outcome root hint size flags n r kind rest s v k top some_pages p found gap)

  -- In a sound space with a node in the pool, when a page fails in an allocation at a free address, the
  -- call fails with ENOMEM and leaves the state of the other managers as the loop over the pages left
  -- it: the pages mapped before are neither unmapped nor released.
  pub allocate_at_leaks :
      {b : Backend} (root target sz flags n i : ℕ) (kind : RegionType) (rest : List ℕ) (s : Space)
      (v : Vmm b)
      → IsSound hi others s.vma_head v.vma_free_list
      → v.vma_free_list ≡ n ∷ rest
      → area_at target s.vma_head ≡ none
      → (map_loop b (sz / 4096) root target 0 flags v.hw).0 ≡ some i
      → ((allocate_at root target sz flags kind s v).0 ≡ err enomem)
        × ((allocate_at root target sz flags kind s v).2.hw
            ≡ (map_loop b (sz / 4096) root target 0 flags v.hw).1)
  unfolding allocate_node
  allocate_at_leaks {b} root target sz flags n i kind rest s v k p free stopped =
      let left = record v {
        vma_free_list = rest;
        hw = (map_loop b (sz / 4096) root target 0 flags v.hw).1;
      } in
      let pool = drop_node hi others n s.vma_head rest (rw p at k) in
      let kept = (vmm_free-unmapped hi others root target i s left pool free).1 in
      rw (allocate_at-eq root target sz flags n kind rest s v p, stopped, allocate_node)
        (refl, vma_free-hw n _ ∙ ap (λ (u : Vmm b). u.hw) kept)
