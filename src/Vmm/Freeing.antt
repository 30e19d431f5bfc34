-- ===== src/Vmm/Freeing.antt =====
-- `vmm_free` of vmm.c takes exactly the range away.
use arm_os.Base.{
  ℕ, ◌+◌, ◌-◌, ◌%◌, ◌/◌, ◌<◌, ◌≤◌, ◌≡◌, ◌⊎◌, refl, ap, ◌∙◌, arith, Bool, Option, none, some, ◌==◌,
  true, false, if◌then◌else◌, ◌&&◌, ◌||◌, not, ltb, leb, inl, inr, List, ◌∷◌, u64_mod, Option-cases,
  Bool-cases, Result, ok, err, einval, Unit, tt, add64, sub64, align_up,
}
use arm_os.Vmm.Area.{Area, RegionType, area_end}
use arm_os.Vmm.Tree.{Tree, update_area}
use arm_os.Vmm.State.{Backend, Space, Vmm}
use arm_os.Vmm.Pool.{vma_alloc-front}
use arm_os.Vmm.Space.{find_vma, insert_vma}
use arm_os.Vmm.Editing.{
  write_area, forget, part, trim_front, trim_back, split_area, cut_area, vmm_free, unmap_loop,
}
use arm_os.Vmm.Sorted.{inside, area_at, area_at-insert}
use arm_os.Vmm.Removed.{Holds, Holds-bounds}
use arm_os.Vmm.Writes.{update_area-Written}
use arm_os.Vmm.Lookup.{Holds-area_at, find_vma-Holds, find_vma-eq, find_vma-tree}
use arm_os.Vmm.Sound.{
  IsSound, IsSound-Only, insert-IsSound, write-IsSound, remove_tree_node-IsRemoved,
}

-- What an address is mapped as: the flags, the region type, and whether it is paged.
abbrev pub traits : Option Area → Option (ℕ × RegionType × Bool)
traits none = none
traits (some a) = some (a.flags, a.kind, a.is_paged)

abbrev pub in_range : (vaddr sz x : ℕ) → Bool
in_range vaddr sz x = leb vaddr x && ltb x (vaddr + sz)

if-pool :
    {b : Backend} (c : Bool) (v : Vmm b) (hw : b.State)
    → (if c then record v { hw = hw } else v).vma_free_list ≡ v.vma_free_list
if-pool true v hw = refl
if-pool false v hw = refl

module _ (hi : ℕ) (others : ℕ → ℕ) where
  -- The call succeeded; the range is no longer in the tree, and every other address is as it was.
  pub record IsFreed {b : Backend} (vaddr sz : ℕ) (s : Space)
      (r : Result (Unit {0}) × Space × Vmm b) : Type 0 where
    pub done : r.0 ≡ ok tt
    pub sound : IsSound hi others r.1.vma_head r.2.vma_free_list
    pub sees :
        (x : ℕ)
        → traits (area_at x r.1.vma_head)
          ≡ (if in_range vaddr sz x then none else traits (area_at x s.vma_head))

  module _ {b : Backend} (vaddr sz id n : ℕ) (a : Area) (rest : List ℕ) (s : Space) (v : Vmm b)
      (k : IsSound hi others s.vma_head v.vma_free_list) (h : Holds id a s.vma_head)
      (low : a.base ≤ vaddr) (starts : vaddr < a.base + a.size)
      (ends : vaddr + sz ≤ a.base + a.size) where
    -- A write that leaves of the area what is not in the range.
    trim-IsFreed :
        (f : Area → Area) (w : Vmm b)
        → w.vma_free_list ≡ v.vma_free_list
        → traits (some (f a)) ≡ traits (some a)
        → a.base ≤ (f a).base
        → 0 < (f a).size
        → (f a).base + (f a).size ≤ a.base + a.size
        → ((x : ℕ) → inside a x ≡ true → inside (f a) x ≡ not (in_range vaddr sz x))
        → IsFreed vaddr sz s (ok tt, forget (write_area id f s), w)
    unfolding write_area forget
    trim-IsFreed f w same kept p q r cover =
        let only = IsSound-Only hi others id a k h in
        record {
          done = refl;
          sound = rw same (write-IsSound hi others id a f s.vma_head v.vma_free_list k h p q r);
          sees = λ x.
              let wrote = update_area-Written x 0 hi id a f s.vma_head k.within only h p q r in
              let old = Holds-area_at x id 0 hi a s.vma_head k.within h in
              ground (arith, wrote.sees, old, cover x);
        }

    split_area-IsFreed :
        v.vma_free_list ≡ n ∷ rest
        → a.base < vaddr
        → vaddr + sz < a.base + a.size
        → IsFreed vaddr sz s (split_area vaddr sz id a s v)
    unfolding split_area insert_vma write_area forget part
    split_area-IsFreed p l u =
        let bounds = Holds-bounds id 0 hi a s.vma_head k.within h in
        let top = k.bound in
        let only = IsSound-Only hi others id a k h in
        let f = part a.base (sub64 vaddr a.base) in
        let base = add64 vaddr sz in
        let tail = part base (sub64 (area_end a) base) a in
        let size : sub64 vaddr a.base ≡ vaddr - a.base = omega (arith, bounds, top) in
        let start : base ≡ vaddr + sz = omega (arith, bounds, top) in
        let size' : tail.size ≡ a.base + a.size - (vaddr + sz) = omega (arith, bounds, top) in
        let wrote = λ (x : ℕ).
          update_area-Written x 0 hi id a f s.vma_head k.within only h (omega arith) (omega arith)
            (omega arith) in
        let t = update_area id f s.vma_head in
        let free : (y : ℕ) → tail.base ≤ y → y < tail.base + tail.size → area_at y t ≡ none =
          λ y g g'. ground (arith, (wrote y).sees) in
        let k' =
          write-IsSound hi others id a f s.vma_head (n ∷ rest) (rw p at k) h (omega arith)
            (omega arith) (omega arith) in
        rw (vma_alloc-front v p, split_area)
          (record {
            done = refl;
            sound =
                rw (vma_alloc-front v p)
                  (insert-IsSound hi others n tail t rest k' (omega arith) (omega arith) free);
            sees = λ x.
                let old = Holds-area_at x id 0 hi a s.vma_head k.within h in
                let new = area_at-insert x n tail t (λ g. ground (arith, (wrote x).sees)) in
                ground (arith, (wrote x).sees, old, new);
          })

    cut_area-IsFreed : v.vma_free_list ≡ n ∷ rest → IsFreed vaddr sz s (cut_area vaddr sz id a s v)
    unfolding cut_area forget
    cut_area-IsFreed p =
        let bounds = Holds-bounds id 0 hi a s.vma_head k.within h in
        let top = k.bound in
        elim (Bool-cases (vaddr == a.base && sz == a.size)) [
          | inl whole ↦
              let gone = remove_tree_node-IsRemoved hi others id a s v k h in
              rw whole (record {
                done = refl;
                sound = gone.sound;
                sees = λ x. ground (arith, gone.sees x);
              })
          | inr some_left ↦ elim (Bool-cases (vaddr == a.base)) [
            | inl front ↦
                rw (some_left, front)
                  (trim-IsFreed (trim_front sz) v refl refl (ground (arith, bounds, top))
                    (ground (arith, bounds, top)) (ground (arith, bounds, top))
                    (λ x g. ground (arith, bounds, top)))
            | inr inner ↦ elim (Bool-cases (add64 vaddr sz == area_end a)) [
              | inl back ↦
                  rw (some_left, inner, back)
                    (trim-IsFreed (trim_back sz) v refl refl (omega arith)
                      (ground (arith, bounds, top)) (ground (arith, bounds, top))
                      (λ x g. ground (arith, bounds, top)))
              | inr middle ↦
                  rw (some_left, inner, middle)
                    (split_area-IsFreed p (ground arith) (ground (arith, bounds, top)))
            ]
          ]
        ]

  IsFreed-same :
      {b : Backend} (vaddr sz : ℕ) (s t : Space) (r : Result (Unit {0}) × Space × Vmm b)
      → t.vma_head ≡ s.vma_head
      → IsFreed vaddr sz t r
      → IsFreed vaddr sz s r
  IsFreed-same vaddr sz s t r e f = record {
    done = f.done;
    sound = f.sound;
    sees = λ x.
        f.sees x ∙ ap (λ (u : Tree). if in_range vaddr sz x then none else traits (area_at x u)) e;
  }

  module _ {b : Backend} (root vaddr sz : ℕ) (s : Space) (v : Vmm b)
      (k : IsSound hi others s.vma_head v.vma_free_list) where
    -- In a sound space, freeing a range of whole pages that lies in one area, with a node in the pool,
    -- succeeds: no address of the range is in an area any more, every other address has the flags,
    -- the type and the paging it had, and the space is sound.
    pub vmm_free_exact :
        (n : ℕ) (a : Area) (rest : List ℕ)
        → sz % 4096 ≡ 0
        → area_at vaddr s.vma_head ≡ some a
        → vaddr + sz ≤ a.base + a.size
        → v.vma_free_list ≡ n ∷ rest
        → IsFreed vaddr sz s (vmm_free root vaddr sz s v)
    unfolding vmm_free
    vmm_free_exact n a rest al at ends p =
        let top = k.bound in
        let found = find_vma-eq vaddr 0 hi s top k.within in
        elim (Option-cases (find_vma vaddr s).0) [
          | inl none_found ↦ absurd (ground arith)
          | inr ((id, c), e) ↦
              let same : c ≡ a = ground arith in
              let (held, covered) = find_vma-Holds vaddr s e in
              let bounds = Holds-bounds id 0 hi c s.vma_head k.within held in
              let tree = find_vma-tree vaddr s in
              let good : (ltb vaddr c.base || ltb (area_end c) (add64 vaddr sz)) ≡ false =
                ground (arith, bounds, top) in
              let size : align_up sz 4096 ≡ sz = ground (arith, bounds, top) in
              let w : Vmm b =
                if c.is_paged
                then record v { hw = unmap_loop b (sz / 4096) root vaddr 0 v.hw }
                else v in
              let pool : w.vma_free_list ≡ v.vma_free_list = if-pool c.is_paged v _ in
              let t = (find_vma vaddr s).1 in
              let k' : IsSound hi others t.vma_head w.vma_free_list = rw (tree, pool) k in
              let held' : Holds id c t.vma_head = rw tree held in
              let cut =
                cut_area-IsFreed vaddr sz id n c rest t w k' held' (ground (arith, bounds, top))
                  (ground (arith, bounds, top)) (ground arith) (pool ∙ p) in
              rw (e, vmm_free, good, size) (IsFreed-same vaddr sz s t _ tree cut)
        ]

    -- In a sound space, freeing a range that ends below 2 ^ 64, and that starts outside every area or
    -- passes the end of the area it starts in, fails with EINVAL and changes neither the areas nor
    -- anything outside the space.
    pub vmm_free_refused :
        vaddr + sz < u64_mod
        → (area_at vaddr s.vma_head ≡ none)
          ⊎ ((a : Area) × (area_at vaddr s.vma_head ≡ some a) × (a.base + a.size < vaddr + sz))
        → ((vmm_free root vaddr sz s v).0 ≡ err einval)
          × ((vmm_free root vaddr sz s v).1.vma_head ≡ s.vma_head)
          × ((vmm_free root vaddr sz s v).2 ≡ v)
    unfolding vmm_free
    vmm_free_refused small h =
        let top = k.bound in
        let found = find_vma-eq vaddr 0 hi s top k.within in
        elim (Option-cases (find_vma vaddr s).0) [
          | inl e ↦ rw (e, vmm_free) (refl, find_vma-tree vaddr s, refl)
          | inr ((id, c), e) ↦ elim h [
            | inl none_found ↦ absurd (ground arith)
            | inr (a, at, over) ↦
                let same : c ≡ a = ground arith in
                let (held, covered) = find_vma-Holds vaddr s e in
                let bounds = Holds-bounds id 0 hi c s.vma_head k.within held in
                let bad : (ltb vaddr c.base || ltb (area_end c) (add64 vaddr sz)) ≡ true =
                  ground (arith, bounds, top) in
                rw (e, vmm_free, bad) (refl, find_vma-tree vaddr s, refl)
          ]
        ]

    -- A free that starts outside every area does nothing.
    pub vmm_free-unmapped :
        area_at vaddr s.vma_head ≡ none
        → ((vmm_free root vaddr sz s v).1.vma_head ≡ s.vma_head)
          × ((vmm_free root vaddr sz s v).2 ≡ v)
    unfolding vmm_free
    vmm_free-unmapped h =
        let found = find_vma-eq vaddr 0 hi s k.bound k.within in
        elim (Option-cases (find_vma vaddr s).0) [
          | inl e ↦ rw (e, vmm_free) (find_vma-tree vaddr s, refl)
          | inr ((id, c), e) ↦ absurd (ground arith)
        ]
