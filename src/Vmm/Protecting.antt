-- ===== src/Vmm/Protecting.antt =====
-- `vmm_protect` of vmm.c changes the flags of exactly the range.
pub mod Edges
mod Pieces
use arm_os.Base.{
  ℕ, ◌+◌, ◌-◌, ◌/◌, ◌%◌, ◌<◌, ◌≤◌, ◌≡◌, refl, ap, ◌∙◌, arith, Bool, Option, none, some, ◌==◌, true,
  false, if◌then◌else◌, ◌&&◌, ◌||◌, not, ltb, inl, inr, List, ◌∷◌, Option-cases, Bool-cases, Result,
  ok, Unit, tt, add64, sub64, align_up,
}
use arm_os.Vmm.Area.{Area, RegionType, area_end}
use arm_os.Vmm.Tree.{Tree, insert, update_area}
use arm_os.Vmm.State.{Backend, Space, Vmm}
use arm_os.Vmm.Pool.{vma_alloc-front}
use arm_os.Vmm.Space.{find_vma, remove_tree_node, insert_vma}
use arm_os.Vmm.Editing.{
  write_area, forget, part, trim_front, trim_back, protect_edge, protect_pieces, protect_middle,
  protect_area, vmm_protect,
}
use arm_os.Vmm.Sorted.{inside, area_at, area_at-insert}
use arm_os.Vmm.Removed.{Holds, Holds-bounds}
use arm_os.Vmm.Nodes.{one_if}
use arm_os.Vmm.Writes.{update_area-Written}
use arm_os.Vmm.Lookup.{Holds-area_at, find_vma-Holds, find_vma-eq, find_vma-tree}
use arm_os.Vmm.Sound.{
  IsSound, IsSound-Only, insert-IsSound, write-IsSound, remove_tree_node-IsRemoved,
}
use arm_os.Vmm.Freeing.{traits, in_range}
use arm_os.Vmm.Protecting.Edges.{with_flags, IsProtected, whole-IsProtected, edge-IsProtected}
use arm_os.Vmm.Protecting.Pieces.{pieces-IsProtected}

module _ (hi : ℕ) (others : ℕ → ℕ) where
  middle-eq :
      {b : Backend} (vaddr sz flags id : ℕ) (a : Area) (s : Space) (v : Vmm b) (m r : ℕ)
      (rest : List ℕ)
      → v.vma_free_list ≡ m ∷ r ∷ rest
      → protect_middle vaddr sz flags id a s v
        ≡ protect_pieces vaddr sz flags id a m r s (record v { vma_free_list = rest })
  unfolding protect_middle
  middle-eq vaddr sz flags id a s v m r rest p =
      let w = record v { vma_free_list = r ∷ rest } in
      let second = vma_alloc-front w {n = r} {rest = rest} refl in
      ground (arith, vma_alloc-front v p, second)

  module _ {b : Backend} (vaddr sz flags id m r : ℕ) (rest : List ℕ) (a : Area) (s : Space)
      (v : Vmm b) (k : IsSound hi others s.vma_head v.vma_free_list) (h : Holds id a s.vma_head)
      (low : a.base ≤ vaddr) (some_bytes : 0 < sz) (ends : vaddr + sz ≤ a.base + a.size)
      (p : v.vma_free_list ≡ m ∷ r ∷ rest) where
    area-IsProtected : IsProtected hi others vaddr sz flags s (protect_area vaddr sz flags id a s v)
    unfolding protect_area trim_front trim_back forget write_area
    area-IsProtected =
        let bounds = Holds-bounds id 0 hi a s.vma_head k.within h in
        let top = k.bound in
        elim (Bool-cases (vaddr == a.base && sz == a.size)) [
          | inl whole ↦ rw whole (
              whole-IsProtected hi others vaddr sz flags id a s v h low some_bytes ends k
                (ground arith) (ground arith))
          | inr some_left ↦ elim (Bool-cases (vaddr == a.base)) [
            | inl front ↦
                rw (some_left, front)
                  (edge-IsProtected hi others vaddr sz flags id a s v h low some_bytes ends k m
                    (r ∷ rest) (trim_front sz) p refl (ground (arith, bounds, top))
                    (ground (arith, bounds, top)) (ground (arith, bounds, top))
                    (λ x g. ground (arith, bounds, top)))
            | inr inner ↦ elim (Bool-cases (add64 vaddr sz == area_end a)) [
              | inl back ↦
                  rw (some_left, inner, back)
                    (edge-IsProtected hi others vaddr sz flags id a s v h low some_bytes ends k m
                      (r ∷ rest) (trim_back sz) p refl (omega arith) (ground (arith, bounds, top))
                      (ground (arith, bounds, top)) (λ x g. ground (arith, bounds, top)))
              | inr middle ↦
                  rw (some_left, inner, middle, middle-eq vaddr sz flags id a s v m r rest p)
                    (pieces-IsProtected hi others vaddr sz flags id a s
                      (record v { vma_free_list = rest }) h low some_bytes ends m r (rw p at k)
                      (ground arith) (ground (arith, bounds, top)))
            ]
          ]
        ]

  IsProtected-same :
      {b : Backend} (vaddr sz flags : ℕ) (s t : Space) (r : Result (Unit {0}) × Space × Vmm b)
      → t.vma_head ≡ s.vma_head
      → IsProtected hi others vaddr sz flags t r
      → IsProtected hi others vaddr sz flags s r
  IsProtected-same vaddr sz flags s t r e f = record {
    done = f.done;
    sound = f.sound;
    sees = λ x.
        f.sees x
        ∙ ap
            (λ (u : Tree).
              if in_range vaddr sz x
              then with_flags flags (traits (area_at x u))
              else traits (area_at x u))
            e;
  }

  -- In a sound space, if the MMU accepts the change, protecting a non-empty range of whole pages that
  -- lies in one area, with two nodes in the pool, succeeds: every address of the range has the new
  -- flags and the type and paging it had, every other address is as it was, and the space is sound.
  pub vmm_protect_exact :
      {b : Backend} (root vaddr sz flags m r : ℕ) (a : Area) (rest : List ℕ) (s : Space) (v : Vmm b)
      → IsSound hi others s.vma_head v.vma_free_list
      → (b.protect root vaddr (sz / 4096) flags v.hw).0 ≡ ok tt
      → 0 < sz
      → sz % 4096 ≡ 0
      → area_at vaddr s.vma_head ≡ some a
      → vaddr + sz ≤ a.base + a.size
      → v.vma_free_list ≡ m ∷ r ∷ rest
      → IsProtected hi others vaddr sz flags s (vmm_protect root vaddr sz flags s v)
  unfolding vmm_protect
  vmm_protect_exact {b} root vaddr sz flags m r a rest s v k accepted pos al at ends p =
      let top = k.bound in
      let found = find_vma-eq vaddr 0 hi s top k.within in
      elim (Option-cases (find_vma vaddr s).0) [
        | inl none_found ↦ absurd (ground arith)
        | inr ((id, c), e) ↦
            let same : c ≡ a = ground arith in
            let (held, covered) = find_vma-Holds vaddr s e in
            let bounds = Holds-bounds id 0 hi c s.vma_head k.within held in
            let tree = find_vma-tree vaddr s in
            let good : (ltb vaddr c.base || ltb (area_end c) (add64 vaddr sz)) ≡ false =
              ground (arith, bounds, top) in
            let size : align_up sz 4096 ≡ sz = ground (arith, bounds, top) in
            let accepted' : (b.protect root vaddr (align_up sz 4096 / 4096) flags v.hw).0 ≡ ok tt =
              rw size accepted in
            let w = record v { hw = (b.protect root vaddr (sz / 4096) flags v.hw).1 } in
            let t = (find_vma vaddr s).1 in
            let k' : IsSound hi others t.vma_head w.vma_free_list = rw tree k in
            let held' : Holds id c t.vma_head = rw tree held in
            let whole =
              area-IsProtected vaddr sz flags id m r rest c t w k' held'
                (ground (arith, bounds, top)) pos (ground arith) p in
            rw (e, vmm_protect, good, accepted', size)
              (IsProtected-same vaddr sz flags s t _ tree whole)
      ]
