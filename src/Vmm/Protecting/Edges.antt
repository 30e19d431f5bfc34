-- ===== src/Vmm/Protecting/Edges.antt =====
-- The tracks of `vmm_protect` of vmm.c that change a whole area or an edge of one.
use arm_os.Base.{
  ℕ, ◌+◌, ◌<◌, ◌≤◌, ◌≡◌, refl, arith, Bool, Option, none, some, true, if◌then◌else◌, not, List, ◌∷◌,
  Result, ok, Unit, tt,
}
use arm_os.Vmm.Area.{Area, RegionType}
use arm_os.Vmm.Tree.{update_area}
use arm_os.Vmm.State.{Backend, Space, Vmm}
use arm_os.Vmm.Pool.{vma_alloc-front}
use arm_os.Vmm.Space.{insert_vma}
use arm_os.Vmm.Editing.{write_area, forget, part, protect_edge}
use arm_os.Vmm.Sorted.{inside, area_at, area_at-insert}
use arm_os.Vmm.Removed.{Holds, Holds-bounds}
use arm_os.Vmm.Writes.{update_area-Written}
use arm_os.Vmm.Lookup.{Holds-area_at}
use arm_os.Vmm.Sound.{IsSound, IsSound-Only, insert-IsSound, write-IsSound}
use arm_os.Vmm.Freeing.{traits, in_range}

abbrev pub with_flags : ℕ → Option (ℕ × RegionType × Bool) → Option (ℕ × RegionType × Bool)
with_flags flags none = none
with_flags flags (some (_, kind, is_paged)) = some (flags, kind, is_paged)

module _ (hi : ℕ) (others : ℕ → ℕ) where
  -- The call succeeded; in the range the flags are new, and all else is as it was.
  pub record IsProtected {b : Backend} (vaddr sz flags : ℕ) (s : Space)
      (r : Result (Unit {0}) × Space × Vmm b) : Type 0 where
    pub done : r.0 ≡ ok tt
    pub sound : IsSound hi others r.1.vma_head r.2.vma_free_list
    pub sees :
        (x : ℕ)
        → traits (area_at x r.1.vma_head) ≡ (
            if in_range vaddr sz x
            then with_flags flags (traits (area_at x s.vma_head))
            else traits (area_at x s.vma_head))

  module _ {b : Backend} (vaddr sz flags id : ℕ) (a : Area) (s : Space) (v : Vmm b)
      (h : Holds id a s.vma_head) (low : a.base ≤ vaddr) (some_bytes : 0 < sz)
      (ends : vaddr + sz ≤ a.base + a.size) where
    module _ (k : IsSound hi others s.vma_head v.vma_free_list) where
      pub whole-IsProtected :
          vaddr ≡ a.base
          → sz ≡ a.size
          → IsProtected vaddr sz flags s
              (ok tt, forget (write_area id (λ c. record c { flags = flags }) s), v)
      unfolding write_area forget
      whole-IsProtected p q =
          let bounds = Holds-bounds id 0 hi a s.vma_head k.within h in
          let only = IsSound-Only hi others id a k h in
          let f = λ (c : Area). record c { flags = flags } in
          record {
            done = refl;
            sound =
                write-IsSound hi others id a f s.vma_head v.vma_free_list k h (omega arith)
                  (omega (arith, bounds)) (omega arith);
            sees = λ x.
                let wrote =
                  update_area-Written x 0 hi id a f s.vma_head k.within only h (omega arith)
                    (omega (arith, bounds)) (omega arith) in
                let old = Holds-area_at x id 0 hi a s.vma_head k.within h in
                ground (arith, wrote.sees, old);
          }

      pub edge-IsProtected :
          (n : ℕ) (rest : List ℕ) (f : Area → Area)
          → v.vma_free_list ≡ n ∷ rest
          → traits (some (f a)) ≡ traits (some a)
          → a.base ≤ (f a).base
          → 0 < (f a).size
          → (f a).base + (f a).size ≤ a.base + a.size
          → ((x : ℕ) → inside a x ≡ true → inside (f a) x ≡ not (in_range vaddr sz x))
          → IsProtected vaddr sz flags s (protect_edge vaddr sz flags id a f s v)
      unfolding protect_edge insert_vma write_area forget part
      edge-IsProtected n rest f p kept q r u cover =
          let bounds = Holds-bounds id 0 hi a s.vma_head k.within h in
          let only = IsSound-Only hi others id a k h in
          let new = record (part vaddr sz a) { flags = flags } in
          let wrote =
            λ (x : ℕ). update_area-Written x 0 hi id a f s.vma_head k.within only h q r u in
          let t = update_area id f s.vma_head in
          let free : (y : ℕ) → vaddr ≤ y → y < vaddr + sz → area_at y t ≡ none =
            λ y g g'. ground (arith, (wrote y).sees, cover y) in
          let k' = write-IsSound hi others id a f s.vma_head (n ∷ rest) (rw p at k) h q r u in
          rw (vma_alloc-front v p, protect_edge)
            (record {
              done = refl;
              sound = rw (vma_alloc-front v p) (
                  insert-IsSound hi others n new t rest k' some_bytes (omega (arith, bounds)) free);
              sees = λ x.
                  let old = Holds-area_at x id 0 hi a s.vma_head k.within h in
                  let add = area_at-insert x n new t (λ g. free x (ground arith) (ground arith)) in
                  ground (arith, (wrote x).sees, old, add, cover x);
            })
