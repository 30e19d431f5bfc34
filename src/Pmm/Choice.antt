-- ===== src/Pmm/Choice.antt =====
-- The search of `pmm_alloc_page`, and reference counts that go up and down again.
use native.Mathlib.Decide.{dec_lt}
use arm_os.Base.{
  ℕ, zero, suc, ◌+◌, ◌-◌, ◌%◌, ◌^◌, ◌<◌, ◌≤◌, ◌≡◌, ◌≢◌, refl, arith, false, ◌==◌, ◌||◌, leb,
  Bool-cases, inl, inr, ap, ok, err, enomem, tt, ◌⊎◌, ◌∙◌,
}
use arm_os.Pmm.State.{Pmm, to_index}
use arm_os.Pmm.Alloc.{claim, alloc_loop, alloc_page}
use arm_os.Pmm.Free.{retain, release}

-- The lists of the orders from `p` up to `c` are empty.
abbrev pub Empty : Pmm → ℕ → ℕ → Type 0
Empty s p c = (o : ℕ) → p ≤ o → o < c → (s.orders o).head ≡ 0

-- The lowest order from `p` on with a block, and the claim of its first block.
pub record Chosen (p : ℕ) (s t : Pmm) (frame : ℕ) : Type 0 where
  pub order : ℕ
  pub enough : p ≤ order
  pub in_range : order < 64
  pub filled : (s.orders order).head ≢ 0
  pub lowest : Empty s p order
  pub result : (frame, t) ≡ claim order p (s.orders order).head s

alloc_loop_choice :
    (k current p : ℕ) (s : Pmm)
    → p ≤ current
    → current + k ≡ 64
    → Empty s p current
    → ((f : ℕ) × (t : Pmm) × (alloc_loop k current p s ≡ (ok f, t)) × Chosen p s t f)
      ⊎ (Empty s p 64 × (alloc_loop k current p s ≡ (err enomem, s)))
unfolding alloc_loop
alloc_loop_choice zero current p s h e none_before =
    inr (λ o l u. none_before o l (omega arith), refl)
alloc_loop_choice (suc k) current p s h e none_before =
    elim (Bool-cases ((s.orders current).head == 0)) [
      | inl z ↦ rw z (
          alloc_loop_choice k (current + 1) p s (omega arith) (omega arith) (λ o l u.
            elim (dec_lt o current) [
              | yes below ↦ none_before o l below
              | no above ↦
                  let same : o ≡ current = omega arith in
                  ap (λ (n : ℕ). (s.orders n).head) same ∙ ground arith
            ]))
      | inr n ↦
          let (f, t) = claim current p (s.orders current).head s in
          rw n (
            inl (
              f,
              t,
              refl,
              record {
                order = current;
                enough = h;
                in_range = omega arith;
                filled = ground arith;
                lowest = none_before;
                result = refl;
              },
            ))
    ]

-- A call of `pmm_alloc_page` with an order below 64 and an out pointer claims the first block of the
-- lowest order, from that on, whose list is not empty; if there is none, it fails with ENOMEM and
-- changes nothing.
pub alloc_page_choice :
    (p out : ℕ) (s : Pmm)
    → p < 64
    → out ≢ 0
    → ((f : ℕ) × (t : Pmm) × (alloc_page p out s ≡ (ok f, t)) × Chosen p s t f)
      ⊎ (Empty s p 64 × (alloc_page p out s ≡ (err enomem, s)))
unfolding alloc_page
alloc_page_choice p out s h o =
    let good : (leb 64 p || (out == 0)) ≡ false = ground arith in
    rw good
      (alloc_loop_choice (64 - p) p p s (omega arith) (omega arith) (λ n l u. absurd (omega arith)))

-- A page below `total_pages` that is not free: retaining it and then releasing it succeeds both times,
-- and gives back the metadata of every page, if it had at least one reference and the 32-bit count
-- does not wrap.
pub release-retain :
    (frame : ℕ) (s : Pmm)
    → to_index frame < s.total_pages
    → (s.meta_array (to_index frame)).is_free ≡ false
    → 0 < (s.meta_array (to_index frame)).ref_count
    → (s.meta_array (to_index frame)).ref_count + 1 < 2 ^ 32
    → ((retain frame s).0 ≡ ok tt)
      × ((release frame (retain frame s).1).0 ≡ ok tt)
      × ((i : ℕ) → (release frame (retain frame s).1).1.meta_array i ≡ s.meta_array i)
unfolding retain release
release-retain frame s inside taken some_ref small =
    let m = s.meta_array (to_index frame) in
    let go : (leb s.total_pages (to_index frame) || m.is_free) ≡ false = ground arith in
    let up : (m.ref_count + 1) % 2 ^ 32 ≡ m.ref_count + 1 = omega arith in
    rw go (refl, ground arith, λ i. ground arith)
