-- ===== src/Pmm/Keeps.antt =====
-- What `claim` keeps, each of the three allocators of pmm.c keeps.
use arm_os.Base.{
  ℕ, zero, suc, ◌+◌, ◌-◌, ◌<◌, ◌≤◌, ◌≡◌, ◌%◌, arith, Bool, ◌==◌, ◌||◌, ltb, leb, not, Bool-cases,
  Option-cases, inl, inr, add64, bit_and, some,
}
use arm_os.Pmm.State.{Pmm, block_bytes, block_pages}
use arm_os.Pmm.Alloc.{
  claim, alloc_loop, alloc_page, walk, search_loop, order_loop, order_of, alloc_aligned,
  alloc_in_range,
}

-- An order that the loop answers is one that it tried, and its block has room for the pages.
order_loop_bounds :
    (k target count o : ℕ)
    → order_loop k target count ≡ some o
    → (o < target + k) × (count ≤ block_pages o)
unfolding order_loop
order_loop_bounds zero target count o e = cc
order_loop_bounds (suc k) target count o e =
    ground (arith, order_loop_bounds k (target + 1) count o)

pub order_of_bounds :
    (count : ℕ) {o : ℕ} → order_of count ≡ some o → (o < 64) × (count ≤ block_pages o)
unfolding order_of
order_of_bounds count e = order_loop_bounds 64 0 count _ e

module _ (P : Pmm → Type 0)
    (keep : (found p node : ℕ) (s : Pmm)
      → p ≤ found
      → found < 64
      → P s
      → P (claim found p node s).1) where
  alloc_loop-keeps :
      (k current p : ℕ) (s : Pmm)
      → p ≤ current
      → current + k ≤ 64
      → P s
      → P (alloc_loop k current p s).1
  unfolding alloc_loop
  alloc_loop-keeps zero current p s h i a = a
  alloc_loop-keeps (suc k) current p s h i a = elim (Bool-cases ((s.orders current).head == 0)) [
    | inl e ↦ rw e (alloc_loop-keeps k (current + 1) p s (omega arith) (omega arith) a)
    | inr e ↦ rw e (keep current p (s.orders current).head s h (omega arith) a)
  ]

  pub alloc_page-keeps : (p out : ℕ) (s : Pmm) → P s → P (alloc_page p out s).1
  unfolding alloc_page
  alloc_page-keeps p out s a = elim (Bool-cases (leb 64 p || (out == 0))) [
    | inl e ↦ rw e a
    | inr e ↦ rw e (alloc_loop-keeps (64 - p) p p s (omega arith) (ground arith) a)
  ]

  search_loop-keeps :
      (k : ℕ) (test : ℕ → Bool) (current target : ℕ) (s : Pmm)
      → target ≤ current
      → current + k ≤ 64
      → P s
      → P (search_loop k test current target s).1
  unfolding search_loop
  search_loop-keeps zero test current target s h i a = a
  search_loop-keeps (suc k) test current target s h i a =
      let list = s.orders current in
      elim (Option-cases (walk (suc list.block_count) test list.head s)) [
        | inl e ↦
            rw (e, search_loop)
              (search_loop-keeps k test (current + 1) target s (omega arith) (omega arith) a)
        | inr (node, e) ↦ rw (e, search_loop) (keep current target node s h (omega arith) a)
      ]

  pub alloc_aligned-keeps :
      (count alignment out : ℕ) (s : Pmm) → P s → P (alloc_aligned count alignment out s).1
  unfolding alloc_aligned
  alloc_aligned-keeps count alignment out s a =
      let bad =
        (count == 0)
        || ltb alignment 4096
        || not (bit_and alignment (alignment - 1) == 0)
        || (out == 0) in
      elim (Bool-cases bad) [
        | inl e ↦ rw e a
        | inr e ↦ elim (Option-cases (order_of count)) [
          | inl n ↦ rw (e, n, alloc_aligned) a
          | inr (t, n) ↦
              let small : t < 64 = (order_of_bounds count n).0 in
              rw (e, n, alloc_aligned)
                (search_loop-keeps (64 - t) (λ phys. phys % alignment == 0) t t s (omega arith)
                  (omega arith) a)
        ]
      ]

  pub alloc_in_range-keeps :
      (count max_addr out : ℕ) (s : Pmm) → P s → P (alloc_in_range count max_addr out s).1
  unfolding alloc_in_range
  alloc_in_range-keeps count max_addr out s a = elim (Bool-cases ((count == 0) || (out == 0))) [
    | inl e ↦ rw e a
    | inr e ↦ elim (Option-cases (order_of count)) [
      | inl n ↦ rw (e, n, alloc_in_range) a
      | inr (t, n) ↦
          let small : t < 64 = (order_of_bounds count n).0 in
          rw (e, n, alloc_in_range)
            (search_loop-keeps (64 - t) (λ phys. leb (add64 phys (block_bytes t)) max_addr) t t s
              (omega arith) (omega arith) a)
    ]
  ]
