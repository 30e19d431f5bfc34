-- ===== src/Pmm/Placing.antt =====
-- What `pmm_alloc_aligned` and `pmm_alloc_in_range` of pmm.c promise of the frame that they answer.
use arm_os.Base.{
  ℕ, zero, suc, ◌+◌, ◌-◌, ◌%◌, ◌≤◌, ◌<◌, ◌≡◌, refl, sym, arith, Bool, true, ◌==◌, ◌||◌, ltb, leb,
  not, Bool-cases, Option-cases, inl, inr, add64, bit_and, some, ok,
}
use arm_os.Pmm.State.{Pmm, block_bytes, block_pages, kv_to_paddr, to_index}
use arm_os.Pmm.Alloc.{claim, walk, search_loop, order_of, alloc_aligned, alloc_in_range}
use arm_os.Pmm.Keeps.{order_of_bounds}

walk-test :
    (fuel : ℕ) (test : ℕ → Bool) (curr : ℕ) (s : Pmm) {n : ℕ}
    → walk fuel test curr s ≡ some n
    → test (kv_to_paddr s n) ≡ true
unfolding walk
walk-test zero test curr s e = cc
walk-test (suc k) test curr s e = elim (Bool-cases (curr == 0)) [
  | inl z ↦ cc (rw z at e)
  | inr nz ↦ elim (Bool-cases (test (kv_to_paddr s curr))) [
    | inl good ↦ ground arith
    | inr bad ↦ walk-test k test (s.nodes curr).next s (rw (nz, bad) at e)
  ]
]

claim-first :
    (found target node : ℕ) (s : Pmm)
    → (((claim found target node s).1.meta_array (to_index (claim found target node s).0)).order
        ≡ target)
      × ((claim found target node s).0 ≡ kv_to_paddr s node)
unfolding claim
claim-first found target node s = (ground arith, refl)

-- A frame from the search passes the test, and its metadata has the order that was searched for.
record IsPlaced (test : ℕ → Bool) (target f : ℕ) (t : Pmm) : Type 0 where
  passes : test f ≡ true
  recorded : (t.meta_array (to_index f)).order ≡ target

search_loop-IsPlaced :
    (k : ℕ) (test : ℕ → Bool) (current target : ℕ) (s : Pmm) (f : ℕ)
    → (search_loop k test current target s).0 ≡ ok f
    → IsPlaced test target f (search_loop k test current target s).1
unfolding search_loop
search_loop-IsPlaced zero test current target s f e = cc
search_loop-IsPlaced (suc k) test current target s f e =
    let list = s.orders current in
    elim (Option-cases (walk (suc list.block_count) test list.head s)) [
      | inl n ↦
          rw (n, search_loop)
            (search_loop-IsPlaced k test (current + 1) target s f (rw (n, search_loop) at e))
      | inr (node, n) ↦
          let first = claim-first current target node s in
          let here : (claim current target node s).0 ≡ f = cc (rw (n, search_loop) at e) in
          let passes = walk-test (suc list.block_count) test list.head s n in
          rw (n, search_loop)
            (record { passes = rw (sym here, first.1) passes; recorded = rw here at first.0 })
    ]

-- A frame that pmm_alloc_aligned answers is a multiple of the alignment, and the order that the
-- metadata records for it is below 64 and has room for the pages asked for.
pub alloc_aligned-fits :
    (count alignment out f : ℕ) (s : Pmm)
    → (alloc_aligned count alignment out s).0 ≡ ok f
    → (f % alignment ≡ 0)
      × (((alloc_aligned count alignment out s).1.meta_array (to_index f)).order < 64)
      × (count
          ≤ block_pages ((alloc_aligned count alignment out s).1.meta_array (to_index f)).order)
unfolding alloc_aligned
alloc_aligned-fits count alignment out f s e =
    let bad =
      (count == 0)
      || ltb alignment 4096
      || not (bit_and alignment (alignment - 1) == 0)
      || (out == 0) in
    elim (Bool-cases bad) [
      | inl b ↦ absurd (cc (rw b at e))
      | inr g ↦ elim (Option-cases (order_of count)) [
        | inl n ↦ absurd (cc (rw (g, n, alloc_aligned) at e))
        | inr (t, n) ↦
            let room = order_of_bounds count n in
            let placed =
              search_loop-IsPlaced (64 - t) (λ phys. phys % alignment == 0) t t s f
                (rw (g, n, alloc_aligned) at e) in
            rw (g, n, alloc_aligned, placed.recorded)
              (ground (arith, placed.passes), room.0, room.1)
      ]
    ]

-- The block of a frame that pmm_alloc_in_range answers, by the order that the metadata records for it,
-- ends by the given address (modulo 2 ^ 64), and has room for the pages asked for.
pub alloc_in_range-fits :
    (count max_addr out f : ℕ) (s : Pmm)
    → (alloc_in_range count max_addr out s).0 ≡ ok f
    → (add64 f (block_bytes ((alloc_in_range count max_addr out s).1.meta_array (to_index f)).order)
        ≤ max_addr)
      × (count
          ≤ block_pages ((alloc_in_range count max_addr out s).1.meta_array (to_index f)).order)
unfolding alloc_in_range
alloc_in_range-fits count max_addr out f s e = elim (Bool-cases ((count == 0) || (out == 0))) [
  | inl b ↦ absurd (cc (rw b at e))
  | inr g ↦ elim (Option-cases (order_of count)) [
    | inl n ↦ absurd (cc (rw (g, n, alloc_in_range) at e))
    | inr (t, n) ↦
        let room = order_of_bounds count n in
        let placed =
          search_loop-IsPlaced (64 - t) (λ phys. leb (add64 phys (block_bytes t)) max_addr) t t s f
            (rw (g, n, alloc_in_range) at e) in
        rw (g, n, alloc_in_range, placed.recorded) (ground (arith, placed.passes), room.1)
  ]
]
