-- ===== src/Pmm/Calls.antt =====
-- Sequences of calls of the interface that pmm.h exports after `pmm_init`.
use arm_os.Base.{
  ℕ, zero, suc, ◌+◌, ◌<◌, ◌≤◌, ◌≡◌, ◌%◌, ◌/◌, refl, arith, ◌==◌, ◌||◌, ltb, not, Bool-cases, inl,
  inr, add64, align_down, List, [], ◌∷◌,
}
use arm_os.Pmm.State.{Pmm, list_remove, to_kv, to_index, index_to_paddr, block_pages}
use arm_os.Pmm.Marks.{HasOrders}
use arm_os.Pmm.Keeps.{alloc_page-keeps, alloc_aligned-keeps, alloc_in_range-keeps}
use arm_os.Pmm.Orders.{
  claim-HasOrders, retain-HasOrders, release-HasOrders, reserve_block-HasOrders,
}
use arm_os.Pmm.Account.{Accounted, claim-Accounted, retain-Accounted, release-Accounted}
use arm_os.Pmm.Account.Sum.{list_remove-bytes}
use arm_os.Pmm.Alloc.{claim, alloc_page, alloc_aligned, alloc_in_range}
use arm_os.Pmm.Free.{retain, release}
use arm_os.Pmm.Reserve.{reserve_block, reserve_loop, reserve_range}

-- The counter agrees with the block counts of the free lists, and each page's order names one.
pub record IsConsistent (s : Pmm) : Type 0 where
  pub accounted : Accounted s
  pub ordered : HasOrders s

reserve_block-Accounted :
    (index : ℕ) (s : Pmm) → HasOrders s → Accounted s → Accounted (reserve_block index s)
unfolding reserve_block
reserve_block-Accounted index s o a =
    let order = (s.meta_array index).order in
    let base = align_down index (block_pages order) in
    let node = to_kv s (index_to_paddr base) in
    let kept : (list_remove order node s).free_memory_bytes ≡ s.free_memory_bytes =
      unfold list_remove in refl in
    omega (arith, kept, list_remove-bytes order node s (o index))

reserve_block-IsConsistent :
    (index : ℕ) (s : Pmm) → IsConsistent s → IsConsistent (reserve_block index s)
reserve_block-IsConsistent index s v = record {
  accounted = reserve_block-Accounted index s v.ordered v.accounted;
  ordered = reserve_block-HasOrders index s v.ordered;
}

reserve_loop-IsConsistent :
    (k index end : ℕ) (s : Pmm) → IsConsistent s → IsConsistent (reserve_loop k index end s)
unfolding reserve_loop
reserve_loop-IsConsistent zero index end s v = v
reserve_loop-IsConsistent (suc k) index end s v = elim (Bool-cases (ltb index end)) [
  | inr e ↦ rw e v
  | inl e ↦ elim (Bool-cases (s.meta_array index).is_free) [
    | inl f ↦ rw (e, f) (reserve_loop-IsConsistent k _ end _ (reserve_block-IsConsistent index s v))
    | inr f ↦ rw (e, f) (reserve_loop-IsConsistent k _ end s v)
  ]
]

reserve_range-IsConsistent :
    (start sz : ℕ) (s : Pmm) → IsConsistent s → IsConsistent (reserve_range start sz s).1
unfolding reserve_range
reserve_range-IsConsistent start sz s v =
    let last = to_index start + add64 sz 4095 / 4096 in
    elim (Bool-cases (not (start % 4096 == 0) || (sz == 0))) [
      | inl e ↦ rw e v
      | inr e ↦ elim (Bool-cases (ltb s.total_pages last)) [
        | inl e' ↦ rw (e, e') v
        | inr e' ↦ rw (e, e') (reserve_loop-IsConsistent _ (to_index start) last s v)
      ]
    ]

pub data Call : Type 0 where
  page : (page_order out : ℕ) → Call
  aligned : (count alignment out : ℕ) → Call
  in_range : (count max_addr out : ℕ) → Call
  keep : (frame : ℕ) → Call
  drop : (frame : ℕ) → Call
  reserve : (start sz : ℕ) → Call

pub run : Call → Pmm → Pmm
run (page page_order out) s = (alloc_page page_order out s).1
run (aligned count alignment out) s = (alloc_aligned count alignment out s).1
run (in_range count max_addr out) s = (alloc_in_range count max_addr out s).1
run (keep frame) s = (retain frame s).1
run (drop frame) s = (release frame s).1
run (reserve start sz) s = (reserve_range start sz s).1

pub run_all : List Call → Pmm → Pmm
unfolding run
run_all [] s = s
run_all (c ∷ cs) s = run_all cs (run c s)

claim-IsConsistent :
    (found p node : ℕ) (s : Pmm)
    → p ≤ found
    → found < 64
    → IsConsistent s
    → IsConsistent (claim found p node s).1
claim-IsConsistent found p node s h i v = record {
  accounted = claim-Accounted found p node s h i v.accounted;
  ordered = claim-HasOrders found p node s h i v.ordered;
}

run-IsConsistent : (c : Call) (s : Pmm) → IsConsistent s → IsConsistent (run c s)
unfolding run
run-IsConsistent (page page_order out) s v =
    alloc_page-keeps IsConsistent claim-IsConsistent page_order out s v
run-IsConsistent (aligned count alignment out) s v =
    alloc_aligned-keeps IsConsistent claim-IsConsistent count alignment out s v
run-IsConsistent (in_range count max_addr out) s v =
    alloc_in_range-keeps IsConsistent claim-IsConsistent count max_addr out s v
run-IsConsistent (keep frame) s v = record {
  accounted = retain-Accounted frame s v.accounted;
  ordered = retain-HasOrders frame s v.ordered;
}
run-IsConsistent (drop frame) s v = record {
  accounted = release-Accounted frame s v.accounted;
  ordered = release-HasOrders frame s v.ordered;
}
run-IsConsistent (reserve start sz) s v = reserve_range-IsConsistent start sz s v

-- Whatever calls follow one another, successful or not: if the block counts of the free lists, each
-- times the size of its blocks, add up to `free_memory_bytes` modulo 2 ^ 64, and every page has an
-- order below 64, then both still hold after the last call.
pub run_all-IsConsistent : (cs : List Call) (s : Pmm) → IsConsistent s → IsConsistent (run_all cs s)
unfolding run_all
run_all-IsConsistent [] s v = v
run_all-IsConsistent (c ∷ cs) s v = run_all-IsConsistent cs (run c s) (run-IsConsistent c s v)
