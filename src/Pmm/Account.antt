-- ===== src/Pmm/Account.antt =====
-- The byte accounting of pmm.c: `free_memory_bytes` against the block counts of the free lists, each
-- times the size of its blocks. That a list links as many nodes as it counts is not part of it.
pub mod Sum
use arm_os.Base.{
  ℕ, zero, suc, ◌+◌, ◌-◌, ◌%◌, ◌<◌, ◌≤◌, ◌≡◌, refl, ap, arith, Option, some, none, List, [], ◌∷◌,
  u64_mod, add64, sub64, ◌||◌, not, bit_xor, ◌==◌, ltb, leb, if◌then◌else◌, Bool, Bool-cases, inl,
  inr, Option-cases,
}
use arm_os.Pmm.State.{
  Pmm, block_bytes, list_add, list_remove, mark_free, mark_taken, to_kv, kv_to_paddr, to_index,
}
use arm_os.Pmm.Alloc.{
  split_loop, claim, alloc_loop, alloc_page, walk, search_loop, order_loop, order_of, alloc_aligned,
  alloc_in_range,
}
use arm_os.Pmm.Free.{Merged, merge_loop, give_back, free_page, retain, release}
use arm_os.Pmm.Orders.{merge_loop-order}
use native.Mathlib.Numerals.{add-one}
use Sum.{list_bytes, ◌≈◌, block_bytes-suc, list_add-bytes, list_remove-bytes}

-- The counter agrees with the block counts of the lists, as a 64-bit word.
abbrev pub Accounted : Pmm → Type 0
Accounted s = list_bytes 64 s.orders % u64_mod ≡ s.free_memory_bytes

-- Splitting turns one block of order `p + k` into one of order `p` and the listed halves.
split_loop-bytes :
    (k p phys : ℕ) (s : Pmm)
    → p + k ≤ 64
    → list_bytes 64 (split_loop k p phys s).orders + block_bytes p
      ≈ list_bytes 64 s.orders + block_bytes (p + k)
unfolding split_loop mark_free
split_loop-bytes zero p phys s h = let e : p + 0 ≡ p = omega arith in rw e refl
split_loop-bytes (suc k) p phys s h =
    let order = p + k in
    let buddy = add64 phys (block_bytes order) in
    let marked = mark_free (to_index buddy) order s in
    let e : p + suc k ≡ suc (p + k) = omega arith in
    rw e (
      omega (
        arith,
        split_loop-bytes k p phys (list_add order (to_kv s buddy) marked) (omega arith),
        list_add-bytes order (to_kv s buddy) marked (omega arith),
        block_bytes-suc order,
      ))

split_loop-free :
    (k p phys : ℕ) (s : Pmm) → (split_loop k p phys s).free_memory_bytes ≡ s.free_memory_bytes
unfolding split_loop mark_free list_add
split_loop-free zero p phys s = refl
split_loop-free (suc k) p phys s = split_loop-free k p phys _

module _ (found p node : ℕ) (s : Pmm) (order : p ≤ found) (inside : found < 64) where
  pub claim-Accounted : Accounted s → Accounted (claim found p node s).1
  unfolding claim mark_taken
  claim-Accounted a =
      let phys = kv_to_paddr s node in
      let cleared = mark_taken (to_index phys) found (list_remove found node s) in
      let kept : cleared.free_memory_bytes ≡ s.free_memory_bytes = unfold list_remove in refl in
      let e : p + (found - p) ≡ found = omega arith in
      omega (
        arith,
        kept,
        split_loop-bytes (found - p) p phys cleared (omega arith),
        ap block_bytes e,
        split_loop-free (found - p) p phys cleared,
        list_remove-bytes found node s inside,
      )

merge_loop-bytes :
    (k order frame : ℕ) (s : Pmm)
    → order + k < 64
    → list_bytes 64 (merge_loop k order frame s).state.orders
        + block_bytes (merge_loop k order frame s).order
      ≈ list_bytes 64 s.orders + block_bytes order
unfolding merge_loop mark_taken
merge_loop-bytes zero order frame s h = refl
merge_loop-bytes (suc k) order frame s h =
    let buddy = bit_xor frame (block_bytes order) in
    let index = to_index buddy in
    let m = s.meta_array index in
    let removed = list_remove order (to_kv s buddy) s in
    let merged = if ltb frame buddy then frame else buddy in
    elim (Bool-cases (leb s.total_pages index || (not m.is_free || not (m.order == order)))) [
      | inl e ↦ rw e refl
      | inr e ↦ rw e (
          omega (
            arith,
            merge_loop-bytes k (order + 1) merged (mark_taken index order removed) (omega arith),
            list_remove-bytes order (to_kv s buddy) s (omega arith),
            block_bytes-suc order,
            ap block_bytes (add-one order),
          ))
    ]

merge_loop-free :
    (k order frame : ℕ) (s : Pmm)
    → (merge_loop k order frame s).state.free_memory_bytes ≡ s.free_memory_bytes
unfolding merge_loop mark_taken list_remove
merge_loop-free zero order frame s = refl
merge_loop-free (suc k) order frame s =
    let buddy = bit_xor frame (block_bytes order) in
    let index = to_index buddy in
    let m = s.meta_array index in
    elim (Bool-cases (leb s.total_pages index || (not m.is_free || not (m.order == order)))) [
      | inl e ↦ rw e refl
      | inr e ↦ rw e (merge_loop-free k (order + 1) _ _)
    ]

pub free_page-Accounted : (p frame : ℕ) (s : Pmm) → Accounted s → Accounted (free_page p frame s).1
unfolding free_page give_back mark_free
free_page-Accounted p frame s a = elim (Bool-cases (leb 64 p || not (frame % 4096 == 0))) [
  | inl e ↦ rw e a
  | inr e ↦
      let m = merge_loop (63 - p) p frame s in
      let inside : p < 64 = ground arith in
      let marked = mark_free (to_index m.frame) m.order m.state in
      let node = to_kv m.state m.frame in
      let kept : (list_add m.order node marked).free_memory_bytes ≡ m.state.free_memory_bytes =
        unfold list_add in refl in
      rw e (
        omega (
          arith,
          kept,
          merge_loop-bytes (63 - p) p frame s (omega arith),
          merge_loop-free (63 - p) p frame s,
          list_add-bytes m.order node marked (omega (arith, merge_loop-order (63 - p) p frame s)),
        ))
]

pub retain-Accounted : (frame : ℕ) (s : Pmm) → Accounted s → Accounted (retain frame s).1
unfolding retain
retain-Accounted frame s a =
    elim (Bool-cases
      (leb s.total_pages (to_index frame) || (s.meta_array (to_index frame)).is_free)) [
        | inl e ↦ rw e a
        | inr e ↦ rw e a
      ]

pub release-Accounted : (frame : ℕ) (s : Pmm) → Accounted s → Accounted (release frame s).1
unfolding release
release-Accounted frame s a =
    let index = to_index frame in
    let m = s.meta_array index in
    elim (Bool-cases (leb s.total_pages index || m.is_free)) [
      | inl e ↦ rw e a
      | inr e ↦ elim (Bool-cases (ltb 0 m.ref_count)) [
        | inr e' ↦ rw (e, e') a
        | inl e' ↦ elim (Bool-cases (m.ref_count - 1 == 0)) [
          | inl z ↦ rw (e, e', z) (free_page-Accounted m.order frame _ a)
          | inr z ↦ rw (e, e', z) a
        ]
      ]
    ]
