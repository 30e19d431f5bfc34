-- ===== src/Pmm/Startup.antt =====
-- `pmm_init` ends on every well-formed memory map, and counts exactly the free pages of the map.
use arm_os.Base.{
  ℕ, zero, suc, ◌+◌, ◌-◌, ◌*◌, ◌/◌, ◌%◌, ◌<◌, ◌≤◌, ◌≡◌, refl, arith, true, ◌&&◌, ltb, leb,
  if◌then◌else◌, Bool-cases, inl, inr, add64, sub64, mul64, some, List, [], ◌∷◌, Unit, tt, u64_mod,
  Bool, false, ◌||◌,
}
use arm_os.Pmm.State.{Pmm, BlockNode, block_bytes, list_add, mark_free, to_kv, to_index}
use arm_os.Pmm.Marks.{HasOrders}
use arm_os.Pmm.Orders.{mark_free-HasOrders}
use arm_os.Pmm.Account.{Accounted}
use arm_os.Pmm.Account.Sum.{◌≈◌, list_bytes, list_add-bytes}
use arm_os.Pmm.Init.{
  Region, region_end, is_free_region, fit_order, add_block, carve_loop, add_regions, place_meta,
  highest_loop, initial, init,
}

-- A block that is carved off fits what is left of the region, or is a single page.
fit_order_bounds :
    (o cursor remaining : ℕ)
    → (fit_order o cursor remaining ≤ o)
      × (4096 ≤ remaining → block_bytes (fit_order o cursor remaining) ≤ remaining)
unfolding fit_order
fit_order_bounds zero cursor remaining = (omega arith, λ h. h)
fit_order_bounds (suc o) cursor remaining = ground (arith, fit_order_bounds o cursor remaining)

fit_order_pos :
    (o cursor remaining : ℕ) → 0 < cursor → 0 < block_bytes (fit_order o cursor remaining)
unfolding fit_order
fit_order_pos zero cursor remaining h = omega arith
fit_order_pos (suc o) cursor remaining h = ground (arith, fit_order_pos o cursor remaining h)

-- The counters and the lists grow by `n` bytes, and the state stays consistent.
record Grown (n : ℕ) (s t : Pmm) : Type 0 where
  free_bytes : t.free_memory_bytes ≈ s.free_memory_bytes + n
  total_bytes : t.total_memory_bytes ≈ s.total_memory_bytes + n
  consistent : Accounted s → HasOrders s → Accounted t × HasOrders t

Grown-zero : (n : ℕ) (s : Pmm) → n ≡ 0 → Grown n s s
Grown-zero n s z = record {
  free_bytes = omega arith;
  total_bytes = omega arith;
  consistent = λ a o. (a, o);
}

Grown-trans : (a b n : ℕ) {s t u : Pmm} → n ≡ a + b → Grown a s t → Grown b t u → Grown n s u
Grown-trans a b n sum g h = record {
  free_bytes = omega arith;
  total_bytes = omega arith;
  consistent = λ p o. let (p', o') = g.consistent p o in h.consistent p' o';
}

add_block-Grown :
    (cursor order : ℕ) (s : Pmm)
    → order < 64
    → Grown (block_bytes order) s (add_block cursor order s)
unfolding add_block list_add mark_free
add_block-Grown cursor order s h = record {
  free_bytes = omega arith;
  total_bytes = omega arith;
  consistent = λ a o. (
    omega (arith, list_add-bytes order (to_kv s cursor) (mark_free (to_index cursor) order s) h),
    mark_free-HasOrders (to_index cursor) order s h o,
  );
}

-- The loop ends within its fuel, and adds the bytes from the cursor to the end.
carve_loop_total :
    (fuel cursor end : ℕ) (s : Pmm)
    → 0 < cursor
    → cursor ≤ end
    → end < u64_mod
    → (end - cursor) % 4096 ≡ 0
    → end - cursor < 4096 * fuel
    → (t : Pmm) × (carve_loop fuel cursor end s ≡ some t) × Grown (end - cursor) s t
unfolding carve_loop
carve_loop_total zero cursor end s p h b m f = absurd (omega arith)
carve_loop_total (suc k) cursor end s p h b m f = elim (Bool-cases (ltb cursor end)) [
  | inr e ↦ (s, rw e refl, Grown-zero (end - cursor) s (ground arith))
  | inl e ↦
      let remaining = sub64 end cursor in
      let left : remaining ≡ end - cursor = ground arith in
      let order = fit_order 63 cursor remaining in
      let bytes = block_bytes order in
      let (low, fits) = fit_order_bounds 63 cursor remaining in
      let room : 4096 ≤ remaining = ground arith in
      let some_page = fit_order_pos 63 cursor remaining p in
      let inside = fits room in
      let next : add64 cursor bytes ≡ cursor + bytes = omega arith in
      let (t, ran, grown) =
        carve_loop_total k (add64 cursor bytes) end (add_block cursor order s) (omega arith)
          (omega arith) b (omega arith) (omega arith) in
      let sum : end - cursor ≡ bytes + (end - add64 cursor bytes) = omega arith in
      (
        t,
        rw (e, carve_loop) ran,
        Grown-trans bytes (end - add64 cursor bytes) (end - cursor) sum
            (add_block-Grown cursor order s (omega arith)) grown,
      )
]

-- A region that the allocator can take over: page aligned, not at address 0, and in the 64-bit space.
pub record IsSound (r : Region) : Type 0 where
  pub not_zero : 0 < r.start
  pub aligned : r.start % 4096 ≡ 0
  pub bounded : r.start + r.size * 4096 < u64_mod

abbrev pub AllSound : List Region → Type 0
AllSound [] = Unit
AllSound (r ∷ rs) = (is_free_region r ≡ true → IsSound r) × AllSound rs

-- The bytes of the free regions.
unfoldable pub free_region_bytes : List Region → ℕ
free_region_bytes [] = 0
free_region_bytes (r ∷ rs) = (if is_free_region r then r.size * 4096 else 0) + free_region_bytes rs

region_total :
    (r : Region) (s : Pmm)
    → IsSound r
    → (t : Pmm) × (carve_loop (suc r.size) r.start (region_end r) s ≡ some t)
      × Grown (r.size * 4096) s t
region_total r s h =
    let stop : region_end r ≡ r.start + r.size * 4096 = omega arith in
    let (t, ran, grown) =
      carve_loop_total (suc r.size) r.start (region_end r) s h.not_zero (omega arith) (omega arith)
        (omega arith) (omega arith) in
    (
      t,
      ran,
      Grown-trans 0 (region_end r - r.start) (r.size * 4096) (omega arith) (Grown-zero 0 s refl)
          grown,
    )

add_regions_total :
    (rs : List Region) (s : Pmm)
    → AllSound rs
    → (t : Pmm) × (add_regions rs s ≡ some t) × Grown (free_region_bytes rs) s t
unfolding add_regions free_region_bytes
add_regions_total [] s h = (s, refl, Grown-zero 0 s refl)
add_regions_total (r ∷ rs) s h = elim (Bool-cases (is_free_region r)) [
  | inr e ↦
      let (t, ran, grown) = add_regions_total rs s h.1 in
      (
        t,
        rw (e, add_regions) ran,
        Grown-trans 0 (free_region_bytes rs) _ (rw e refl) (Grown-zero 0 s refl) grown,
      )
  | inl e ↦
      let (t, ran, grown) = region_total r s (h.0 e) in
      let (u, ran', grown') = add_regions_total rs t h.1 in
      (
        u,
        rw (e, ran, add_regions) ran',
        Grown-trans (r.size * 4096) (free_region_bytes rs) _ (rw e refl) grown grown',
      )
]

place_meta-AllSound :
    (needed : ℕ) (rs : List Region) → AllSound rs → AllSound (place_meta needed rs).1
unfolding place_meta is_free_region
place_meta-AllSound needed [] h = tt
place_meta-AllSound needed (r ∷ rs) h = elim (Bool-cases (is_free_region r && leb needed r.size)) [
  | inr e ↦ rw e (h.0, place_meta-AllSound needed rs h.1)
  | inl e ↦ rw e (λ f. shrunk (h.0 f) (ground arith), h.1)
]
  where
    shrunk :
        IsSound r
        → needed ≤ r.size
        → IsSound
            (record r { start = add64 r.start (mul64 needed 4096); size = sub64 r.size needed })
    shrunk v room = record {
      not_zero = omega (arith, v.not_zero, v.bounded);
      aligned = omega (arith, v.aligned, v.bounded);
      bounded = omega (arith, v.bounded);
    }

-- The pages of the metadata array: 8 bytes for each page up to the highest end of a region.
abbrev pub meta_pages : List Region → ℕ
meta_pages regions = add64 (mul64 (highest_loop regions 0 / 4096) 8) 4095 / 4096

-- Whether some free region has that many pages.
unfoldable pub has_room : (needed : ℕ) → List Region → Bool
has_room needed [] = false
has_room needed (r ∷ rs) = (is_free_region r && leb needed r.size) || has_room needed rs

-- The bytes that the metadata array takes of the free regions.
abbrev pub meta_bytes : List Region → ℕ
meta_bytes regions = if has_room (meta_pages regions) regions then meta_pages regions * 4096 else 0

-- The map that `pmm_init` hands out: the boot map without the pages of the metadata array.
abbrev managed : List Region → List Region
managed regions = (place_meta (meta_pages regions) regions).1

place_meta-bytes :
    (needed : ℕ) (rs : List Region)
    → AllSound rs
    → free_region_bytes (place_meta needed rs).1 + (if has_room needed rs then needed * 4096 else 0)
      ≡ free_region_bytes rs
unfolding place_meta free_region_bytes has_room is_free_region
place_meta-bytes needed [] h = refl
place_meta-bytes needed (r ∷ rs) h = elim (Bool-cases (is_free_region r && leb needed r.size)) [
  | inr e ↦ rw e (omega (arith, place_meta-bytes needed rs h.1))
  | inl e ↦
      let free : is_free_region r ≡ true = ground arith in
      let enough : needed ≤ r.size = ground arith in
      let left : sub64 r.size needed * 4096 + needed * 4096 ≡ r.size * 4096 =
        omega (arith, enough, (h.0 free).bounded) in
      rw e (rw free (omega (arith, left)))
]

initial-Accounted :
    (pages offset base : ℕ) (memory : ℕ → BlockNode) → Accounted (initial pages offset base memory)
unfolding initial list_bytes
initial-Accounted pages offset base memory = refl

initial-HasOrders :
    (pages offset base : ℕ) (memory : ℕ → BlockNode) → HasOrders (initial pages offset base memory)
unfolding initial
initial-HasOrders pages offset base memory i = omega arith

-- On a memory map whose free regions are page aligned, nonzero and within the address space
-- `pmm_init` ends. Both byte counters and the bytes of the metadata array, if some free region has
-- room for it, then add up to the bytes of the free regions, modulo 2 ^ 64; the block counts of the
-- free lists, each times the size of its blocks, add up to the free counter; and every page has an
-- order below 64.
pub init_total :
    (regions : List Region) (offset : ℕ) (memory : ℕ → BlockNode)
    → AllSound regions
    → (s : Pmm) × (init regions offset memory ≡ some s)
      × (s.free_memory_bytes + meta_bytes regions ≈ free_region_bytes regions)
      × (s.total_memory_bytes + meta_bytes regions ≈ free_region_bytes regions)
      × Accounted s
      × HasOrders s
unfolding init
init_total regions offset memory sound =
    let pages = highest_loop regions 0 / 4096 in
    let needed = add64 (mul64 pages 8) 4095 / 4096 in
    let base = add64 (place_meta needed regions).0 offset in
    let start = initial pages offset base memory in
    let (s, ran, grown) =
      add_regions_total (managed regions) start (place_meta-AllSound needed regions sound) in
    let (a, o) =
      grown.consistent (initial-Accounted pages offset base memory)
        (initial-HasOrders pages offset base memory) in
    let bytes = place_meta-bytes needed regions sound in
    let zero_free : start.free_memory_bytes ≡ 0 = unfold initial in refl in
    let zero_total : start.total_memory_bytes ≡ 0 = unfold initial in refl in
    (
      s,
      ran,
      omega (arith, grown.free_bytes, zero_free, bytes),
      omega (arith, grown.total_bytes, zero_total, bytes),
      a,
      o,
    )
