-- ===== src/Slab/Cache.antt =====
-- `k_slab_create_cache`, `k_slab_shrink` and `k_slab_destroy_cache` of slab.c.
use arm_os.Base.{
  ℕ, zero, suc, ◌-◌, ◌/◌, ◌^◌, Bool, false, true, not, ◌==◌, ◌||◌, ltb, if◌then◌else◌, sub64,
  align_up, bit_and, Unit, tt, Result, ok, err, einval, enomem,
}
use arm_os.Vmm.Area.{RegionType}
use arm_os.Vmm.State.{Backend, Vmm}
use arm_os.Vmm.Registry
use arm_os.Slab.State.{KSlabs, KSlabCache, Pool, slab_page_size, slab_header_size}

-- The address that the cache asks the manager of address spaces for.
abbrev pub slab_base : ℕ
slab_base = 0xFFFF_9000_0000_0000

-- `aligned_obj_size`.
unfoldable pub aligned_obj_size : (size alignment : ℕ) → ℕ
aligned_obj_size size alignment =
    let aligned = align_up size alignment in if ltb aligned 4 then 4 else aligned

-- The bytes of a page behind its header, `SLAB_PAGE_SIZE - localized_payload_start`.
unfoldable pub payload_room : (alignment : ℕ) → ℕ
payload_room alignment = sub64 slab_page_size (align_up slab_header_size alignment)

-- The tests of the arguments, up to the one on the size of a page.
unfoldable pub refuses : (size alignment out : ℕ) → Bool
unfolding aligned_obj_size payload_room
refuses size alignment out =
    (size == 0)
    || (alignment == 0)
    || (out == 0)
    || not (bit_and alignment (alignment - 1) == 0)
    || ltb (payload_room alignment) (aligned_obj_size size alignment)

unfoldable pub new_cache : (root size alignment : ℕ) → KSlabCache
unfolding aligned_obj_size payload_room
new_cache root size alignment = record {
  root = root;
  obj_size = aligned_obj_size size alignment;
  alignment = alignment;
  slots_per_slab = payload_room alignment / aligned_obj_size size alignment;
  slabs_full = 0;
  slabs_partial = 0;
  slabs_empty = 0;
  is_allocated = true;
}

-- The pages of 2 ^ 64 bytes.
abbrev pub most_pages : ℕ
most_pages = 2 ^ 52

module _ {b : Backend} where
  -- The address of the descriptor's page and the descriptor.
  unfoldable pub k_slab_create_cache :
      (root size alignment out : ℕ) → Vmm b → Result (ℕ × KSlabCache) × Vmm b
  unfolding refuses new_cache
  k_slab_create_cache root size alignment out v =
      let (r, w) = Registry.allocate root 1 slab_base slab_page_size 0x713 RegionType.heap v in
      let cache = new_cache root size alignment in
      let done : Result (ℕ × KSlabCache) × Vmm b = elim r [
        | err e ↦ (err enomem, w)
        | ok vaddr ↦
            if cache.slots_per_slab == 0
            then (err einval, (Registry.free root vaddr slab_page_size w).1)
            else (ok (vaddr, cache), w)
      ] in
      if refuses size alignment out then (err einval, v) else done

  -- A loop that gives back the pages of a list; the link is read before its page goes.
  unfoldable pub free_slabs : (rounds root curr : ℕ) → KSlabs → Vmm b → Vmm b
  free_slabs zero root curr f v = v
  free_slabs (suc k) root curr f v = elim (curr == 0) [
    | true ↦ v
    | false ↦
        let next = (f curr).next in
        free_slabs k root next f (Registry.free root curr slab_page_size v).1
  ]

  unfoldable pub k_slab_shrink : (cache : ℕ) → Pool → Vmm b → Result (Unit {0}) × Pool × Vmm b
  k_slab_shrink cache p v =
      if (cache == 0) || not p.cache.is_allocated then (err einval, p, v) else (
        ok tt,
        record p { cache = record p.cache { slabs_empty = 0 } },
        free_slabs most_pages p.cache.root p.cache.slabs_empty p.slabs v,
      )

  -- The call of `k_slab_shrink` at the end finds the cache dropped, and does nothing.
  unfoldable pub k_slab_destroy_cache :
      (cache : ℕ) → Pool → Vmm b → Result (Unit {0}) × Pool × Vmm b
  unfolding k_slab_shrink
  k_slab_destroy_cache cache p v =
      let c = record p.cache { is_allocated = false } in
      let w = free_slabs most_pages c.root c.slabs_full p.slabs v in
      let u = free_slabs most_pages c.root c.slabs_partial p.slabs w in
      let dropped_pool = record p { cache = record c { slabs_full = 0; slabs_partial = 0 } } in
      let (r, q, x) = k_slab_shrink cache dropped_pool u in
      if (cache == 0) || not p.cache.is_allocated then (err einval, p, v) else (ok tt, q, x)
