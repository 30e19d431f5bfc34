-- ===== src/Slab/Refusing.antt =====
-- Where `k_slab_create_cache` and `k_slab_destroy_cache` do not what they mean to.
use arm_os.Base.{
  ℕ, ◌*◌, ◌-◌, ◌/◌, ◌^◌, ◌≤◌, ◌≡◌, ◌≢◌, refl, true, false, ◌==◌, add64, arith, inl, inr, Bool-cases,
  tt, ok, err, einval, zero, suc, List, [], ◌∷◌, length, ap, ◌∙◌,
}
use arm_os.Vmm.Registry
use arm_os.Vmm.State.{Backend, Vmm}
use arm_os.Slab.State.{Pool, KSlabs, slab_page_size}
use arm_os.Slab.Cache.{
  aligned_obj_size, refuses, new_cache, free_slabs, most_pages, k_slab_shrink, k_slab_destroy_cache,
}

wide_size : (size : ℕ) → 1 ≤ size → size ≤ 8192 → aligned_obj_size size 8192 ≡ 8192
unfolding aligned_obj_size
wide_size size some most =
    let sum : add64 size 8191 / 8192 * 8192 ≡ 8192 = omega arith in rw sum refl

-- An alignment of 8192 is accepted for objects of 1 to 8192 bytes, and the cache counts 2 ^ 51 - 1
-- slots of 8192 bytes to a page of 4096 bytes.
pub create_cache-wide :
    (root size out : ℕ)
    → 1 ≤ size
    → size ≤ 8192
    → out ≢ 0
    → (refuses size 8192 out ≡ false)
      × ((new_cache root size 8192).obj_size ≡ 8192)
      × ((new_cache root size 8192).slots_per_slab ≡ 2 ^ 51 - 1)
unfolding refuses new_cache
create_cache-wide root size out some most writes =
    let sized = wide_size size some most in
    (rw sized (ground (arith, some, writes)), sized, rw sized refl)

test_ne : (a : ℕ) → a ≢ 0 → (a == 0) ≡ false
test_ne a h = ground (arith, h)

module _ {b : Backend} (cache : ℕ) (p : Pool) where
  shrink-dropped_pool :
      (v : Vmm b) → p.cache.is_allocated ≡ false → k_slab_shrink cache p v ≡ (err einval, p, v)
  unfolding k_slab_shrink
  shrink-dropped_pool v h = elim (Bool-cases (cache == 0)) [
    | inl t ↦ rw t refl
    | inr t ↦ rw (t, h) refl
  ]

-- The cache behind `k_slab_destroy_cache`.
abbrev pub dropped_pool : Pool → Pool
dropped_pool p = record p {
  cache = record p.cache { is_allocated = false; slabs_full = 0; slabs_partial = 0 };
}

-- The slabs of a list, in the order of its `next` links, from `head` on.
unfoldable pub IsList : KSlabs → (head : ℕ) → List ℕ → Type 0
IsList f head [] = head ≡ 0
IsList f head (a ∷ rest) = (head ≡ a) × (a ≢ 0) × IsList f (f a).next rest

module _ {b : Backend} where
  -- The pages of a list are given back to the manager of address spaces, one after the other.
  unfoldable pub free_pages : (root : ℕ) → List ℕ → Vmm b → Vmm b
  free_pages root [] v = v
  free_pages root (a ∷ rest) v = free_pages root rest (Registry.free root a slab_page_size v).1

  pub free_slabs-free_pages :
      (k root head : ℕ) (f : KSlabs) (pages : List ℕ) (v : Vmm b)
      → IsList f head pages
      → length pages ≤ k
      → free_slabs k root head f v ≡ free_pages root pages v
  unfolding IsList free_pages free_slabs
  free_slabs-free_pages zero root head f [] v e fuel = refl
  free_slabs-free_pages zero root head f (a ∷ rest) v e fuel = absurd (omega arith)
  free_slabs-free_pages (suc k) root head f [] v e fuel = rw e refl
  free_slabs-free_pages (suc k) root head f (a ∷ rest) v (e, some, more) fuel =
      ap (λ x. free_slabs (suc k) root x f v) e
      ∙ rw (test_ne a some, free_slabs)
          (free_slabs-free_pages k root (f a).next f rest (Registry.free root a slab_page_size v).1
            more (omega arith))

module _ {b : Backend} (cache : ℕ) (p : Pool) (v : Vmm b) (named : cache ≢ 0)
    (live : p.cache.is_allocated ≡ true) (full partial empty : List ℕ)
    (fulls : IsList p.slabs p.cache.slabs_full full)
    (partials : IsList p.slabs p.cache.slabs_partial partial)
    (empties : IsList p.slabs p.cache.slabs_empty empty) (few : length full ≤ most_pages)
    (few' : length partial ≤ most_pages) (few'' : length empty ≤ most_pages) where
  -- For a cache with the lists `full`, `partial` and `empty` of slabs, of at most 2 ^ 52 each:
  -- `k_slab_shrink` gives back the pages of the empty slabs; `k_slab_destroy_cache` gives back those
  -- of the full ones, then of the partial ones, and no other, the list of empty slabs stays in the
  -- cache, and every `k_slab_shrink` after it is refused.
  pub destroy_keeps_empty :
      ((k_slab_shrink cache p v).2 ≡ free_pages p.cache.root empty v)
      × (k_slab_destroy_cache cache p v ≡ (
        ok tt,
        dropped_pool p,
        free_pages p.cache.root partial (free_pages p.cache.root full v),
      ))
      × IsList (dropped_pool p).slabs (dropped_pool p).cache.slabs_empty empty
      × ((w : Vmm b) → k_slab_shrink cache (dropped_pool p) w ≡ (err einval, dropped_pool p, w))
  unfolding k_slab_destroy_cache
  destroy_keeps_empty =
      let root = p.cache.root in
      let shrunk =
        free_slabs-free_pages most_pages root p.cache.slabs_empty p.slabs empty v empties few'' in
      let first =
        free_slabs-free_pages most_pages root p.cache.slabs_full p.slabs full v fulls few in
      let second =
        free_slabs-free_pages most_pages root p.cache.slabs_partial p.slabs partial
          (free_pages root full v) partials few' in
      (
        rw (test_ne cache named, live) shrunk,
        rw (test_ne cache named, live, first, second) refl,
        empties,
        λ w. shrink-dropped_pool cache (dropped_pool p) w refl,
      )
