-- ===== src/Slab/Popping.antt =====
-- `k_slab_alloc` as a pop from the stack of free slots.
use arm_os.Base.{
  ℕ, ◌<◌, ◌^◌, ◌≡◌, ◌≢◌, refl, ap, ◌∙◌, true, false, ◌==◌, ◌||◌, not, Bool, List, ◌∷◌, length,
  if◌then◌else◌, arith, Bool-cases, inl, inr, test_self, ok, err, einval, Result,
}
use arm_os.Vmm.State.{Backend, Vmm}
use arm_os.Slab.State.{KSlabCache, Pool, slot_addr, count_down}
use arm_os.Slab.Alloc.{pop_slot, take_from, dequeue_empty, alloc_fresh, k_slab_alloc}
use arm_os.Slab.Layout.{IsLaid, slots_few}
use arm_os.Slab.Pushing.{test_ne}
use arm_os.Slab.Stack.{dequeue_empty-IsStack, Chained, IsStack, route-IsStack}

-- The slot at the head goes out.
module _ (p : Pool) (i slab : ℕ) (free : List ℕ) (few : p.cache.slots_per_slab < 2 ^ 32)
    (stack : IsStack p slab (i ∷ free)) where
  pop_slot-IsStack :
      ((pop_slot slab p).0 ≡ slot_addr slab i p.cache) × IsStack (pop_slot slab p).1 slab free
  unfolding IsStack Chained pop_slot
  pop_slot-IsStack =
      let ((first, low, once, rest), count, most) = stack in
      let down : count_down (length (i ∷ free)) ≡ length free = omega (arith, most, few) in
      rw (first, test_self slab, count) (refl, (rest, down, omega (arith, most)))

  pop_slot-other :
      (t : ℕ)
      → t ≢ slab
      → (other : List ℕ) → IsStack p t other
      → IsStack (pop_slot slab p).1 t other
  unfolding IsStack pop_slot
  pop_slot-other t ne other s = rw (test_ne t slab ne) s

-- The slab that `k_slab_alloc` takes a slot of, where the cache has one with a free slot.
abbrev pub first_slab : KSlabCache → ℕ
first_slab c = if c.slabs_partial == 0 then c.slabs_empty else c.slabs_partial

module _ (p : Pool) (i slab : ℕ) (free : List ℕ) (few : p.cache.slots_per_slab < 2 ^ 32) where
  take_from-IsStack :
      (fresh : Bool)
      → IsStack p slab (i ∷ free)
      → ((take_from fresh slab p).0 ≡ slot_addr slab i p.cache)
        × IsStack (take_from fresh slab p).1 slab free
  unfolding take_from
  take_from-IsStack fresh stack =
      let (addr, popped) = pop_slot-IsStack p i slab free few stack in
      (addr, route-IsStack (pop_slot slab p).1 slab slab free fresh popped)

  take_from-other :
      (fresh : Bool) (t : ℕ)
      → t ≢ slab
      → (other : List ℕ) → IsStack p slab (i ∷ free)
      → IsStack p t other
      → IsStack (take_from fresh slab p).1 t other
  unfolding take_from
  take_from-other fresh t ne other stack s =
      route-IsStack (pop_slot slab p).1 slab t other fresh
        (pop_slot-other p i slab free few stack t ne other s)

dequeue_empty-slot_addr :
    (p : Pool) (slab i : ℕ)
    → slot_addr slab i (dequeue_empty slab p).cache ≡ slot_addr slab i p.cache
unfolding slot_addr
dequeue_empty-slot_addr p slab i = refl

module _ {b : Backend} (cache out : ℕ) (p : Pool) (v : Vmm b) (laid : IsLaid p.cache)
    (named : cache ≢ 0) (writes : out ≢ 0) (live : p.cache.is_allocated ≡ true) (slab : ℕ)
    (chosen : first_slab p.cache ≡ slab) (some : slab ≢ 0) where
  from_empty :
      (p.cache.slabs_partial == 0) ≡ true
      → p.cache.slabs_empty ≡ slab
      → k_slab_alloc cache out p v ≡ (
        ok (take_from true slab (dequeue_empty slab p)).0,
        (take_from true slab (dequeue_empty slab p)).1,
        v,
      )
  unfolding k_slab_alloc
  from_empty none empty =
      let there : (p.cache.slabs_empty == 0) ≡ false = rw empty (test_ne slab 0 some) in
      λ k.
        if test_ne cache 0 named k || not (live k) || test_ne out 0 writes k
        then (err einval, p, v)
        else if not (none k)
        then (
          ok (take_from false p.cache.slabs_partial p).0,
          (take_from false p.cache.slabs_partial p).1,
          v,
        )
        else if not (there k)
        then (
          ok (take_from true (empty k) (dequeue_empty (empty k) p)).0,
          (take_from true (empty k) (dequeue_empty (empty k) p)).1,
          v,
        )
        else alloc_fresh p v

  from_partial :
      (p.cache.slabs_partial == 0) ≡ false
      → p.cache.slabs_partial ≡ slab
      → k_slab_alloc cache out p v ≡ (ok (take_from false slab p).0, (take_from false slab p).1, v)
  unfolding k_slab_alloc
  from_partial partial first =
      let empty = p.cache.slabs_empty in
      let later : Result ℕ × Pool × Vmm b =
        if not (empty == 0)
        then (
          ok (take_from true empty (dequeue_empty empty p)).0,
          (take_from true empty (dequeue_empty empty p)).1,
          v,
        )
        else alloc_fresh p v in
      λ k.
        if test_ne cache 0 named k || not (live k) || test_ne out 0 writes k
        then (err einval, p, v)
        else if not (partial k)
        then (ok (take_from false (first k) p).0, (take_from false (first k) p).1, v)
        else later

  -- On a cache whose slots fit its pages, with a slab that has free slots, `k_slab_alloc` answers the
  -- slot in front of the chain of the first partial slab, or of the first empty one where none is
  -- partial; it leaves that chain without this slot, and every other chain and the manager of
  -- address spaces as they were.
  pub k_slab_alloc-pops :
      (i : ℕ) (free : List ℕ)
      → IsStack p slab (i ∷ free)
      → (t : ℕ) → t ≢ slab
      → (other : List ℕ) → IsStack p t other
      → ((k_slab_alloc cache out p v).0 ≡ ok (slot_addr slab i p.cache))
        × IsStack (k_slab_alloc cache out p v).1 slab free
        × IsStack (k_slab_alloc cache out p v).1 t other
        × ((k_slab_alloc cache out p v).2 ≡ v)
  k_slab_alloc-pops i free stack t ne other s =
      let few = slots_few p.cache laid in
      elim (Bool-cases (p.cache.slabs_partial == 0)) [
        | inl none ↦
            let empty : p.cache.slabs_empty ≡ slab = (rw none at chosen) in
            let q = dequeue_empty slab p in
            let stack' = dequeue_empty-IsStack p slab slab (i ∷ free) stack in
            let (addr, kept) = take_from-IsStack q i slab free few true stack' in
            rw (from_empty none empty) (
              ap (λ x. ok x) (addr ∙ dequeue_empty-slot_addr p slab i),
              kept,
              take_from-other q i slab free few true t ne other stack'
                  (dequeue_empty-IsStack p slab t other s),
              refl,
            )
        | inr partial ↦
            let first : p.cache.slabs_partial ≡ slab = (rw partial at chosen) in
            let (addr, kept) = take_from-IsStack p i slab free few false stack in
            rw (from_partial partial first) (
              ap (λ x. ok x) addr,
              kept,
              take_from-other p i slab free few false t ne other stack s,
              refl,
            )
      ]
