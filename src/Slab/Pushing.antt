-- ===== src/Slab/Pushing.antt =====
-- `k_slab_free` as a push on the stack of free slots.
use arm_os.Base.{
  ℕ, suc, ◌*◌, ◌<◌, ◌^◌, ◌≡◌, ◌≢◌, refl, ap, true, false, ◌==◌, ◌||◌, not, List, ◌∷◌, length, has,
  if◌then◌else◌, update, arith, Bool-cases, inl, inr, test_self, ok, tt, err, einval,
}
use arm_os.Slab.State.{Pool, slot_addr, count_up}
use arm_os.Slab.Release.{slab_of, slot_of, misplaced, unlist, push_slot, return_slot, k_slab_free}
use arm_os.Slab.Layout.{
  IsLaid, page_of_slot, slot_of-slot_addr, slot-misplaced, slot-not_null, slots_few, slot-differs,
  slot-apart,
}
use arm_os.Slab.Stack.{Chained, Chained-frame, IsStack, unlist-IsStack, relist-IsStack}

pub test_ne : (a b : ℕ) → a ≢ b → (a == b) ≡ false
test_ne a b h = ground (arith, h)

-- The slot at `place i` comes back.
module _ (p : Pool) (obj i slab : ℕ) (free : List ℕ) (low : i < p.cache.slots_per_slab)
    (few : p.cache.slots_per_slab < 2 ^ 32) where
  push_slot-IsStack :
      slot_addr slab i p.cache ≡ obj
      → ((j : ℕ) → j < p.cache.slots_per_slab → j ≢ i → slot_addr slab j p.cache ≢ obj)
      → has i free ≡ false
      → length free < p.cache.slots_per_slab
      → IsStack p slab free
      → IsStack (push_slot obj i slab p) slab (i ∷ free)
  unfolding IsStack Chained push_slot
  push_slot-IsStack at apart once room (chain, count, most) =
      let self = test_self slab in
      let link : update p.words obj (p.slabs slab).next_free_slot obj
          ≡ (p.slabs slab).next_free_slot =
        rw (test_self obj) refl in
      let rest : Chained (λ k. slot_addr slab k p.cache) p.cache.slots_per_slab
          (update p.words obj (p.slabs slab).next_free_slot) (p.slabs slab).next_free_slot free =
        Chained-frame (λ k. slot_addr slab k p.cache) p.cache.slots_per_slab p.words
          (update p.words obj (p.slabs slab).next_free_slot) (p.slabs slab).next_free_slot free
          (λ j h m.
            let other : j ≢ i = λ e. cc (ap (λ x. has x free) e, m, once) in
            rw (test_ne (slot_addr slab j p.cache) obj (apart j h other)) refl)
          chain in
      rw self ((refl, low, once, rw (at, link) rest), rw count (omega (arith, room, few)), room)

  push_slot-other :
      (t : ℕ)
      → t ≢ slab
      → (other : List ℕ) → ((j : ℕ) → j < p.cache.slots_per_slab → slot_addr t j p.cache ≢ obj)
      → IsStack p t other
      → IsStack (push_slot obj i slab p) t other
  unfolding IsStack push_slot
  push_slot-other t ne other apart (chain, count, most) =
      let kept =
        Chained-frame (λ k. slot_addr t k p.cache) p.cache.slots_per_slab p.words
          (update p.words obj (p.slabs slab).next_free_slot) (p.slabs t).next_free_slot other
          (λ j h m. rw (test_ne (slot_addr t j p.cache) obj (apart j h)) refl) chain in
      rw (test_ne t slab ne) (kept, count, most)

-- The fields that `unlist` leaves as they were.
module _ (p : Pool) (slab : ℕ) where
  unlist-slot_addr : (t j : ℕ) → slot_addr t j (unlist slab p).cache ≡ slot_addr t j p.cache
  unfolding unlist slot_addr
  unlist-slot_addr t j = elim (Bool-cases ((p.slabs slab).free_count == 0)) [
    | inl e ↦ rw e refl
    | inr e ↦ elim (Bool-cases (count_up (p.slabs slab).free_count == p.cache.slots_per_slab)) [
      | inl d ↦ rw (e, d) refl
      | inr d ↦ rw (e, d) refl
    ]
  ]

  unlist-slots : (unlist slab p).cache.slots_per_slab ≡ p.cache.slots_per_slab
  unfolding unlist
  unlist-slots = ground arith

-- `k_slab_free` of an address whose slab and slot are known.
k_slab_free-eq :
    (cache : ℕ) (p : Pool) (obj slab i : ℕ)
    → cache ≢ 0
    → obj ≢ 0
    → p.cache.is_allocated ≡ true
    → slab_of obj ≡ slab
    → slot_of obj p.cache ≡ i
    → misplaced obj p.cache ≡ false
    → k_slab_free cache obj p ≡ (ok tt, return_slot obj i slab p)
unfolding k_slab_free
k_slab_free-eq cache p obj slab i named some live page slot inside = λ k.
    if test_ne cache 0 named k || test_ne obj 0 some k || not (live k)
    then (err einval, p)
    else if inside k
    then (err einval, p)
    else (ok tt, return_slot obj (slot k) (page k) p)

-- Slot `i` of the slab on page `n` comes back.
module _ (cache : ℕ) (p : Pool) (laid : IsLaid p.cache) (named : cache ≢ 0)
    (live : p.cache.is_allocated ≡ true) (n i : ℕ) (page : suc n < 2 ^ 52)
    (slot : i < p.cache.slots_per_slab) where
  freed :
      k_slab_free cache (slot_addr (n * 4096) i p.cache) p
      ≡ (ok tt, return_slot (slot_addr (n * 4096) i p.cache) i (n * 4096) p)
  freed =
      k_slab_free-eq cache p (slot_addr (n * 4096) i p.cache) (n * 4096) i named
        (slot-not_null p.cache laid n i page slot) live (page_of_slot p.cache laid n i page slot)
        (slot_of-slot_addr p.cache laid n i page slot) (slot-misplaced p.cache laid n i page slot)

  -- On a cache whose slots fit its pages, `k_slab_free` of a slot that is not free, of a slab whose
  -- chain of free slots is `free`, with fewer entries than there are slots, succeeds and leaves the
  -- chain with that slot in front, and every other chain of free slots as it was.
  pub k_slab_free-pushes :
      (free : List ℕ)
      → has i free ≡ false
      → length free < p.cache.slots_per_slab
      → IsStack p (n * 4096) free
      → (m : ℕ) → suc m < 2 ^ 52
      → m ≢ n
      → (other : List ℕ) → IsStack p (m * 4096) other
      → ((k_slab_free cache (slot_addr (n * 4096) i p.cache) p).0 ≡ ok tt)
        × IsStack (k_slab_free cache (slot_addr (n * 4096) i p.cache) p).1 (n * 4096) (i ∷ free)
        × IsStack (k_slab_free cache (slot_addr (n * 4096) i p.cache) p).1 (m * 4096) other
  unfolding return_slot
  k_slab_free-pushes free once room stack m page' ne other stack' =
      let slab = n * 4096 in
      let obj = slot_addr slab i p.cache in
      let q = unlist slab p in
      let slots = unlist-slots p slab in
      let at = unlist-slot_addr p slab in
      let few : q.cache.slots_per_slab < 2 ^ 32 = rw slots (slots_few p.cache laid) in
      let low : i < q.cache.slots_per_slab = rw slots slot in
      rw freed (
        refl,
        relist-IsStack (push_slot obj i slab q) slab slab (i ∷ free) (
            push_slot-IsStack q obj i slab free low few (at slab i)
              (λ j h d.
                rw (at slab j) (slot-differs p.cache laid n i page slot j (rw slots at h) d))
              once (rw slots room) (unlist-IsStack p slab slab free stack)),
        relist-IsStack (push_slot obj i slab q) slab (m * 4096) other (
            push_slot-other q obj i slab free low few (m * 4096) (λ e. ne (omega (arith, e))) other
              (λ j h.
                rw (at (m * 4096) j)
                  (slot-apart p.cache laid n i page slot m j page' (rw slots at h) ne))
              (unlist-IsStack p slab (m * 4096) other stack')),
      )
