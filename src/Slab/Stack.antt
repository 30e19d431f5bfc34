-- ===== src/Slab/Stack.antt =====
-- The free slots of a slab: what the chain of links in them stands for.
use arm_os.Base.{
  ℕ, ◌≤◌, ◌<◌, ◌≡◌, refl, ◌∙◌, true, false, ◌==◌, Bool, List, [], ◌∷◌, length, has, arith,
  Bool-cases, inl, inr, test_self,
}
use arm_os.Slab.Alloc.{
  enqueue_full, enqueue_partial, enqueue_empty, dequeue_full, dequeue_partial, dequeue_empty, route,
}
use arm_os.Slab.Release.{unlist, relist}
use arm_os.Slab.State.{
  count_up, count_down, KSlabs, Pool, slab_list_end, slot_addr, enqueue_slab, dequeue_slab,
}

-- The slots that the links in `words` lead through, from `first` on, each once and below `n`; slot
-- `i` lies at `place i`.
unfoldable pub Chained : (place : ℕ → ℕ) (n : ℕ) (words : ℕ → ℕ) (first : ℕ) → List ℕ → Type 0
Chained place n words first [] = first ≡ slab_list_end
Chained place n words first (i ∷ rest) =
    (first ≡ i) × (i < n) × (has i rest ≡ false) × Chained place n words (words (place i)) rest

-- The free slots of the slab on the page at `slab`, in the order in which they go out.
unfoldable pub IsStack : Pool → (slab : ℕ) → List ℕ → Type 0
unfolding Chained
IsStack p slab free =
    Chained (λ i. slot_addr slab i p.cache) p.cache.slots_per_slab p.words
      (p.slabs slab).next_free_slot free
    × ((p.slabs slab).free_count ≡ length free)
    × (length free ≤ p.cache.slots_per_slab)

-- A change of words that the chain does not lead through.
pub Chained-frame :
    (place : ℕ → ℕ) (n : ℕ) (words words' : ℕ → ℕ) (first : ℕ) (free : List ℕ)
    → ((j : ℕ) → j < n → has j free ≡ true → words' (place j) ≡ words (place j))
    → Chained place n words first free
    → Chained place n words' first free
unfolding Chained
Chained-frame place n words words' first [] same e = e
Chained-frame place n words words' first (i ∷ rest) same (e, low, once, more) =
    let here : words' (place i) ≡ words (place i) = same i low (rw (test_self i) refl) in
    (
      e,
      low,
      once,
      rw here (
          Chained-frame place n words words' (words (place i)) rest
            (λ j h m. same j h (rw m (ground arith))) more),
    )

-- What the two list operations leave of a slab.
module _ (head slab t : ℕ) (f : KSlabs) where
  pub enqueue-free_count : ((enqueue_slab head slab f).1 t).free_count ≡ (f t).free_count
  unfolding enqueue_slab
  enqueue-free_count = ground arith

  pub enqueue-next_free_slot :
      ((enqueue_slab head slab f).1 t).next_free_slot ≡ (f t).next_free_slot
  unfolding enqueue_slab
  enqueue-next_free_slot = ground arith

  pub dequeue-free_count : ((dequeue_slab head slab f).1 t).free_count ≡ (f t).free_count
  unfolding dequeue_slab
  dequeue-free_count = ground arith

  pub dequeue-next_free_slot :
      ((dequeue_slab head slab f).1 t).next_free_slot ≡ (f t).next_free_slot
  unfolding dequeue_slab
  dequeue-next_free_slot = ground arith

-- The lists that a slab is in are no part of its stack.
module _ (p : Pool) (slab t : ℕ) (free : List ℕ) where
  enqueue_full-IsStack : IsStack p t free → IsStack (enqueue_full slab p) t free
  unfolding IsStack slot_addr
  enqueue_full-IsStack (c, e, h) =
      let f = p.slabs in
      let head = p.cache.slabs_full in
      (rw (enqueue-next_free_slot head slab t f) c, enqueue-free_count head slab t f ∙ e, h)

  enqueue_partial-IsStack : IsStack p t free → IsStack (enqueue_partial slab p) t free
  unfolding IsStack slot_addr
  enqueue_partial-IsStack (c, e, h) =
      let f = p.slabs in
      let head = p.cache.slabs_partial in
      (rw (enqueue-next_free_slot head slab t f) c, enqueue-free_count head slab t f ∙ e, h)

  enqueue_empty-IsStack : IsStack p t free → IsStack (enqueue_empty slab p) t free
  unfolding IsStack slot_addr
  enqueue_empty-IsStack (c, e, h) =
      let f = p.slabs in
      let head = p.cache.slabs_empty in
      (rw (enqueue-next_free_slot head slab t f) c, enqueue-free_count head slab t f ∙ e, h)

  dequeue_full-IsStack : IsStack p t free → IsStack (dequeue_full slab p) t free
  unfolding IsStack slot_addr
  dequeue_full-IsStack (c, e, h) =
      let f = p.slabs in
      let head = p.cache.slabs_full in
      (rw (dequeue-next_free_slot head slab t f) c, dequeue-free_count head slab t f ∙ e, h)

  dequeue_partial-IsStack : IsStack p t free → IsStack (dequeue_partial slab p) t free
  unfolding IsStack slot_addr
  dequeue_partial-IsStack (c, e, h) =
      let f = p.slabs in
      let head = p.cache.slabs_partial in
      (rw (dequeue-next_free_slot head slab t f) c, dequeue-free_count head slab t f ∙ e, h)

  pub dequeue_empty-IsStack : IsStack p t free → IsStack (dequeue_empty slab p) t free
  unfolding IsStack slot_addr
  dequeue_empty-IsStack (c, e, h) =
      let f = p.slabs in
      let head = p.cache.slabs_empty in
      (rw (dequeue-next_free_slot head slab t f) c, dequeue-free_count head slab t f ∙ e, h)

  pub unlist-IsStack : IsStack p t free → IsStack (unlist slab p) t free
  unfolding unlist
  unlist-IsStack s = elim (Bool-cases ((p.slabs slab).free_count == 0)) [
    | inl e ↦ rw e (dequeue_full-IsStack s)
    | inr e ↦ elim (Bool-cases (count_up (p.slabs slab).free_count == p.cache.slots_per_slab)) [
      | inl d ↦ rw (e, d) (dequeue_partial-IsStack s)
      | inr d ↦ rw (e, d) s
    ]
  ]

  pub relist-IsStack : IsStack p t free → IsStack (relist slab p) t free
  unfolding relist
  relist-IsStack s = elim (Bool-cases ((p.slabs slab).free_count == p.cache.slots_per_slab)) [
    | inl e ↦ rw e (enqueue_empty-IsStack s)
    | inr e ↦ elim (Bool-cases (count_down (p.slabs slab).free_count == 0)) [
      | inl d ↦ rw (e, d) (enqueue_partial-IsStack s)
      | inr d ↦ rw (e, d) s
    ]
  ]

module _ (p : Pool) (slab t : ℕ) (free : List ℕ) where
  pub route-IsStack : (fresh : Bool) → IsStack p t free → IsStack (route fresh slab p) t free
  unfolding route
  route-IsStack fresh s = elim (Bool-cases ((p.slabs slab).free_count == 0)) [
    | inl e ↦ elim (Bool-cases fresh) [
      | inl d ↦ rw (d, e) (enqueue_full-IsStack p slab t free s)
      | inr d ↦
          rw (d, e)
            (enqueue_full-IsStack (dequeue_partial slab p) slab t free
              (dequeue_partial-IsStack p slab t free s))
    ]
    | inr e ↦ elim (Bool-cases fresh) [
      | inl d ↦ rw (d, e) (enqueue_partial-IsStack p slab t free s)
      | inr d ↦ rw (d, e) s
    ]
  ]
