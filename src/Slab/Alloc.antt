-- ===== src/Slab/Alloc.antt =====
-- `k_slab_alloc` of slab.c.
use arm_os.Base.{
  ℕ, zero, suc, ◌%◌, ◌^◌, Bool, true, false, not, ◌==◌, ◌||◌, if◌then◌else◌, sub64, update, Result,
  ok, err, einval, enomem,
}
use arm_os.Vmm.Area.{RegionType}
use arm_os.Vmm.State.{Backend, Vmm}
use arm_os.Vmm.Registry
use arm_os.Slab.State.{
  KSlabCache, Pool, slab_list_end, slab_page_size, count_down, slot_addr, enqueue_slab,
  dequeue_slab,
}
use arm_os.Slab.Cache.{slab_base}

-- The loop over the slots, from slot `i` on: each links to the next.
unfoldable pub link_slots : (rounds i slab : ℕ) → KSlabCache → (ℕ → ℕ) → ℕ → ℕ
unfolding slot_addr
link_slots zero i slab c w = w
link_slots (suc k) i slab c w = link_slots k (suc i) slab c (update w (slot_addr slab i c) (suc i))

-- The words of a new slab: all slots linked, the last one to the end.
unfoldable pub link_all : (slab : ℕ) → KSlabCache → (ℕ → ℕ) → ℕ → ℕ
unfolding link_slots
link_all slab c w =
    let last = sub64 c.slots_per_slab 1 in
    update (link_slots last 0 slab c w) (slot_addr slab last c) slab_list_end

-- A slab on the page that the manager of address spaces answered, in no list.
unfoldable pub fresh_slab : (slab : ℕ) → Pool → Pool
unfolding link_all
fresh_slab slab p = record p {
  slabs = update p.slabs slab (record {
    free_count = p.cache.slots_per_slab % 2 ^ 32;
    next_free_slot = 0;
    next = 0;
    prev = 0;
  });
  words = link_all slab p.cache p.words;
}

-- The slot at the head of the slab's chain is taken out.
unfoldable pub pop_slot : (slab : ℕ) → Pool → ℕ × Pool
pop_slot slab p =
    let s = p.slabs slab in
    let addr = slot_addr slab s.next_free_slot p.cache in
    (
      addr,
      record p {
        slabs =
            update p.slabs slab
              (record s { next_free_slot = p.words addr; free_count = count_down s.free_count });
      },
    )

abbrev pub enqueue_full : (slab : ℕ) → Pool → Pool
enqueue_full slab p =
    let (head, f) = enqueue_slab p.cache.slabs_full slab p.slabs in
    record p { cache = record p.cache { slabs_full = head }; slabs = f }

abbrev pub enqueue_partial : (slab : ℕ) → Pool → Pool
enqueue_partial slab p =
    let (head, f) = enqueue_slab p.cache.slabs_partial slab p.slabs in
    record p { cache = record p.cache { slabs_partial = head }; slabs = f }

abbrev pub enqueue_empty : (slab : ℕ) → Pool → Pool
enqueue_empty slab p =
    let (head, f) = enqueue_slab p.cache.slabs_empty slab p.slabs in
    record p { cache = record p.cache { slabs_empty = head }; slabs = f }

abbrev pub dequeue_full : (slab : ℕ) → Pool → Pool
dequeue_full slab p =
    let (head, f) = dequeue_slab p.cache.slabs_full slab p.slabs in
    record p { cache = record p.cache { slabs_full = head }; slabs = f }

abbrev pub dequeue_partial : (slab : ℕ) → Pool → Pool
dequeue_partial slab p =
    let (head, f) = dequeue_slab p.cache.slabs_partial slab p.slabs in
    record p { cache = record p.cache { slabs_partial = head }; slabs = f }

abbrev pub dequeue_empty : (slab : ℕ) → Pool → Pool
dequeue_empty slab p =
    let (head, f) = dequeue_slab p.cache.slabs_empty slab p.slabs in
    record p { cache = record p.cache { slabs_empty = head }; slabs = f }

-- The list that the slab goes to.
unfoldable pub route : (fresh_or_empty : Bool) → (slab : ℕ) → Pool → Pool
route fresh_or_empty slab p =
    let is_full = (p.slabs slab).free_count == 0 in
    if fresh_or_empty
    then if is_full then enqueue_full slab p else enqueue_partial slab p
    else if is_full
    then enqueue_full slab (dequeue_partial slab p)
    else p

unfoldable pub take_from : (fresh_or_empty : Bool) → (slab : ℕ) → Pool → ℕ × Pool
take_from fresh_or_empty slab p =
    let (addr, q) = pop_slot slab p in (addr, route fresh_or_empty slab q)

module _ {b : Backend} where
  -- A page for a new slab.
  unfoldable pub alloc_fresh : Pool → Vmm b → Result ℕ × Pool × Vmm b
  alloc_fresh p v =
      let (r, w) =
        Registry.allocate p.cache.root 1 slab_base slab_page_size 0x713 RegionType.heap v in
      elim r [
        | err e ↦ (err enomem, p, w)
        | ok slab ↦ let (addr, q) = take_from true slab (fresh_slab slab p) in (ok addr, q, w)
      ]

  unfoldable pub k_slab_alloc : (cache out : ℕ) → Pool → Vmm b → Result ℕ × Pool × Vmm b
  k_slab_alloc cache out p v =
      let partial = p.cache.slabs_partial in
      let empty = p.cache.slabs_empty in
      let (a1, p1) = take_from false partial p in
      let (a2, p2) = take_from true empty (dequeue_empty empty p) in
      if (cache == 0) || not p.cache.is_allocated || (out == 0)
      then (err einval, p, v)
      else if not (partial == 0)
      then (ok a1, p1, v)
      else if not (empty == 0)
      then (ok a2, p2, v)
      else alloc_fresh p v
