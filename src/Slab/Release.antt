-- ===== src/Slab/Release.antt =====
-- `k_slab_free` of slab.c.
use arm_os.Base.{
  ℕ, ◌/◌, ◌%◌, ◌^◌, Bool, not, ◌==◌, ◌||◌, ltb, leb, if◌then◌else◌, add64, sub64, update,
  align_down, Unit, tt, Result, ok, err, einval,
}
use arm_os.Slab.State.{KSlabCache, Pool, slab_page_size, count_up, count_down, get_payload_start}
use arm_os.Slab.Alloc.{enqueue_partial, enqueue_empty, dequeue_full, dequeue_partial}

-- The slab on the page of an object.
abbrev pub slab_of : (obj : ℕ) → ℕ
slab_of obj = align_down obj slab_page_size

-- The index of the slot that an address lies in.
unfoldable pub slot_of : (obj : ℕ) → KSlabCache → ℕ
slot_of obj c = sub64 obj (get_payload_start (slab_of obj) c.alignment) / c.obj_size % 2 ^ 32

-- The tests of the address.
unfoldable pub misplaced : (obj : ℕ) → KSlabCache → Bool
misplaced obj c =
    ltb obj (get_payload_start (slab_of obj) c.alignment)
    || leb (add64 (slab_of obj) slab_page_size) obj
    || leb c.slots_per_slab (slot_of obj c)

-- The slab leaves the list of full ones, or that of partial ones when its last object comes back.
unfoldable pub unlist : (slab : ℕ) → Pool → Pool
unlist slab p =
    let n = (p.slabs slab).free_count in
    if n == 0
    then dequeue_full slab p
    else if count_up n == p.cache.slots_per_slab
    then dequeue_partial slab p
    else p

-- The slot becomes the head of the slab's chain.
unfoldable pub push_slot : (obj slot slab : ℕ) → Pool → Pool
push_slot obj slot slab p =
    let s = p.slabs slab in
    record p {
      words = update p.words obj s.next_free_slot;
      slabs =
          update p.slabs slab
            (record s { next_free_slot = slot; free_count = count_up s.free_count });
    }

unfoldable pub relist : (slab : ℕ) → Pool → Pool
relist slab p =
    let n = (p.slabs slab).free_count in
    if n == p.cache.slots_per_slab
    then enqueue_empty slab p
    else if count_down n == 0
    then enqueue_partial slab p
    else p

-- The part of `k_slab_free` behind its tests.
unfoldable pub return_slot : (obj slot slab : ℕ) → Pool → Pool
return_slot obj slot slab p = relist slab (push_slot obj slot slab (unlist slab p))

unfoldable pub k_slab_free : (cache obj : ℕ) → Pool → Result (Unit {0}) × Pool
k_slab_free cache obj p =
    let slab = slab_of obj in
    if (cache == 0) || (obj == 0) || not p.cache.is_allocated
    then (err einval, p)
    else if misplaced obj p.cache
    then (err einval, p)
    else (ok tt, return_slot obj (slot_of obj p.cache) slab p)
