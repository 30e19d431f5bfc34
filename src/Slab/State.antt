-- ===== src/Slab/State.antt =====
-- The structures of slab.h and slab.c, and the two operations on the lists of slabs. A slab lies at
-- the start of a page of objects; the links between free objects are the words in them.
use arm_os.Base.{
  ℕ, ◌+◌, ◌-◌, ◌%◌, ◌^◌, Bool, ◌&&◌, ◌==◌, if◌then◌else◌, add64, mul64, update, align_up,
}

-- `k_slab`. An address 0 is NULL.
pub record KSlab : Type 0 where
  pub free_count : ℕ
  pub next_free_slot : ℕ
  pub next : ℕ
  pub prev : ℕ

-- The slabs by the addresses of their pages.
abbrev pub KSlabs : Type 0
KSlabs = ℕ → KSlab

-- `k_slab_cache_t`.
pub record KSlabCache : Type 0 where
  pub root : ℕ
  pub obj_size : ℕ
  pub alignment : ℕ
  pub slots_per_slab : ℕ
  pub slabs_full : ℕ
  pub slabs_partial : ℕ
  pub slabs_empty : ℕ
  pub is_allocated : Bool

-- A cache with its slabs and the 32-bit word at each address.
pub record Pool : Type 0 where
  pub cache : KSlabCache
  pub slabs : KSlabs
  pub words : ℕ → ℕ

abbrev pub slab_list_end : ℕ
slab_list_end = 0xFFFF_FFFF

abbrev pub slab_page_size : ℕ
slab_page_size = 4096

-- `sizeof(k_slab_t)`.
abbrev pub slab_header_size : ℕ
slab_header_size = 24

-- `n + 1` and `n - 1` on 32 bits.
abbrev pub count_up : ℕ → ℕ
count_up n = (n + 1) % 2 ^ 32

abbrev pub count_down : ℕ → ℕ
count_down n = (n + (2 ^ 32 - 1)) % 2 ^ 32

unfoldable pub get_payload_start : (slab alignment : ℕ) → ℕ
get_payload_start slab alignment = align_up (add64 slab slab_header_size) alignment

-- The address of a slot.
unfoldable pub slot_addr : (slab slot : ℕ) → KSlabCache → ℕ
slot_addr slab slot c = add64 (get_payload_start slab c.alignment) (mul64 slot c.obj_size)

-- `if (p) p->prev = q`.
unfoldable pub link_prev : (p q : ℕ) → KSlabs → KSlabs
link_prev p q f = if p == 0 then f else update f p (record (f p) { prev = q })

-- `if (p) p->next = q`.
unfoldable pub link_next : (p q : ℕ) → KSlabs → KSlabs
link_next p q f = if p == 0 then f else update f p (record (f p) { next = q })

-- The new head is the slab itself.
unfoldable pub enqueue_slab : (head slab : ℕ) → KSlabs → ℕ × KSlabs
unfolding link_prev
enqueue_slab head slab f =
    (slab, link_prev head slab (update f slab (record (f slab) { next = head; prev = 0 })))

unfoldable pub dequeue_slab : (head slab : ℕ) → KSlabs → ℕ × KSlabs
unfolding link_prev link_next
dequeue_slab head slab f =
    let f1 = link_next (f slab).prev (f slab).next f in
    let first = if ((f slab).prev == 0) && (head == slab) then (f slab).next else head in
    let f2 = link_prev (f1 slab).next (f1 slab).prev f1 in
    (first, update f2 slab (record (f2 slab) { next = 0; prev = 0 }))
