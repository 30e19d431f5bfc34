-- ===== src/Pmm/State.antt =====
-- The allocator's state, pmm.h, and the primitives of pmm.c on it: address geometry, the intrusive
-- free lists and the loops over the page metadata.
use arm_os.Base.{
  ℕ, zero, suc, ◌+◌, ◌/◌, ◌^◌, Bool, true, false, ◌==◌, if◌then◌else◌, update, add64, sub64, mul64,
}

abbrev pub max_order : ℕ
max_order = 64

abbrev pub page_size : ℕ
page_size = 4096

pub record PageMeta : Type 0 where
  pub ref_count : ℕ
  pub order : ℕ
  pub is_free : Bool
  pub flags : ℕ

-- Pointers are addresses, and 0 is NULL.
pub record BlockNode : Type 0 where
  pub next : ℕ
  pub prev : ℕ

pub record OrderList : Type 0 where
  pub head : ℕ
  pub block_count : ℕ

-- `g_pmm_allocator` and the other globals of the file. `nodes` is the memory of the free pages, read
-- as list nodes at kernel virtual addresses; `meta_base` is where the metadata array was placed.
pub record Pmm : Type 0 where
  pub orders : ℕ → OrderList
  pub total_memory_bytes : ℕ
  pub free_memory_bytes : ℕ
  pub meta_array : ℕ → PageMeta
  pub meta_base : ℕ
  pub total_pages : ℕ
  pub hhdm_offset : ℕ
  pub nodes : ℕ → BlockNode

unfoldable pub to_kv : Pmm → ℕ → ℕ
to_kv s phys = add64 phys s.hhdm_offset

unfoldable pub kv_to_paddr : Pmm → ℕ → ℕ
kv_to_paddr s virt = sub64 virt s.hhdm_offset

abbrev pub to_index : ℕ → ℕ
to_index phys = phys / page_size

abbrev pub index_to_paddr : ℕ → ℕ
index_to_paddr index = mul64 index page_size

-- `1UL << order`, for an order below 64.
abbrev pub block_pages : ℕ → ℕ
block_pages order = 2 ^ order

-- `(1UL << order) * PMM_PAGE_SIZE`.
abbrev pub block_bytes : ℕ → ℕ
block_bytes order = mul64 (block_pages order) page_size

abbrev pub set_next : (ℕ → BlockNode) → ℕ → ℕ → ℕ → BlockNode
set_next nodes p v = update nodes p (record (nodes p) { next = v })

abbrev pub set_prev : (ℕ → BlockNode) → ℕ → ℕ → ℕ → BlockNode
set_prev nodes p v = update nodes p (record (nodes p) { prev = v })

-- The new links of `pmm_list_add`: the node in front, and the old head's back link.
unfoldable pub link_front : (ℕ → BlockNode) → ℕ → ℕ → ℕ → BlockNode
link_front nodes head node =
    let linked = update nodes node (record { next = head; prev = 0 }) in
    if head == 0 then linked else set_prev linked head node

unfoldable pub list_add : ℕ → ℕ → Pmm → Pmm
unfolding link_front
list_add order node s =
    let list = s.orders order in
    record s {
      orders =
          update s.orders order (record { head = node; block_count = add64 list.block_count 1 });
      nodes = link_front s.nodes list.head node;
    }

-- The links of `pmm_list_remove`. The second test reads the node after the first write.
unfoldable pub unlink : (ℕ → BlockNode) → ℕ → ℕ → BlockNode
unlink nodes node =
    let n = nodes node in
    let forward = if n.prev == 0 then nodes else set_next nodes n.prev n.next in
    let m = forward node in if m.next == 0 then forward else set_prev forward m.next m.prev

unfoldable pub list_remove : ℕ → ℕ → Pmm → Pmm
unfolding unlink
list_remove order node s =
    let list = s.orders order in
    let n = s.nodes node in
    record s {
      orders = update s.orders order (record {
        head = if n.prev == 0 then n.next else list.head;
        block_count = sub64 list.block_count 1;
      });
      nodes = unlink s.nodes node;
    }

-- `for (p = 0; p < n; p++) f(&g_pmm_meta_array[base + p])`.
unfoldable pub mark_pages : ℕ → ℕ → (PageMeta → PageMeta) → (ℕ → PageMeta) → ℕ → PageMeta
mark_pages zero base f m = m
mark_pages (suc n) base f m = mark_pages n (base + 1) f (update m base (f (m base)))

abbrev pub as_taken : PageMeta → PageMeta
as_taken m = record m { is_free = false }

abbrev pub as_free : ℕ → PageMeta → PageMeta
as_free order m = record m { is_free = true; order = order; ref_count = 0 }

-- The two loops over the pages of a block of the given order.
unfoldable pub mark_taken : ℕ → ℕ → Pmm → Pmm
mark_taken index order s = record s {
  meta_array = mark_pages (block_pages order) index as_taken s.meta_array;
}

unfoldable pub mark_free : ℕ → ℕ → Pmm → Pmm
mark_free index order s = record s {
  meta_array = mark_pages (block_pages order) index (as_free order) s.meta_array;
}
