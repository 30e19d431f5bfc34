-- ===== src/Vmm/Editing.antt =====
-- `vmm_free`, `vmm_protect` and `vmm_query` on one space. The descriptor `s` is the one that
-- `get_space` answered for `root`.
use arm_os.Base.{
  ℕ, zero, suc, ◌/◌, ◌&&◌, ◌||◌, none, some, ◌==◌, ltb, if◌then◌else◌, add64, sub64, align_up, Unit,
  tt, Result, ok, err, enomem, einval,
}
use arm_os.Vmm.Area.{Area, area_end, alignment}
use arm_os.Vmm.Tree.{update_area}
use arm_os.Vmm.State.{Backend, Space, Vmm}
use arm_os.Vmm.Slabs.{vma_alloc, vma_free}
use arm_os.Vmm.Space.{find_vma, insert_vma, remove_tree_node}

-- `vma->... = ...` through a pointer to a node of the tree.
unfoldable pub write_area : ℕ → (Area → Area) → Space → Space
write_area id f s = record s { vma_head = update_area id f s.vma_head }

unfoldable pub forget : Space → Space
forget s = record s { mmap_cache = none }

-- The part of an area from `base` on, of the given size.
unfoldable pub part : (base size : ℕ) → Area → Area
part base size a = record a { base = base; size = size }

-- `vma->base += sz; vma->size -= sz`.
unfoldable pub trim_front : ℕ → Area → Area
trim_front sz a = record a { base = add64 a.base sz; size = sub64 a.size sz }

-- `vma->size -= sz`.
unfoldable pub trim_back : ℕ → Area → Area
trim_back sz a = record a { size = sub64 a.size sz }

-- The loop over the pages: what is mapped is unmapped, and its frame released.
unfoldable pub unmap_loop : (b : Backend) (rounds root vaddr i : ℕ) → b.State → b.State
unmap_loop b zero root vaddr i hw = hw
unmap_loop b (suc k) root vaddr i hw =
    let at = add64 vaddr i in
    let done : b.State = elim (b.translate root at hw) [
      | err e ↦ hw
      | ok phys ↦ (b.release phys (b.unmap root at 1 hw).1).1
    ] in
    unmap_loop b k root vaddr (add64 i alignment) done

module _ {b : Backend} where
  -- The third track: the range lies inside the area, and what follows it gets a node of its own.
  unfoldable pub split_area :
      (vaddr sz id : ℕ) → Area → Space → Vmm b → Result (Unit {0}) × Space × Vmm b
  unfolding part insert_vma write_area forget
  split_area vaddr sz id a s v =
      let (fresh, w) = vma_alloc v in
      let base = add64 vaddr sz in
      elim fresh [
        | none ↦ (err enomem, s, w)
        | some n ↦ (
          ok tt,
          forget (
              insert_vma n (part base (sub64 (area_end a) base) a)
                (write_area id (part a.base (sub64 vaddr a.base)) s)),
          w,
        )
      ]

  -- The range leaves the area: a complete drop, an edge trim, or a split.
  unfoldable pub cut_area :
      (vaddr sz id : ℕ) → Area → Space → Vmm b → Result (Unit {0}) × Space × Vmm b
  unfolding trim_front trim_back forget write_area split_area
  cut_area vaddr sz id a s v =
      if vaddr == a.base && sz == a.size
      then (let (t, w) = remove_tree_node id s v in (ok tt, forget t, w))
      else if vaddr == a.base
      then (ok tt, forget (write_area id (trim_front sz) s), v)
      else if add64 vaddr sz == area_end a
      then (ok tt, forget (write_area id (trim_back sz) s), v)
      else split_area vaddr sz id a s v

  unfoldable pub vmm_free : (root vaddr sz : ℕ) → Space → Vmm b → Result (Unit {0}) × Space × Vmm b
  unfolding cut_area unmap_loop
  vmm_free root vaddr sz s v =
      let (hit, t) = find_vma vaddr s in
      let size = align_up sz alignment in
      elim hit [
        | none ↦ (err einval, t, v)
        | some (id, a) ↦
            if ltb vaddr a.base || ltb (area_end a) (add64 vaddr sz)
            then (err einval, t, v)
            else cut_area vaddr size id a t (
                if a.is_paged
                then record v { hw = unmap_loop b (size / alignment) root vaddr 0 v.hw }
                else v)
      ]

  -- The two edge tracks of `vmm_protect`: `trim` is what the old node loses.
  unfoldable pub protect_edge :
      (vaddr sz new_flags id : ℕ)
      → Area
      → (Area → Area)
      → Space
      → Vmm b
      → Result (Unit {0}) × Space × Vmm b
  unfolding part insert_vma write_area forget
  protect_edge vaddr sz new_flags id a trim s v =
      let (fresh, w) = vma_alloc v in
      elim fresh [
        | none ↦ (err enomem, s, w)
        | some n ↦ (
          ok tt,
          forget (
              insert_vma n (record (part vaddr sz a) { flags = new_flags }) (write_area id trim s)),
          w,
        )
      ]

  -- The middle track after `mid_node` and `right_node` were allocated.
  unfoldable pub protect_pieces :
      (vaddr sz new_flags id : ℕ)
      → Area
      → (mid right : ℕ) → Space
      → Vmm b
      → Result (Unit {0}) × Space × Vmm b
  unfolding part insert_vma forget
  protect_pieces vaddr sz new_flags id a mid right s v =
      let (t, w) = remove_tree_node id s v in
      let (left, u) = vma_alloc w in
      let right_base = add64 vaddr sz in
      elim left [
        | none ↦ (err enomem, t, vma_free right (vma_free mid u))
        | some n ↦ (
          ok tt,
          forget (
              insert_vma right (part right_base (sub64 (area_end a) right_base) a) (
                insert_vma mid (record (part vaddr sz a) { flags = new_flags })
                  (insert_vma n (part a.base (sub64 vaddr a.base) a) t))),
          u,
        )
      ]

  unfoldable pub protect_middle :
      (vaddr sz new_flags id : ℕ) → Area → Space → Vmm b → Result (Unit {0}) × Space × Vmm b
  unfolding protect_pieces
  protect_middle vaddr sz new_flags id a s v =
      let (mid, w) = vma_alloc v in
      let (right, u) = vma_alloc w in
      elim mid [
        | none ↦ elim right [ none ↦ (err enomem, s, u) | some r ↦ (err enomem, s, vma_free r u) ]
        | some m ↦ elim right [
          | none ↦ (err enomem, s, vma_free m u)
          | some r ↦ protect_pieces vaddr sz new_flags id a m r s u
        ]
      ]

  unfoldable pub protect_area :
      (vaddr sz new_flags id : ℕ) → Area → Space → Vmm b → Result (Unit {0}) × Space × Vmm b
  unfolding protect_edge protect_middle trim_front trim_back forget write_area
  protect_area vaddr sz new_flags id a s v =
      if vaddr == a.base && sz == a.size
      then (ok tt, forget (write_area id (λ c. record c { flags = new_flags }) s), v)
      else if vaddr == a.base
      then protect_edge vaddr sz new_flags id a (trim_front sz) s v
      else if add64 vaddr sz == area_end a
      then protect_edge vaddr sz new_flags id a (trim_back sz) s v
      else protect_middle vaddr sz new_flags id a s v

  unfoldable pub vmm_protect :
      (root vaddr sz new_flags : ℕ) → Space → Vmm b → Result (Unit {0}) × Space × Vmm b
  unfolding protect_area
  vmm_protect root vaddr sz new_flags s v =
      let (hit, t) = find_vma vaddr s in
      let size = align_up sz alignment in
      elim hit [
        | none ↦ (err einval, t, v)
        | some (id, a) ↦
            let (status, hw) = b.protect root vaddr (size / alignment) new_flags v.hw in
            let done : Result (Unit {0}) × Space × Vmm b = elim status [
              | err e ↦ (err e, t, record v { hw = hw })
              | ok _ ↦ protect_area vaddr size new_flags id a t (record v { hw = hw })
            ] in
            if ltb vaddr a.base || ltb (area_end a) (add64 vaddr sz)
            then (err einval, t, v)
            else done
      ]

  -- The answer is the record of the area that covers the address.
  unfoldable pub vmm_query : (vaddr : ℕ) → Space → Vmm b → Result Area × Space × Vmm b
  vmm_query vaddr s v =
      let (hit, t) = find_vma vaddr s in
      elim hit [ none ↦ (err einval, t, v) | some (id, a) ↦ (ok a, t, v) ]
