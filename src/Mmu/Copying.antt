-- ===== src/Mmu/Copying.antt =====
-- `pt_free` and `pt_copy` of pt.c. A loop over the 512 entries of a table counts the entries that are
-- left, and goes on from entry `i`.
use arm_os.Base.{
  ℕ, zero, suc, ◌+◌, ◌&&◌, ◌||◌, not, ◌==◌, if◌then◌else◌, Unit, tt, Result, ok, err, einval,
}
use arm_os.Mmu.Entry.{pte_valid, is_table, page_mask, with_descriptor}
use arm_os.Mmu.State.{FrameSource, Mmu, on_ok, set_entry, release_frame, fresh_table}

module _ {b : FrameSource} where
  unfoldable pub free_l2_table : (k i l2 : ℕ) → Mmu b → Mmu b
  free_l2_table zero i l2 m = m
  free_l2_table (suc k) i l2 m =
      let e = m.tables l2 i in
      free_l2_table k (i + 1) l2
        (if pte_valid e && is_table e then release_frame (page_mask e) m else m)

  unfoldable pub free_l1_table : (k i l1 : ℕ) → Mmu b → Mmu b
  unfolding free_l2_table
  free_l1_table zero i l1 m = m
  free_l1_table (suc k) i l1 m =
      let e = m.tables l1 i in
      let freed = release_frame (page_mask e) (free_l2_table 512 0 (page_mask e) m) in
      free_l1_table k (i + 1) l1 (if not (pte_valid e) || not (is_table e) then m else freed)

  unfoldable pub free_l0_table : (k i l0 : ℕ) → Mmu b → Mmu b
  unfolding free_l1_table
  free_l0_table zero i l0 m = m
  free_l0_table (suc k) i l0 m =
      let e = m.tables l0 i in
      let freed = release_frame (page_mask e) (free_l1_table 512 0 (page_mask e) m) in
      free_l0_table k (i + 1) l0 (if not (pte_valid e) || not (is_table e) then m else freed)

  unfoldable pub pt_free : (root : ℕ) → Mmu b → Result (Unit {0}) × Mmu b
  unfolding free_l0_table
  pt_free root m =
      if root == 0
      then (err einval, m)
      else (ok tt, release_frame root (free_l0_table 512 0 root m))

  unfoldable pub copy_l3_table : (k i dst_l3 src_l3 : ℕ) → Mmu b → Mmu b
  unfolding set_entry
  copy_l3_table zero i dst_l3 src_l3 m = m
  copy_l3_table (suc k) i dst_l3 src_l3 m =
      copy_l3_table k (i + 1) dst_l3 src_l3 (set_entry dst_l3 i (m.tables src_l3 i) m)

  unfoldable pub copy_l2_table : (k i dst_l2 src_l2 : ℕ) → Mmu b → Result (Unit {0}) × Mmu b
  unfolding fresh_table set_entry copy_l3_table
  copy_l2_table zero i dst_l2 src_l2 m = (ok tt, m)
  copy_l2_table (suc k) i dst_l2 src_l2 m =
      let e = m.tables src_l2 i in
      let rest = λ (s : Mmu b). copy_l2_table k (i + 1) dst_l2 src_l2 s in
      if not (pte_valid e)
      then rest m
      else if not (is_table e)
      then rest (set_entry dst_l2 i e m)
      else on_ok (fresh_table m) λ new m'.
        rest (copy_l3_table 512 0 new (page_mask e) (set_entry dst_l2 i (with_descriptor new) m'))

  unfoldable pub copy_l1_table : (k i dst_l1 src_l1 : ℕ) → Mmu b → Result (Unit {0}) × Mmu b
  unfolding fresh_table set_entry copy_l2_table
  copy_l1_table zero i dst_l1 src_l1 m = (ok tt, m)
  copy_l1_table (suc k) i dst_l1 src_l1 m =
      let e = m.tables src_l1 i in
      let rest = λ (s : Mmu b). copy_l1_table k (i + 1) dst_l1 src_l1 s in
      if not (pte_valid e)
      then rest m
      else if not (is_table e)
      then rest (set_entry dst_l1 i e m)
      else on_ok (fresh_table m) λ new m'.
        on_ok (copy_l2_table 512 0 new (page_mask e) (set_entry dst_l1 i (with_descriptor new) m'))
          λ _ m''. rest m''

  -- A valid entry of the root is taken for a table.
  unfoldable pub copy_l0_table : (k i dst_l0 src_l0 : ℕ) → Mmu b → Result (Unit {0}) × Mmu b
  unfolding fresh_table set_entry copy_l1_table
  copy_l0_table zero i dst_l0 src_l0 m = (ok tt, m)
  copy_l0_table (suc k) i dst_l0 src_l0 m =
      let e = m.tables src_l0 i in
      let rest = λ (s : Mmu b). copy_l0_table k (i + 1) dst_l0 src_l0 s in
      if not (pte_valid e)
      then rest m
      else on_ok (fresh_table m) λ new m'.
        on_ok (copy_l1_table 512 0 new (page_mask e) (set_entry dst_l0 i (with_descriptor new) m'))
          λ _ m''. rest m''

  -- `fail_unwind`: what was copied is freed again.
  unfoldable pub finish_copy : (new_l0 : ℕ) → Result (Unit {0}) × Mmu b → Result ℕ × Mmu b
  unfolding pt_free
  finish_copy new_l0 (ok _, m) = (ok new_l0, m)
  finish_copy new_l0 (err e, m) = (err e, (pt_free new_l0 m).1)

  unfoldable pub pt_copy : (src_root dst_root : ℕ) → Mmu b → Result ℕ × Mmu b
  unfolding fresh_table copy_l0_table finish_copy
  pt_copy src_root dst_root m =
      if (src_root == 0) || (dst_root == 0)
      then (err einval, m)
      else on_ok (fresh_table m)
          λ new_l0 m'. finish_copy new_l0 (copy_l0_table 512 0 new_l0 src_root m')
