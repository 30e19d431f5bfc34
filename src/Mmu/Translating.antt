-- ===== src/Mmu/Translating.antt =====
-- `pt_translate` of pt.c.
use arm_os.Base.{
  ℕ, ◌%◌, ◌||◌, not, bit_and, ◌==◌, if◌then◌else◌, add64, Result, ok, err, einval, efault,
}
use arm_os.Mmu.Entry.{
  pte_valid, has_table_bit, page_mask, block_base, block_offset, ps_2mb, ps_1gb, return_flag_mask,
  extract_indices,
}

-- The address and the flags that a block or page entry stands for.
abbrev pub leaf : (base offset entry : ℕ) → Result (ℕ × ℕ)
leaf base offset entry = ok (add64 base offset, bit_and entry return_flag_mask)

-- What the four entries on the way to `virt` make of it.
unfoldable pub decide : (virt e0 e1 e2 e3 : ℕ) → Result (ℕ × ℕ)
decide virt e0 e1 e2 e3 =
    if not (pte_valid e0)
    then err efault
    else if not (pte_valid e1)
    then err efault
    else if not (has_table_bit e1)
    then leaf (block_base ps_1gb e1) (block_offset ps_1gb virt) e1
    else if not (pte_valid e2)
    then err efault
    else if not (has_table_bit e2)
    then leaf (block_base ps_2mb e2) (block_offset ps_2mb virt) e2
    else if not (pte_valid e3)
    then err efault
    else if e3 % 4 == 0
    then err efault
    else leaf (page_mask e3) (virt % 4096) e3

-- The entries on the way from the table `l0` to `virt`, read whether or not those above are valid.
abbrev pub l0_entry : (tables : ℕ → ℕ → ℕ) → (l0 virt : ℕ) → ℕ
l0_entry tables l0 virt = tables l0 (extract_indices virt).l0_index

abbrev pub l1_entry : (tables : ℕ → ℕ → ℕ) → (l0 virt : ℕ) → ℕ
l1_entry tables l0 virt =
    tables (page_mask (l0_entry tables l0 virt)) (extract_indices virt).l1_index

abbrev pub l2_entry : (tables : ℕ → ℕ → ℕ) → (l0 virt : ℕ) → ℕ
l2_entry tables l0 virt =
    tables (page_mask (l1_entry tables l0 virt)) (extract_indices virt).l2_index

abbrev pub l3_entry : (tables : ℕ → ℕ → ℕ) → (l0 virt : ℕ) → ℕ
l3_entry tables l0 virt =
    tables (page_mask (l2_entry tables l0 virt)) (extract_indices virt).l3_index

-- The walk: an entry counts only where those above it are valid tables.
unfoldable pub walk : (tables : ℕ → ℕ → ℕ) → (l0 virt : ℕ) → Result (ℕ × ℕ)
unfolding decide
walk tables l0 virt =
    decide virt (l0_entry tables l0 virt) (l1_entry tables l0 virt) (l2_entry tables l0 virt)
      (l3_entry tables l0 virt)

unfoldable pub pt_translate : (root virt phys_out flags_out : ℕ) → (ℕ → ℕ → ℕ) → Result (ℕ × ℕ)
unfolding walk
pt_translate root virt phys_out flags_out tables =
    if (root == 0) || (phys_out == 0) || (flags_out == 0) then err einval else walk tables root virt
