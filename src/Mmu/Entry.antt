-- ===== src/Mmu/Entry.antt =====
-- The masks of pt.c and pt.h, as arithmetic on 64-bit words. Only an `|` of two unknown words and
-- the mask of scattered bits stay bit operations.
use arm_os.Base.{ℕ, ◌+◌, ◌*◌, ◌/◌, ◌%◌, ◌^◌, Bool, bit_or, ◌==◌}

-- `pte & 1`.
abbrev pub pte_valid : ℕ → Bool
pte_valid pte = pte % 2 == 1

-- `u64able`: `(pte & 3) == ARM_TABLE_DESCRIPTOR`.
abbrev pub is_table : ℕ → Bool
is_table pte = pte % 4 == 3

-- `pte & (1ULL << 1)`.
abbrev pub has_table_bit : ℕ → Bool
has_table_bit pte = pte / 2 % 2 == 1

-- `x & PAGE_MASK`. The mask clears the low 12 bits only.
abbrev pub page_mask : ℕ → ℕ
page_mask x = x / 4096 * 4096

-- `x & ~(size - 1)` and `x & (size - 1)` for the size of a block.
abbrev pub block_base : (size x : ℕ) → ℕ
block_base size x = x / size * size

abbrev pub block_offset : (size x : ℕ) → ℕ
block_offset size x = x % size

-- `x & PTE_ADDR_MASK`: bits 12 to 47.
abbrev pub pte_addr : ℕ → ℕ
pte_addr x = x % 2 ^ 48 / 4096 * 4096

-- `x | ARM_TABLE_DESCRIPTOR`, and `x | ARM_PAGE_DESCRIPTOR`, which is the same number.
abbrev pub with_descriptor : ℕ → ℕ
with_descriptor x = x / 4 * 4 + 3

-- `(f & ~(1ULL << 1)) | 1ULL`.
abbrev pub block_flags : ℕ → ℕ
block_flags f = f / 4 * 4 + 1

abbrev pub ps_4kb : ℕ
ps_4kb = 0x1000

abbrev pub ps_2mb : ℕ
ps_2mb = 0x20_0000

abbrev pub ps_1gb : ℕ
ps_1gb = 0x4000_0000

-- `PTE_RETURN_FLAG_MASK`: bits 2, 3, 6, 7 and 54.
abbrev pub return_flag_mask : ℕ
return_flag_mask = 0x40_0000_0000_00CC

-- `pt_indices`.
pub record PtIndices : Type 0 where
  pub l0_index : ℕ
  pub l1_index : ℕ
  pub l2_index : ℕ
  pub l3_index : ℕ
  pub offset : ℕ

abbrev pub extract_indices : ℕ → PtIndices
extract_indices virt = record {
  l0_index = virt / 2 ^ 39 % 512;
  l1_index = virt / 2 ^ 30 % 512;
  l2_index = virt / 2 ^ 21 % 512;
  l3_index = virt / 2 ^ 12 % 512;
  offset = virt % 4096;
}

-- What `pt_map` writes for a block, and for a page.
abbrev pub block_entry : (size paddr f : ℕ) → ℕ
block_entry size paddr f = bit_or (block_base size paddr) (block_flags f)

abbrev pub page_entry : (paddr f : ℕ) → ℕ
page_entry paddr f = with_descriptor (bit_or (page_mask paddr) f)
