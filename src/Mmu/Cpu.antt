-- ===== src/Mmu/Cpu.antt =====
-- The system registers and the translation buffer: `pt_set_user_ctx` and the like, `pt_flush`,
-- `pt_invalidate` and `pt_set_mair` of pt.c. The buffer is the sequence of operations on it.
use arm_os.Base.{
  ℕ, zero, suc, ◌+◌, ◌*◌, ◌/◌, ◌%◌, ◌^◌, List, [], ◌∷◌, ◌++◌, bit_or, ltb, leb, if◌then◌else◌,
  add64, mul64,
}
use arm_os.Mmu.Entry.{page_mask}

-- The `tlbi` instructions.
pub data TlbOp : Type 0 where
  -- `vmalle1is`
  all_entries : TlbOp
  -- `vae1is`
  kernel_page : (payload : ℕ) → TlbOp
  -- `vale1is`
  user_page : (payload : ℕ) → TlbOp

pub record Cpu : Type 0 where
  pub ttbr0 : ℕ
  pub ttbr1 : ℕ
  pub mair : ℕ
  pub tlb : List TlbOp

abbrev pub tlb_batch_threshold : ℕ
tlb_batch_threshold = 64

-- `((u64)asid << 48) | (root & PAGE_MASK)`.
abbrev pub ttbr : (root asid : ℕ) → ℕ
ttbr root asid = bit_or (asid % 2 ^ 16 * 2 ^ 48) (page_mask root)

unfoldable pub pt_set_user_ctx : (root asid : ℕ) → Cpu → Cpu
pt_set_user_ctx root asid c = record c { ttbr0 = ttbr root asid }

unfoldable pub pt_set_kernel_ctx : (root asid : ℕ) → Cpu → Cpu
pt_set_kernel_ctx root asid c = record c { ttbr1 = ttbr root asid }

-- The address space identifier stays in what these two answer: `PAGE_MASK` keeps the high bits.
unfoldable pub pt_get_user_ctx : Cpu → ℕ
pt_get_user_ctx c = page_mask c.ttbr0

unfoldable pub pt_get_kernel_ctx : Cpu → ℕ
pt_get_kernel_ctx c = page_mask c.ttbr1

unfoldable pub pt_flush : Cpu → Cpu
pt_flush c = record c { tlb = c.tlb ++ all_entries ∷ [] }

unfoldable pub pt_set_mair : (mair : ℕ) → Cpu → Cpu
pt_set_mair mair c = record c { mair = mair }

-- The operation for the page at `target` in the address space `asid`.
abbrev pub page_op : (asid target : ℕ) → TlbOp
page_op asid target =
    let payload = bit_or (target / 2 ^ 12 % 2 ^ 40) (asid * 2 ^ 48) in
    if leb 0xFFFF_8000_0000_0000 target then kernel_page payload else user_page payload

-- The loop over the pages that are left.
unfoldable pub page_ops : (k i asid virt pg_size : ℕ) → List TlbOp
page_ops zero i asid virt pg_size = []
page_ops (suc k) i asid virt pg_size =
    page_op asid (add64 virt (mul64 i pg_size)) ∷ page_ops k (i + 1) asid virt pg_size

unfoldable pub pt_invalidate : (virt pg_count pg_size : ℕ) → Cpu → Cpu
unfolding page_ops pt_flush
pt_invalidate virt pg_count pg_size c =
    let asid = c.ttbr0 / 2 ^ 48 % 2 ^ 16 in
    if ltb tlb_batch_threshold pg_count
    then pt_flush c
    else record c { tlb = c.tlb ++ page_ops pg_count 0 asid virt pg_size }
