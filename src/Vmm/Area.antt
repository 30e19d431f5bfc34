-- ===== src/Vmm/Area.antt =====
-- The areas of an address space, vmm.h and include/api/vmm.h.
use arm_os.Base.{ℕ, Bool, ◌&&◌, ltb, leb, add64}

pub data RegionType : Type 0 where
  free : RegionType
  code : RegionType
  region_data : RegionType
  stack : RegionType
  heap : RegionType
  mmio : RegionType
  guard : RegionType

-- What a tree node says of its segment. The links of the node are those of `Tree`, and `in_use`,
-- which the code writes and never reads, is left out.
pub record Area : Type 0 where
  pub base : ℕ
  pub size : ℕ
  pub flags : ℕ
  pub kind : RegionType
  pub is_paged : Bool

abbrev pub area_end : Area → ℕ
area_end a = add64 a.base a.size

-- `addr >= base && addr < (base + size)`.
abbrev pub covers : Area → ℕ → Bool
covers a addr = leb a.base addr && ltb addr (area_end a)

abbrev pub alignment : ℕ
alignment = 4096

abbrev pub user_space_min : ℕ
user_space_min = 0x1000

abbrev pub user_space_max : ℕ
user_space_max = 0x7FFF_FFFF_F000

abbrev pub kernel_space_min : ℕ
kernel_space_min = 0xFFFF_8000_0000_0000
