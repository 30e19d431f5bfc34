-- ===== src/Mmu.antt =====
-- The page tables, modules/hnsorens/memory/mmu/pt.c and pt.h. `Entry` has the masks and fields of an
-- entry, `State` the tables and the interface to the frames, `Cpu` the registers and the
-- translation buffer, `Mapping`, `Unmapping`, `Protecting`, `Translating` and `Copying` the
-- exported functions. The other children are proofs.
pub mod Entry
pub mod State
pub mod Cpu
pub mod Translating
pub mod Mapping
pub mod Unmapping
pub mod Protecting
pub mod Copying
pub mod Clearing
pub mod Unmapped
pub mod Owned
pub mod Resolving
pub mod Mapped
pub mod Reading
pub mod Roundtrip
pub mod Refusing
mod Tests
