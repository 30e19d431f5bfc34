-- ===== src/Vmm.antt =====
-- The virtual memory manager, modules/hnsorens/memory/vmm/vmm.c and vmm.h. `Area` and `Tree` are the
-- search tree of areas, `State` the manager's state and the interface to the other managers, `Slabs`
-- the two node pools, `Space` the lookups of one space, and `Mapping`, `Editing` and `Registry` the
-- exported functions. The other children are proofs.
pub mod Area
pub mod Tree
pub mod State
pub mod Slabs
pub mod Space
pub mod Editing
pub mod Mapping
pub mod Registry
pub mod Sorted
pub mod Removed
pub mod Nodes
pub mod Writes
pub mod Lookup
pub mod Sound
pub mod Pool
pub mod Freeing
pub mod Protecting
pub mod Gaps
pub mod Allocating
pub mod Reserving
pub mod Teardown
pub mod Sample
mod Tests
