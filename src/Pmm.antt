-- ===== src/Pmm.antt =====
-- The binary-buddy physical memory manager, modules/hnsorens/memory/pmm/pmm.c and pmm.h.
-- `State` has the data and the list primitives, the other children the operations and their proofs.
pub mod State
pub mod Alloc
pub mod Free
pub mod Init
pub mod Reserve
pub mod Marks
mod Tests
pub mod Choice
pub mod Reserving
pub mod Placing
pub mod Claiming
pub mod Buddies
pub mod Joining
pub mod Merging
pub mod Calls
pub mod Startup
pub mod Keeps
pub mod Orders
pub mod Account
