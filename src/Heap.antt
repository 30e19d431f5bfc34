-- ===== src/Heap.antt =====
-- The kernel heap, modules/hnsorens/memory/heap/heap.c and heap.h. `Block` is the linked list of
-- blocks with its cuts and joins, and `Create`, `Malloc`, `Realloc` and `Memalign` the exported
-- functions. The other children are proofs.
pub mod Block
pub mod Create
pub mod Malloc
pub mod Realloc
pub mod Memalign
pub mod Chain
pub mod Splitting
pub mod Absorbing
pub mod Editing
pub mod Model
pub mod Fitting
pub mod Taking
pub mod Sweeping
pub mod Releasing
pub mod Freeing
pub mod Merged
pub mod Creating
pub mod Resizing
pub mod Moving
mod Tests
