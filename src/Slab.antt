-- ===== src/Slab.antt =====
-- The slab allocator, modules/hnsorens/memory/slab.
pub mod State
pub mod Cache
pub mod Alloc
pub mod Release
pub mod Layout
pub mod Creating
pub mod Refusing
pub mod Stack
pub mod Pushing
pub mod Popping
mod Tests
