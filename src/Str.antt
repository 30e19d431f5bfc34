-- ===== src/Str.antt =====
-- The string module, modules2/src2/string/string.c. `Bytes` has the memory functions, `Text` those on
-- strings; the other children are proofs.
pub mod Bytes
pub mod Text
pub mod Moving
pub mod Copying
mod Tests
