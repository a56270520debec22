-- ===== src/Internals.antt =====
-- The `internals` crate.
pub mod CompactSize
