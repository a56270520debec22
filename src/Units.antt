-- ===== src/Units.antt =====
-- The `units` crate: amounts, weights and lock times.
pub mod Amount
pub mod Weight
pub mod Absolute
pub mod U64
