-- ===== src/Pow.antt =====
-- bitcoin/src/pow.rs: 256-bit integers, targets, work, compact targets and retargeting.
pub mod U256
pub mod Target
pub mod Division
pub mod Product
pub mod Work
pub mod Compact
pub mod Retarget
