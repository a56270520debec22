-- ===== src/Crypto/Sighash.antt =====
-- bitcoin/src/crypto/sighash.rs: what is signed of a transaction, and its cache.
pub mod EcdsaType
pub mod TapType
pub mod Prevouts
pub mod Cache
pub mod SegwitV0
pub mod Taproot
pub mod Legacy
pub mod History
