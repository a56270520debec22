-- ===== src/Primitives.antt =====
-- The `primitives` crate: the data of transactions.
pub mod Buffer
pub mod Witness
pub mod LockTime
pub mod Sequence
pub mod Transaction
pub mod Txid
pub mod Block
