-- ===== src/Tests.antt =====
-- The theorems at concrete values: a stack of two byte strings, a transaction that spends one output
-- with that stack, and the bytes they have on the wire.
pub mod Values
pub mod Encoding
pub mod Pow
pub mod Merkle
pub mod Stacks
pub mod Units
pub mod Sighash
pub mod Blocks
