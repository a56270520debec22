-- ===== src/Consensus.antt =====
-- bitcoin/src/consensus: the byte format of the Bitcoin protocol.
pub mod Result
pub mod Io
pub mod Codec
pub mod Vec
pub mod Limited
pub mod Serialize
