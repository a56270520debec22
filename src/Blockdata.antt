-- ===== src/Blockdata.antt =====
-- bitcoin/src/blockdata: transactions and their parts in the byte format.
pub mod Witness
pub mod Transaction
pub mod Script
pub mod MerkleTree
pub mod PartialMerkleTree
pub mod MerkleBlock
pub mod Block
