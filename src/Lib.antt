-- ===== src/Lib.antt =====
-- The consensus core of Rust-Riecoin: compact sizes, the consensus encoding, witnesses, transactions
-- with their hashes and sizes, signature hashes, Merkle trees and Merkle blocks, blocks and their
-- validation, proof of work and retargeting, lock times, amounts and weights.
--
-- How the program is put together. The crate `internals` encodes compact sizes; `units` has amounts,
-- weights and the ranges of lock times; `primitives` has transactions and the witness, which keeps its
-- elements and a cursor to each in one byte buffer; `bitcoin` writes and reads all of them through the
-- traits `Encodable` and `Decodable`. A transaction is written with or without the SegWit marker; its
-- decoder tells the two by an empty list of inputs, and reads the witnesses behind the outputs. What is
-- signed of a transaction is written from the same encodings by a SighashCache, which keeps the hashes
-- that several inputs share. A block is a header with transactions; its validation compares the Merkle
-- root of the transaction hashes with the header, and that of the witness hashes with the coinbase. A
-- Merkle block has the header and those hashes from which the same root and some of the transactions can
-- be checked without the others. The bits of a header are the compact form of a target, which the hash of
-- the header meets as a number, and from which the target of the next period is computed.
--
-- Which file models what:
--   Internals/CompactSize     internals/src/compact_size.rs
--   Units/Amount, U64         units/src/amount/unsigned.rs and the checked operations of u64
--   Units/Weight              units/src/weight.rs
--   Units/Absolute            units/src/locktime/absolute.rs
--   Primitives/Buffer         the slice operations and cursors of primitives/src/witness.rs
--   Primitives/Witness        primitives/src/witness.rs
--   Primitives/LockTime       primitives/src/locktime/absolute.rs
--   Primitives/Sequence       primitives/src/sequence.rs
--   Primitives/Transaction, Txid   primitives/src/transaction.rs
--   Consensus/Result, Io, Codec, Vec, Serialize   bitcoin/src/consensus/encode.rs and error.rs
--   Consensus/Limited         the limit on a reader: consensus_decode of encode.rs, Take of io/src/lib.rs
--   Blockdata/Witness         bitcoin/src/blockdata/witness.rs
--   Blockdata/Transaction     bitcoin/src/blockdata/transaction.rs, mod.rs and bitcoin/src/lib.rs, with
--                             Size for the sizes, Ids for the hashes, Predict for predict_weight
--   Blockdata/Script          P2WPKH and P2WSH scripts: bitcoin/src/blockdata/script and
--                             bitcoin/src/address/script_pubkey.rs
--   Blockdata/MerkleTree      bitcoin/src/merkle_tree/mod.rs
--   Primitives/Block, Blockdata/Block   primitives/src/block.rs and bitcoin/src/blockdata/block.rs, with
--                             Size for the sizes and the weight, Validate for validate; Committed says
--                             what a commitment is, Witnesses and Complete compare the check with it
--   Blockdata/PartialMerkleTree, MerkleBlock   bitcoin/src/merkle_tree/block.rs: a tree is built, Shape
--                             and Slices describe it, Encoding is its codec; a Merkle block is checked,
--                             Relay and Checked follow one from its sender to its receiver
--   Pow                       bitcoin/src/pow.rs: U256, Division and Product the 256-bit integers, Target
--                             when a hash meets a target, Work, Compact the compact targets, Retarget the
--                             adjustment, with validate_pow of bitcoin/src/blockdata/block.rs
--   Crypto/Sighash            bitcoin/src/crypto/sighash.rs: EcdsaType and TapType the hash types, Cache
--                             the state, SegwitV0, Taproot and Legacy the three encoders, History a
--                             sequence of calls
--   Base                      names, list lemmas and byte strings that all share
--   Tests                     the theorems at concrete values
-- The functions keep the names of the source. `Codec` is the pair of the two traits for a type, and
-- `IsExact` the laws that an implementation satisfies on its valid values.
--
-- Conventions. A byte is a natural number below 256. The integers u32, u64 and usize are natural
-- numbers, usize having 64 bits; where the source can wrap, the wrap is written out. A reader is the
-- bytes that are left of a slice in memory, a writer the bytes it appends with the number it returns.
-- `consensus_decode` shows its decoder at most 4,000,000 of these bytes.
-- A Rust panic is `none` in the crates without parse errors and `panic` in the consensus encoding. The
-- parameter `endian` is the byte order of the machine, which the cursors of a witness use, and `debug`
-- tells whether debug assertions are compiled in. The encoder of a witness writes nothing where its
-- iterator would panic; `IsWitness` leaves these buffers out.
--
-- Fuel. The iteration over a witness has the length of the buffer plus one as its fuel, which is more
-- than its elements; the doubling of the decoder's buffer has the wanted length plus one, which doubling
-- from 1 reaches before. Reading in chunks recurses on the bytes that are missing. The carry of a Merkle
-- stack halves a number, which is its fuel; a node is raised by the difference of two levels. The width of
-- a tree of at most 2^31 leaves is 1 at height 31, and the search for the height has 32 steps. The number
-- of binary digits of a half is at most 128; the flags of a tree are cut into at most as many chunks.
--
-- Bits. Where the source masks, shifts or joins the bits of a word, the model divides, multiplies and adds.
--
-- Hash functions. SHA-256, its double and the tagged hashes are parameters, functions of the bytes that
-- an engine was given. A SighashCache gives back its state with what it wrote and its result; writing to
-- an engine has no errors.
--
-- Not modelled: memory reservation, I/O errors other than the end of the data, the inside of the hash
-- functions, text forms, floating-point numbers, the other scripts, PSBT and the P2P messages.
pub mod Base
pub mod Internals
pub mod Consensus
pub mod Crypto
pub mod Pow
pub mod Primitives
pub mod Blockdata
pub mod Units
pub mod Tests
