-- ===== src/Blockdata/Block.antt =====
-- The encoding of headers and blocks of bitcoin/src/blockdata/block.rs.
pub mod Exact
pub mod Validate
pub mod Root
pub mod Commitment
pub mod Committed
pub mod Witnesses
pub mod Complete
pub mod Safety
pub mod Size
use rust_riecoin.Base.{ℕ, Bool, none, length}
use rust_riecoin.Primitives.Buffer.{Endian}
use rust_riecoin.Primitives.Block.{Header, Block, new_unchecked, assume_checked}
use rust_riecoin.Consensus.Result.{ok, ◌>>=◌}
use rust_riecoin.Consensus.Io.{Written, ◌⊕◌, emit_compact_size}
use rust_riecoin.Consensus.Codec.{Codec}
use rust_riecoin.Consensus.Codec.Fixed.{u32, array}
use rust_riecoin.Consensus.Vec.{vec, encode_items}
use rust_riecoin.Blockdata.Transaction.{transaction}

-- `impl_consensus_encoding!(Header, version, prev_blockhash, merkle_root, time, bits, nonce)`
abbrev pub header : Codec Header
header = record {
  consensus_encode = λ h.
      u32.consensus_encode h.version
      ⊕ (array 32).consensus_encode h.prev_blockhash
      ⊕ (array 32).consensus_encode h.merkle_root
      ⊕ u32.consensus_encode h.time
      ⊕ u32.consensus_encode h.bits
      ⊕ u32.consensus_encode h.nonce;
  consensus_decode_from_finite_reader = λ r. do
    (version, r₁) ← u32.consensus_decode_from_finite_reader r
    (prev_blockhash, r₂) ← (array 32).consensus_decode_from_finite_reader r₁
    (merkle_root, r₃) ← (array 32).consensus_decode_from_finite_reader r₂
    (time, r₄) ← u32.consensus_decode_from_finite_reader r₃
    (bits, r₅) ← u32.consensus_decode_from_finite_reader r₄
    (nonce, r₆) ← u32.consensus_decode_from_finite_reader r₅
    ok (
      record {
        version = version;
        prev_blockhash = prev_blockhash;
        merkle_root = merkle_root;
        time = time;
        bits = bits;
        nonce = nonce;
      },
      r₆,
    );
}

module _ (endian : Endian) (debug : Bool) where
  -- `Encodable for Block<Checked>`
  abbrev pub encode_checked : Block → Written
  encode_checked b =
      header.consensus_encode b.header
      ⊕ emit_compact_size (length b.transactions)
      ⊕ encode_items (transaction endian debug) b.transactions

  -- `Block<Unchecked>`
  abbrev pub block : Codec Block
  block = record {
    consensus_encode = λ b. encode_checked (assume_checked b none);
    consensus_decode_from_finite_reader = λ r. do
      (h, r₁) ← header.consensus_decode_from_finite_reader r
      (transactions, r₂) ← (vec (transaction endian debug)).consensus_decode_from_finite_reader r₁
      ok (new_unchecked h transactions, r₂);
  }
