-- ===== src/Blockdata/MerkleBlock/Encoding.antt =====
-- The encoding of Merkle blocks of bitcoin/src/merkle_tree/block.rs.
use rust_riecoin.Base.{◌≤◌, refl, length, arith}
use rust_riecoin.Primitives.Block.{Header}
use rust_riecoin.Consensus.Result.{ok, ◌>>=◌}
use rust_riecoin.Consensus.Io.{◌⊕◌}
use rust_riecoin.Consensus.Codec.{Codec, IsExact}
use rust_riecoin.Consensus.Codec.Pair.{pair-IsExact, read_fields-read_pair, IsExact-through}
use rust_riecoin.Consensus.Limited.{
  consensus_decode, limited, limited-IsExact, limited-IsExact_within,
}
use rust_riecoin.Consensus.Vec.{max_vec_size}
use rust_riecoin.Blockdata.Block.{header}
use rust_riecoin.Blockdata.Block.Exact.{IsHeader, header-IsExact}
use rust_riecoin.Blockdata.PartialMerkleTree.{PartialMerkleTree}
use rust_riecoin.Blockdata.PartialMerkleTree.Encoding.{partial_merkle_tree}
use rust_riecoin.Blockdata.PartialMerkleTree.Encoding.Exact.{
  IsPartialMerkleTree, partial_merkle_tree-IsExact,
}
use rust_riecoin.Blockdata.MerkleBlock.{MerkleBlock}

abbrev pub merkle_block : Codec MerkleBlock
merkle_block = record {
  consensus_encode = λ block.
      header.consensus_encode block.header ⊕ partial_merkle_tree.consensus_encode block.txn;
  consensus_decode_from_finite_reader = λ r. do
    (h, r₁) ← consensus_decode header r
    (txn, r₂) ← consensus_decode partial_merkle_tree r₁
    ok (record { header = h; txn = txn }, r₂);
}

abbrev build : Header × PartialMerkleTree → MerkleBlock
build p = record { header = p.0; txn = p.1 }

-- The encodings of the two parts are within the limits of their readers.
abbrev pub IsMerkleBlock : MerkleBlock → Type 0
IsMerkleBlock block =
    IsHeader block.header
    × (IsPartialMerkleTree block.txn
        × (length (partial_merkle_tree.consensus_encode block.txn).bytes ≤ max_vec_size))

header-limited : IsExact (limited header) IsHeader
header-limited =
    limited-IsExact_within header-IsExact
      (λ h v. omega (arith, header-IsExact.counts h v, v.1.0.0, v.1.1.0.0))

-- A Merkle block whose header, count and hashes are in range, with flags in whole bytes, where the
-- encoding of the hashes and that of the whole tree are at most 4,000,000 bytes, is read back from
-- its encoding, whatever follows; the number returned is the number of bytes written; whatever
-- bytes decode to a Merkle block are the encoding of that block, which is in range; the decoder
-- never panics.
pub merkle_block-IsExact : IsExact merkle_block IsMerkleBlock
merkle_block-IsExact =
    IsExact-through (pair-IsExact header-limited (limited-IsExact partial_merkle_tree-IsExact))
      merkle_block build (λ block. (block.header, block.txn)) (λ b. refl) (λ p. refl) (λ b. refl)
      (λ r.
        read_fields-read_pair (limited header) (limited partial_merkle_tree) (λ h t. build (h, t))
          r)
