-- ===== src/Tests/Blocks.antt =====
-- Merkle roots and blocks, with 32 bytes of 7 in place of a hash.
use rust_riecoin.Base.{
  ℕ, ◌+◌, ◌*◌, ◌≡◌, ◌≤◌, ◌↔◌, refl, true, some, none, List, [], ◌∷◌, replicate, length, arith,
}
use rust_riecoin.Primitives.Buffer.{little}
use rust_riecoin.Primitives.Transaction.{Transaction, coinbase_prevout}
use rust_riecoin.Primitives.Block.{Header, Block, new_unchecked}
use rust_riecoin.Consensus.Codec.{IsExact}
use rust_riecoin.Blockdata.MerkleTree.{calculate_root}
use rust_riecoin.Blockdata.MerkleTree.Levels.{tree_root, calculate_root-tree_root}
use rust_riecoin.Blockdata.Block.{block}
use rust_riecoin.Blockdata.Block.Exact.{IsHeader, IsBlock, block-IsExact}
use rust_riecoin.Blockdata.Block.Validate.{
  Validated, validate, check_witness_commitment, witness_commitment_from_coinbase,
}
use rust_riecoin.Units.Weight.{from_wu}
use rust_riecoin.Blockdata.Block.Size.{block_base_size, total_size, weight}
use rust_riecoin.Blockdata.Block.Size.Laws.{stripped, weight-stripped}
use rust_riecoin.Blockdata.Block.Safety.{Accepts, validate-Accepts}
use rust_riecoin.Blockdata.Block.Witnesses.{wtxid_root}
use rust_riecoin.Blockdata.Block.Complete.{check_witness_commitment-IsCommitted}
use rust_riecoin.Tests.Values.{spend, spend-IsTransaction, burn, burn-IsTransaction}
use rust_riecoin.Base.Bytes.{AreBytes, to_le_bytes}
use rust_riecoin.Internals.CompactSize.{encode}
use rust_riecoin.Primitives.Witness.Layout.{elements, layout}
use rust_riecoin.Consensus.Vec.{max_vec_size}
use rust_riecoin.Blockdata.Witness.{IsWitness}
use rust_riecoin.Blockdata.Transaction.RoundTrip.{IsTransaction}

abbrev three : List ℕ
three = 1 ∷ 2 ∷ 3 ∷ []

calculate_root-tree_root_example :
    (calculate_root ◌+◌ three ≡ some (tree_root ◌+◌ 3 three))
    × ((tree_root ◌+◌ 3 three ≡ none) ↔ (three ≡ []))
calculate_root-tree_root_example = calculate_root-tree_root ◌+◌ three

-- The last of three leaves counts twice.
three_leaves : calculate_root ◌+◌ (1 ∷ 2 ∷ 4 ∷ []) ≡ some (some 11)
unfolding calculate_root
three_leaves = refl

abbrev head : Header
head = record {
  version = 0x2000_0000;
  prev_blockhash = replicate 32 0;
  merkle_root = replicate 32 1;
  time = 1_700_000_000;
  bits = 0x1d00_ffff;
  nonce = 7;
}

zeros : IsHeader head
zeros = (
  omega arith,
  ((refl, ground arith), ((refl, ground arith), (omega arith, (omega arith, omega arith)))),
)

block-IsExact_example :
    IsExact (block little true) (λ b. IsBlock little true b × (b.witness_root ≡ none))
block-IsExact_example = block-IsExact little true

abbrev commitment_script : List ℕ
commitment_script = 0x6a ∷ 0x24 ∷ 0xaa ∷ 0x21 ∷ 0xa9 ∷ 0xed ∷ replicate 32 7

-- The reserved value in the witness of a coinbase.
abbrev reserved : List (List ℕ)
reserved = replicate 32 9 ∷ []

abbrev coinbase : Transaction
coinbase = record spend {
  input =
      (record {
        previous_output = coinbase_prevout;
        script_sig = [];
        sequence = 0;
        witness = layout little reserved;
      })
      ∷ [];
  output = (record { value = record { sat = 0 }; script_pubkey = commitment_script }) ∷ [];
}

found : witness_commitment_from_coinbase coinbase ≡ some (replicate 32 7)
unfolding witness_commitment_from_coinbase
found = refl

reserved_small : length (elements reserved) ≤ max_vec_size
unfolding encode to_le_bytes
reserved_small = omega arith

reserved-IsWitness : IsWitness little (layout little reserved)
reserved-IsWitness = record {
  stack = reserved;
  laid_out = refl;
  few = omega arith;
  small = reserved_small;
  bytes = (ground arith, tt);
}

script_bytes : AreBytes commitment_script
script_bytes = ground arith

null_bytes : AreBytes (replicate {A = ℕ} 32 0)
null_bytes = ground arith

coinbase-IsTransaction : IsTransaction little coinbase
coinbase-IsTransaction = record {
  version = omega arith;
  lock_time = omega arith;
  input = (
    omega arith,
    (
      ((((refl, null_bytes), omega arith), ((omega arith, tt), omega arith)), reserved-IsWitness),
      tt,
    ),
  );
  output = (omega arith, ((omega arith, (omega arith, script_bytes)), tt));
}

abbrev sevens : List ℕ → List ℕ
sevens bs = replicate 32 7

-- A block whose header has the root of its two transactions, and whose coinbase commits to the witness
-- of the second.
abbrev committed_block : Block
committed_block =
    new_unchecked (record head { merkle_root = replicate 32 7 }) (coinbase ∷ spend ∷ [])

validate-Accepts_example :
    (r : Validated) × (validate little true sevens committed_block ≡ some r)
    × Accepts little true sevens committed_block r
validate-Accepts_example =
    validate-Accepts little true sevens committed_block
      (coinbase-IsTransaction, (spend-IsTransaction, tt))

spend_root : wtxid_root little true sevens (spend ∷ []) ≡ some (replicate 32 7)
unfolding tree_root
spend_root = refl

-- Its witnesses are kept as committed to.
kept :
    check_witness_commitment little true sevens (coinbase ∷ spend ∷ [])
    ≡ some (true, some (replicate 32 7))
kept =
    check_witness_commitment-IsCommitted little true sevens (coinbase ∷ spend ∷ [])
      (some (replicate 32 7)) (coinbase-IsTransaction, (spend-IsTransaction, tt))
      record {
        input = record {
          previous_output = coinbase_prevout;
          script_sig = [];
          sequence = 0;
          witness = layout little reserved;
        };
        reserved = replicate 32 9;
        first = (refl, refl, refl);
        size = refl;
        witness = refl;
        hashed = spend_root;
        committed = record {
          front = [];
          behind = [];
          o = record { value = record { sat = 0 }; script_pubkey = commitment_script };
          tail = [];
          split = refl;
          script = refl;
          size = refl;
          last = tt;
        };
      }

abbrev plain_block : Block
plain_block = new_unchecked head (burn ∷ [])

weight-stripped_example :
    (block_base_size plain_block.transactions ≡ length (stripped plain_block))
    × (total_size little true plain_block
        ≡ some (length ((block little true).consensus_encode plain_block).bytes))
    × (weight little true plain_block
        ≡ some (
            from_wu (
              length (stripped plain_block) * 3
              + length ((block little true).consensus_encode plain_block).bytes)))
weight-stripped_example =
    weight-stripped little true plain_block (zeros, (omega arith, (burn-IsTransaction, tt)))
