-- ===== src/Tests/Merkle.antt =====
-- A Merkle block with three transactions, where a node has the hash of its left child.
use rust_riecoin.Base.{
  ℕ, zero, suc, ◌+◌, ◌*◌, ◌^◌, ◌≡◌, refl, ap, arith, Bool, true, false, some, List, [], ◌∷◌, ◌++◌,
  map, replicate, All, ◌==◌,
}
use rust_riecoin.Base.Powers.{pow_double, pow_pos}
use rust_riecoin.Primitives.Buffer.{little}
use rust_riecoin.Primitives.Block.{Header, new_unchecked}
use rust_riecoin.Blockdata.Block.Validate.{combine, check_merkle_root}
use rust_riecoin.Blockdata.Block.Root.{txid, check_merkle_root_iff}
use rust_riecoin.Blockdata.PartialMerkleTree.Slices.{matching}
use rust_riecoin.Blockdata.MerkleBlock.Checked.{from_block_with_predicate-extract_block_matches}
use rust_riecoin.Tests.Values.{burn, burn-IsTransaction}
use rust_riecoin.Consensus.Result.{ok}
use rust_riecoin.Consensus.Codec.Fixed.{IsArray}
use rust_riecoin.Blockdata.Block.Exact.{IsHeader}
use rust_riecoin.Blockdata.MerkleTree.{calculate_root}
use rust_riecoin.Blockdata.MerkleTree.Levels.{tree_root}
use rust_riecoin.Blockdata.PartialMerkleTree.Shape.{node}
use rust_riecoin.Blockdata.MerkleBlock as MerkleBlock
use rust_riecoin.Blockdata.MerkleBlock.Traverse.{SiblingsDiffer, indexes_of}
use rust_riecoin.Blockdata.MerkleBlock.Authentic.{select, extracted, extract_block_matches_lem}
use rust_riecoin.Blockdata.MerkleBlock.Encoding.{merkle_block}
use rust_riecoin.Blockdata.MerkleBlock.Relay.{extract_block_matches-merkle_block}

abbrev left_hash : List ℕ → List ℕ → List ℕ
left_hash l r = l

abbrev first_txid : List ℕ
first_txid = 1 ∷ replicate 31 0

abbrev second_txid : List ℕ
second_txid = 2 ∷ replicate 31 0

abbrev third_txid : List ℕ
third_txid = 3 ∷ replicate 31 0

abbrev txids : List (List ℕ)
txids = first_txid ∷ second_txid ∷ third_txid ∷ []

abbrev is_third : List ℕ → Bool
is_third [] = false
is_third (b ∷ bs) = b == 3

abbrev root_header : Header
root_header = record {
  version = 0x2000_0000;
  prev_blockhash = replicate 32 0;
  merkle_root = first_txid;
  time = 1_700_000_000;
  bits = 0x1d00_ffff;
  nonce = 7;
}

fits : IsHeader root_header
fits = (
  omega arith,
  ((refl, ground arith), ((refl, ground arith), (omega arith, (omega arith, omega arith)))),
)

leaves : All (IsArray 32) txids
leaves = ((refl, ground arith), ((refl, ground arith), ((refl, ground arith), tt)))

abbrev head_of : List ℕ → ℕ
head_of [] = 0
head_of (b ∷ bs) = b

distinct : SiblingsDiffer left_hash txids (map is_third txids)
unfolding node
distinct zero zero b = λ e. let heads = ap head_of e in omega (arith, heads)
distinct zero (suc pos) b = absurd (omega arith)
distinct (suc zero) zero b = λ e. let heads = ap head_of e in omega (arith, heads)
distinct (suc zero) (suc pos) b = absurd (omega arith)
distinct (suc (suc h)) pos b =
    let double = pow_double (suc h) in
    let again = pow_double h in
    let positive = pow_pos h in
    let flat : 2 ^ suc (suc h) ≡ 4 * 2 ^ h = omega (arith, double, again) in
    let spread : (pos * 2 + 1) * 2 ^ suc (suc h) ≡ (pos * 2 + 1) * (4 * 2 ^ h) =
      ap (λ t. (pos * 2 + 1) * t) flat in
    absurd (omega (arith, spread))

extract_block_matches_lem_example :
    (block : MerkleBlock.MerkleBlock) × (root : List ℕ)
    × (MerkleBlock.from_header_txids_with_predicate left_hash root_header txids is_third
        ≡ some block)
    × (calculate_root left_hash txids ≡ some (some root))
    × (MerkleBlock.extract_block_matches left_hash block
        ≡ extracted left_hash root_header txids is_third root)
extract_block_matches_lem_example =
    extract_block_matches_lem left_hash root_header txids is_third (omega arith) (omega arith)
      distinct

extract_block_matches-merkle_block_example :
    (block : MerkleBlock.MerkleBlock) × (received : MerkleBlock.MerkleBlock) × (root : List ℕ)
    × (MerkleBlock.from_header_txids_with_predicate left_hash root_header txids is_third
        ≡ some block)
    × (merkle_block.consensus_decode_from_finite_reader
          ((merkle_block.consensus_encode block).bytes ++ 5 ∷ [])
        ≡ ok (received, 5 ∷ []))
    × (calculate_root left_hash txids ≡ some (some root))
    × (MerkleBlock.extract_block_matches left_hash received
        ≡ extracted left_hash root_header txids is_third root)
extract_block_matches-merkle_block_example =
    extract_block_matches-merkle_block left_hash root_header txids is_third (5 ∷ []) fits leaves
      (λ l r p q. p) (omega arith) (omega arith) distinct

-- The third transaction is found, at index 2.
third_found :
    extracted left_hash root_header txids is_third first_txid
    ≡ MerkleBlock.ok (third_txid ∷ [], 2 ∷ [])
third_found = refl

abbrev nines : List ℕ → List ℕ
nines bs = replicate 32 9

abbrev nines_header : Header
nines_header = record root_header { merkle_root = replicate 32 9 }

nines-fit : IsHeader nines_header
nines-fit = (
  omega arith,
  ((refl, ground arith), ((refl, ground arith), (omega arith, (omega arith, omega arith)))),
)

root_checked : check_merkle_root little true nines nines_header (burn ∷ []) ≡ some true
unfolding tree_root
root_checked =
    let (answer, asked, iff) =
      check_merkle_root_iff little true nines nines_header (burn ∷ []) (burn-IsTransaction, tt) in
    let yes_answer : answer ≡ true = iff.1 refl in cc

only_child :
    SiblingsDiffer
      (combine little true nines)
      (map (txid little true nines) (burn ∷ []))
      (map is_third (map (txid little true nines) (burn ∷ [])))
only_child h pos b = let positive = pow_pos h in absurd (omega arith)

from_block_with_predicate-extract_block_matches_example :
    let hashes = map (txid little true nines) (burn ∷ []) in
    (block : MerkleBlock.MerkleBlock) × (received : MerkleBlock.MerkleBlock)
    × (MerkleBlock.from_block_with_predicate little true nines
          (new_unchecked nines_header (burn ∷ []))
          is_third
        ≡ some block)
    × (merkle_block.consensus_decode_from_finite_reader
          ((merkle_block.consensus_encode block).bytes ++ 5 ∷ [])
        ≡ ok (received, 5 ∷ []))
    × (MerkleBlock.extract_block_matches (combine little true nines) received
        ≡ MerkleBlock.ok
            (select is_third hashes, indexes_of (matching 0 hashes (map is_third hashes))))
from_block_with_predicate-extract_block_matches_example =
    from_block_with_predicate-extract_block_matches little true nines nines_header (burn ∷ [])
      is_third (5 ∷ []) (λ bs. (refl, ground arith)) nines-fit (burn-IsTransaction, tt) root_checked
      (omega arith) (omega arith) only_child
