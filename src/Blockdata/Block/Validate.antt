-- ===== src/Blockdata/Block/Validate.antt =====
-- The validation of an unchecked block in bitcoin/src/blockdata/block.rs: the Merkle root of its
-- header, and the witness commitment of its coinbase. `none` is a panic.
use rust_riecoin.Base.{
  ℕ, Bool, true, false, not, ◌&&◌, Option, none, some, List, [], ◌∷◌, ◌++◌, replicate, length, take,
  drop, leb, ◌==◌, if◌then◌else◌,
}
use rust_riecoin.Primitives.Buffer.{Endian, ◌>>=◌}
use rust_riecoin.Primitives.Witness as Witness
use rust_riecoin.Primitives.Transaction.{TxIn, TxOut, Transaction, coinbase_prevout}
use rust_riecoin.Primitives.Txid.{compute_txid, compute_wtxid}
use rust_riecoin.Primitives.Block.{Header, Block, new_unchecked, assume_checked}
use rust_riecoin.Blockdata.MerkleTree.{calculate_root}

pub data InvalidBlockError : Type 0 where
  invalid_merkle_root invalid_witness_commitment : InvalidBlockError

pub data Validated : Type 0 where
  ok : Block → Validated
  err : InvalidBlockError → Validated

-- The equality of byte arrays.
abbrev pub eq_bytes : List ℕ → List ℕ → Bool
eq_bytes [] [] = true
eq_bytes [] (b ∷ bs) = false
eq_bytes (a ∷ xs) [] = false
eq_bytes (a ∷ xs) (b ∷ bs) = (a == b) && eq_bytes xs bs

-- `Iterator::map` with a function that may panic.
abbrev pub map_all : (Transaction → Option (List ℕ)) → List Transaction → Option (List (List ℕ))
map_all f [] = some []
map_all f (tx ∷ rest) = do h ← f tx; hs ← map_all f rest; some (h ∷ hs)

abbrev is_coinbase_input : TxIn → Bool
is_coinbase_input i =
    eq_bytes i.previous_output.txid coinbase_prevout.txid
    && (i.previous_output.vout == coinbase_prevout.vout)

-- `TransactionExt::is_coinbase`
unfoldable pub is_coinbase : List TxIn → Bool
is_coinbase [] = false
is_coinbase (i ∷ []) = is_coinbase_input i
is_coinbase (i ∷ j ∷ rest) = false

abbrev pub magic : List ℕ
magic = 0x6a ∷ 0x24 ∷ 0xaa ∷ 0x21 ∷ 0xa9 ∷ 0xed ∷ []

abbrev pub is_commitment : TxOut → Bool
is_commitment o = leb 38 (length o.script_pubkey) && eq_bytes (take 6 o.script_pubkey) magic

-- `rposition`, and the output at that place.
unfoldable pub last_commitment : List TxOut → Option TxOut
last_commitment [] = none
last_commitment (o ∷ rest) = elim (last_commitment rest) [
  | some later ↦ some later
  | none ↦ if is_commitment o then some o else none
]

unfoldable pub witness_commitment_from_coinbase : Transaction → Option (List ℕ)
unfolding last_commitment is_coinbase
witness_commitment_from_coinbase coinbase =
    if not (is_coinbase coinbase.input) then none else (elim (last_commitment coinbase.output) [
      | none ↦ none
      | some o ↦ some (take 32 (drop 6 o.script_pubkey))
    ])

-- `transactions.iter().all(|t| t.input.iter().all(|i| i.witness.is_empty()))`
abbrev pub no_witness_in : List TxIn → Bool
no_witness_in [] = true
no_witness_in (i ∷ rest) = Witness.is_empty i.witness && no_witness_in rest

abbrev pub no_witness : List Transaction → Bool
no_witness [] = true
no_witness (tx ∷ rest) = no_witness_in tx.input && no_witness rest

module _ (endian : Endian) (debug : Bool) (sha256d : List ℕ → List ℕ) where
  -- `TxMerkleNode::combine`, and that of `WitnessMerkleNode`.
  abbrev pub combine : List ℕ → List ℕ → List ℕ
  combine left right = sha256d (left ++ right)

  unfoldable pub compute_merkle_root : List Transaction → Option (Option (List ℕ))
  compute_merkle_root transactions = do
    hashes ← map_all (compute_txid endian debug sha256d) transactions
    calculate_root combine hashes

  unfoldable pub check_merkle_root : Header → List Transaction → Option Bool
  unfolding compute_merkle_root
  check_merkle_root header transactions = do
    root ← compute_merkle_root transactions
    some (elim root [ some merkle_root ↦ eq_bytes header.merkle_root merkle_root | none ↦ false ])

  -- `Wtxid::COINBASE` stands for the first transaction.
  abbrev pub witness_hashes : List Transaction → Option (List (List ℕ))
  witness_hashes [] = some []
  witness_hashes (first ∷ rest) = do
    hs ← map_all (compute_wtxid endian debug sha256d) rest
    some (replicate 32 0 ∷ hs)

  unfoldable pub compute_witness_root : List Transaction → Option (Option (List ℕ))
  compute_witness_root transactions = do
    hashes ← witness_hashes transactions
    calculate_root combine hashes

  unfoldable pub compute_witness_commitment :
      List Transaction → List ℕ → Option (Option (List ℕ × List ℕ))
  unfolding compute_witness_root
  compute_witness_commitment transactions witness_reserved_value = do
    root ← compute_witness_root transactions
    some (elim root [
      | none ↦ none
      | some witness_root ↦ some (witness_root, sha256d (witness_root ++ witness_reserved_value))
    ])

  abbrev pub compare : List ℕ → Option (List ℕ × List ℕ) → Bool × Option (List ℕ)
  compare commitment none = (false, none)
  compare commitment (some computed) =
      if eq_bytes commitment computed.1 then (true, some computed.0) else (false, none)

  -- One reserved value of 32 bytes is in the witness of the coinbase.
  abbrev pub with_reserved :
      List Transaction → List ℕ → List (List ℕ) → Option (Bool × Option (List ℕ))
  with_reserved transactions commitment [] = some (false, none)
  with_reserved transactions commitment (reserved ∷ []) =
      if length reserved == 32
      then (compute_witness_commitment transactions reserved >>= λ computed.
          some (compare commitment computed))
      else some (false, none)
  with_reserved transactions commitment (a ∷ b ∷ rest) = some (false, none)

  abbrev pub witness_of : List TxIn → Option (List (List ℕ))
  witness_of [] = none
  witness_of (i ∷ rest) = Witness.to_vec endian debug i.witness

  abbrev pub with_commitment :
      Transaction → List Transaction → Option (List ℕ) → Option (Bool × Option (List ℕ))
  with_commitment coinbase rest none = some (false, none)
  with_commitment coinbase rest (some commitment) = do
    witness_vec ← witness_of coinbase.input
    with_reserved (coinbase ∷ rest) commitment witness_vec

  unfoldable pub check_witness_commitment : List Transaction → Option (Bool × Option (List ℕ))
  unfolding compute_witness_commitment witness_commitment_from_coinbase
  check_witness_commitment [] = some (true, none)
  check_witness_commitment (coinbase ∷ rest) =
      if no_witness (coinbase ∷ rest)
      then some (true, none)
      else if is_coinbase coinbase.input
      then with_commitment coinbase rest (witness_commitment_from_coinbase coinbase)
      else some (false, none)

  unfoldable pub validate : Block → Option Validated
  unfolding check_merkle_root check_witness_commitment
  validate b = check_merkle_root b.header b.transactions >>= λ good.
      if not good
      then some (err invalid_merkle_root)
      else (check_witness_commitment b.transactions >>= λ p. some (
          if p.0
          then ok (assume_checked (new_unchecked b.header b.transactions) p.1)
          else err invalid_witness_commitment))
