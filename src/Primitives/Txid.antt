-- ===== src/Primitives/Txid.antt =====
-- primitives/src/transaction.rs: the hashes that name a transaction. The engine takes its input in
-- pieces; the double SHA-256 of their concatenation is the parameter `sha256d`.
use rust_riecoin.Base.{
  ℕ, Bool, false, Option, some, List, [], ◌∷◌, ◌++◌, map, length, if◌then◌else◌,
}
use rust_riecoin.Base.Bytes.{to_le_bytes}
use rust_riecoin.Internals.CompactSize.{encode}
use rust_riecoin.Units.Amount.{to_sat}
use rust_riecoin.Primitives.Buffer.{Endian, ◌>>=◌}
use rust_riecoin.Primitives.LockTime.{to_consensus_u32}
use rust_riecoin.Primitives.Witness as Witness
use rust_riecoin.Primitives.Transaction.{TxIn, TxOut, Transaction, uses_segwit_serialization}

-- The pieces given to the engine for the inputs.
unfoldable pub hash_inputs : List TxIn → List ℕ
hash_inputs [] = []
hash_inputs (i ∷ rest) =
    i.previous_output.txid
    ++ to_le_bytes 4 i.previous_output.vout
    ++ encode (length i.script_sig)
    ++ i.script_sig
    ++ to_le_bytes 4 i.sequence
    ++ hash_inputs rest

unfoldable pub hash_outputs : List TxOut → List ℕ
hash_outputs [] = []
hash_outputs (o ∷ rest) =
    to_le_bytes 8 (to_sat o.value)
    ++ encode (length o.script_pubkey)
    ++ o.script_pubkey
    ++ hash_outputs rest

unfoldable pub hash_elements : List (List ℕ) → List ℕ
hash_elements [] = []
hash_elements (element ∷ rest) = encode (length element) ++ element ++ hash_elements rest

-- The machine's byte order and `debug_assert!` matter to the iteration over a witness.
module _ (endian : Endian) (debug : Bool) where
  unfoldable pub hash_witnesses : List TxIn → Option (List ℕ)
  unfolding hash_elements
  hash_witnesses [] = some []
  hash_witnesses (i ∷ rest) = do
    elements ← Witness.to_vec endian debug i.witness
    others ← hash_witnesses rest
    some (encode (Witness.len i.witness) ++ hash_elements elements ++ others)

  module _ (sha256d : List ℕ → List ℕ) where
    unfoldable pub hash_transaction : Transaction → Bool → Option (List ℕ)
    unfolding hash_inputs hash_outputs hash_witnesses
    hash_transaction tx uses_segwit = do
      witnesses ← (if uses_segwit then hash_witnesses tx.input else some [])
      some (
          sha256d (
            to_le_bytes 4 tx.version
            ++ (if uses_segwit then 0x00 ∷ 0x01 ∷ [] else [])
            ++ encode (length tx.input)
            ++ hash_inputs tx.input
            ++ encode (length tx.output)
            ++ hash_outputs tx.output
            ++ witnesses
            ++ to_le_bytes 4 (to_consensus_u32 tx.lock_time)))

    unfoldable pub compute_txid : Transaction → Option (List ℕ)
    unfolding hash_transaction
    compute_txid tx = hash_transaction tx false

    unfoldable pub compute_wtxid : Transaction → Option (List ℕ)
    unfolding hash_transaction uses_segwit_serialization
    compute_wtxid tx = hash_transaction tx (uses_segwit_serialization tx)

    -- An input without script and witness.
    abbrev unsigned : TxIn → TxIn
    unsigned i = record i { script_sig = []; witness = Witness.new }

    unfoldable pub compute_ntxid : Transaction → Option (List ℕ)
    unfolding compute_txid
    compute_ntxid tx = compute_txid (record tx { input = map unsigned tx.input })
