-- ===== src/Crypto/Sighash/Legacy/Message.antt =====
-- The legacy signing data of bitcoin/src/crypto/sighash.rs against the serialization of a modified
-- transaction.
use rust_riecoin.Base.{
  ℕ, Option-cases, Bool-cases, ◌/◌, ◌%◌, ◌≡◌, refl, sym, ap, ◌∙◌, inl, inr, Bool, false, ◌&&◌, none,
  some, List, [], length, get_elem?, leb, ◌==◌, if◌then◌else◌,
}
use rust_riecoin.Primitives.Transaction.{TxIn, Transaction}
use rust_riecoin.Consensus.Codec.Fixed.{u32}
use rust_riecoin.Crypto.Sighash.EcdsaType.{is_invalid_use_of_sighash_single}
use rust_riecoin.Crypto.Sighash.EcdsaType.Laws.{
  base, split_anyonecanpay_flag-from_consensus, is_invalid_use_of_sighash_single-base,
}
use rust_riecoin.Crypto.Sighash.Prevouts.{
  Outcome, ok, err, InputsIndexError, tx_in-found, tx_in-missing,
}
use rust_riecoin.Crypto.Sighash.Cache.{SighashCache}
use rust_riecoin.Crypto.Sighash.Legacy.{
  Write, encode_signing_data_to_inner, EncodeSigningDataResult, sighash_single_bug, write_result,
  legacy_encode_signing_data_to, finish_legacy, uint256_one, legacy_signature_hash,
}
use rust_riecoin.Crypto.Sighash.Legacy.Parts.{message, ok_run, inputs-eq, outputs-eq, in_a_row}

inner-eq :
    (tx : Transaction) (input_index : ℕ) (txin : TxIn) (script_pubkey : List ℕ) (n : ℕ)
    → get_elem? tx.input input_index ≡ some txin
    → is_invalid_use_of_sighash_single n input_index (length tx.output) ≡ false
    → encode_signing_data_to_inner tx input_index script_pubkey n
      ≡ ok_run (message tx input_index txin script_pubkey n)
unfolding encode_signing_data_to_inner message
inner-eq tx input_index txin script_pubkey n found valid =
    rw
      (
        split_anyonecanpay_flag-from_consensus n,
        inputs-eq tx input_index txin script_pubkey (base (n % 0x20)) (n / 0x80 % 2 == 1) found,
        outputs-eq tx input_index (n % 0x20) (rw is_invalid_use_of_sighash_single-base at valid),
      )
      (ap ok_run (in_a_row (u32.consensus_encode tx.version).bytes _ _ _ _))

-- What is written, and the result: the message of an input that exists.
unfoldable pub legacy_result :
    Transaction → ℕ → List ℕ → ℕ → List ℕ × EncodeSigningDataResult InputsIndexError
unfolding message
legacy_result tx input_index script_pubkey n = elim (get_elem? tx.input input_index) [
  | none ↦ ([], write_result (err (record { index = input_index; length = length tx.input })))
  | some txin ↦
      if (n % 0x20 == 3) && leb (length tx.output) input_index
      then ([], sighash_single_bug)
      else (message tx input_index txin script_pubkey n, write_result (ok tt))
]

-- The SINGLE bug, as the result reads it off the number.
bug_base :
    (tx : Transaction) (input_index n : ℕ) {b : Bool}
    → is_invalid_use_of_sighash_single n input_index (length tx.output) ≡ b
    → ((n % 0x20 == 3) && leb (length tx.output) input_index) ≡ b
bug_base tx input_index n e =
    sym (is_invalid_use_of_sighash_single-base n input_index (length tx.output)) ∙ e

-- What a caller sees of a write: the bytes written and the result.
abbrev outcome : Write → List ℕ × EncodeSigningDataResult InputsIndexError
outcome r = (r.written, write_result r.result)

-- What legacy_encode_signing_data_to writes and returns, for any transaction, index, script and
-- 32-bit type: for an input that exists, the serialization without witnesses of the transaction
-- with the scripts, sequences, inputs and outputs that the type leaves out replaced, followed by
-- the type in four bytes; nothing and the result of the SINGLE bug when the low five bits are 3
-- and there is no output of this index; an error with the index and the number of inputs when
-- there is no such input. It never panics.
pub legacy_encode_signing_data_to-eq :
    (c : SighashCache) (input_index : ℕ) (script_pubkey : List ℕ) (n : ℕ)
    → legacy_encode_signing_data_to input_index script_pubkey n c
      ≡ legacy_result c.tx input_index script_pubkey n
unfolding legacy_encode_signing_data_to legacy_result
legacy_encode_signing_data_to-eq c input_index script_pubkey n =
    elim (Option-cases (get_elem? c.tx.input input_index)) [
      | inl missing ↦
          rw
            (
              legacy_encode_signing_data_to,
              legacy_result,
              tx_in-missing c.tx input_index missing,
              missing,
            )
            refl
      | inr (txin, found) ↦
          elim (Bool-cases (is_invalid_use_of_sighash_single n input_index (length c.tx.output))) [
            | inl bug ↦
                rw
                  (
                    legacy_encode_signing_data_to,
                    legacy_result,
                    tx_in-found c.tx input_index found,
                    found,
                    bug,
                    bug_base c.tx input_index n bug,
                  )
                  refl
            | inr fine ↦
                rw
                  (
                    legacy_encode_signing_data_to,
                    legacy_result,
                    tx_in-found c.tx input_index found,
                    found,
                    fine,
                    bug_base c.tx input_index n fine,
                  )
                  (ap outcome (inner-eq c.tx input_index txin script_pubkey n found fine))
          ]
    ]

-- The hash that is signed, of an input that exists: the SINGLE bug gives the number 1.
unfoldable pub signed_hash :
    (List ℕ → List ℕ) → Transaction → ℕ → List ℕ → ℕ → Outcome InputsIndexError (List ℕ)
unfolding message
signed_hash sha256d tx input_index script_pubkey n = elim (get_elem? tx.input input_index) [
  | none ↦ err (record { index = input_index; length = length tx.input })
  | some txin ↦
      if (n % 0x20 == 3) && leb (length tx.output) input_index
      then ok uint256_one
      else ok (sha256d (message tx input_index txin script_pubkey n))
]

finish-result :
    (sha256d : List ℕ → List ℕ) (tx : Transaction) (input_index : ℕ) (script_pubkey : List ℕ)
    (n : ℕ)
    → finish_legacy sha256d (legacy_result tx input_index script_pubkey n)
      ≡ signed_hash sha256d tx input_index script_pubkey n
unfolding legacy_result signed_hash
finish-result sha256d tx input_index script_pubkey n =
    elim (Option-cases (get_elem? tx.input input_index)) [
      | inl missing ↦ rw (legacy_result, signed_hash, missing) refl
      | inr (txin, found) ↦
          elim (Bool-cases ((n % 0x20 == 3) && leb (length tx.output) input_index)) [
            | inl bug ↦ rw (legacy_result, signed_hash, found, bug) refl
            | inr fine ↦ rw (legacy_result, signed_hash, found, fine) refl
          ]
    ]

-- legacy_signature_hash is, for an input that exists, the hash of the serialized modified
-- transaction with the type, or the number 1 in the case of the SINGLE bug; otherwise the error
-- has the index and the number of inputs.
pub legacy_signature_hash-eq :
    (sha256d : List ℕ → List ℕ) (c : SighashCache) (input_index : ℕ) (script_pubkey : List ℕ)
    (n : ℕ)
    → legacy_signature_hash sha256d input_index script_pubkey n c
      ≡ signed_hash sha256d c.tx input_index script_pubkey n
unfolding legacy_signature_hash
legacy_signature_hash-eq sha256d c input_index script_pubkey n =
    ap (finish_legacy sha256d) (legacy_encode_signing_data_to-eq c input_index script_pubkey n)
    ∙ finish-result sha256d c.tx input_index script_pubkey n
