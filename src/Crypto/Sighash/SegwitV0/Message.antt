-- ===== src/Crypto/Sighash/SegwitV0/Message.antt =====
-- `SighashCache` (bitcoin/src/crypto/sighash.rs) against the message of BIP 143, field by field.
use rust_riecoin.Base.{
  ℕ, ◌++◌, sym, ◌≡◌, refl, Bool, true, false, ◌&&◌, Option, some, inl, inr, not, ◌/◌, ◌%◌, List, [],
  ◌∷◌, length, get_elem?, ltb, ◌==◌, if◌then◌else◌,
}
use rust_riecoin.Units.Amount.{Amount}
use rust_riecoin.Primitives.Transaction.{TxIn, TxOut, Transaction}
use rust_riecoin.Consensus.Codec.Fixed.{u32}
use rust_riecoin.Consensus.Vec.{bytes}
use rust_riecoin.Blockdata.Transaction.{amount, lock_time, out_point, tx_out}
use rust_riecoin.Crypto.Sighash.EcdsaType.{
  EcdsaSighashType, all, none, single, split_anyonecanpay_flag, all_plus_anyone_can_pay,
  none_plus_anyone_can_pay, single_plus_anyone_can_pay, to_u32,
}
use rust_riecoin.Crypto.Sighash.Prevouts.{
  Outcome, ok, InputsIndexError, tx_in, get_elem?-cases, at_index-eq,
}
use rust_riecoin.Crypto.Sighash.Cache.{
  SighashCache, SegwitCache, enc_prevouts, enc_sequences, enc_outputs,
}
use rust_riecoin.Crypto.Sighash.Cache.Agrees.{
  IsCache, observed, ◌>>=ₒ◌, Agrees, Agrees-joined, Agrees-last, Agrees-emit, Agrees-lift,
  Agrees-transaction, Agrees-segwit_cache, Agrees-value, segwit_hashes, joined-late, concat,
}
use rust_riecoin.Crypto.Sighash.SegwitV0.{
  zero_hash, signs_all, sha256d, hash_or_zero, one_output, output_hash,
  segwit_v0_encode_signing_data_to,
}

-- Bit 7 of the hash type, and its low five bits.
abbrev anyone_can_pay : EcdsaSighashType → Bool
anyone_can_pay t = to_u32 t / 0x80 == 1

abbrev is_all : EcdsaSighashType → Bool
is_all t = to_u32 t % 0x20 == 1

abbrev is_single : EcdsaSighashType → Bool
is_single t = to_u32 t % 0x20 == 3

flags :
    (t : EcdsaSighashType)
    → ((split_anyonecanpay_flag t).1 ≡ anyone_can_pay t)
      × (signs_all (split_anyonecanpay_flag t).0 ≡ is_all t)
flags all = (refl, refl)
flags none = (refl, refl)
flags single = (refl, refl)
flags all_plus_anyone_can_pay = (refl, refl)
flags none_plus_anyone_can_pay = (refl, refl)
flags single_plus_anyone_can_pay = (refl, refl)

module _ (sha256 : List ℕ → List ℕ) where
  abbrev hash_prevouts : Transaction → EcdsaSighashType → List ℕ
  hash_prevouts tx t =
      if not (anyone_can_pay t) then sha256d sha256 (enc_prevouts tx.input) else zero_hash

  abbrev hash_sequence : Transaction → EcdsaSighashType → List ℕ
  hash_sequence tx t =
      if not (anyone_can_pay t) && is_all t
      then sha256d sha256 (enc_sequences tx.input)
      else zero_hash

  -- Of all outputs, of the one with the index of the input, or none.
  abbrev hash_outputs : Transaction → ℕ → EcdsaSighashType → List ℕ
  hash_outputs tx input_index t =
      if is_all t
      then sha256d sha256 (enc_outputs tx.output)
      else if is_single t
      then (elim (get_elem? tx.output input_index) [
        | Option.none ↦ zero_hash
        | some txout ↦ sha256d sha256 (tx_out.consensus_encode txout).bytes
      ])
      else zero_hash

  abbrev front : Transaction → EcdsaSighashType → List (List ℕ)
  front tx t =
      (u32.consensus_encode tx.version).bytes ∷ hash_prevouts tx t ∷ hash_sequence tx t ∷ []

  abbrev back : Transaction → ℕ → List ℕ → Amount → EcdsaSighashType → TxIn → List (List ℕ)
  back tx input_index script_code value t txin =
      (out_point.consensus_encode txin.previous_output).bytes
      ∷ (bytes.consensus_encode script_code).bytes
      ∷ (amount.consensus_encode value).bytes
      ∷ (u32.consensus_encode txin.sequence).bytes
      ∷ hash_outputs tx input_index t
      ∷ (lock_time.consensus_encode tx.lock_time).bytes
      ∷ (u32.consensus_encode (to_u32 t)).bytes
      ∷ []

  -- The ten fields of BIP 143 in a row, computed from the transaction alone, when there is such an
  -- input.
  unfoldable pub bip143 :
      Transaction → ℕ → List ℕ → Amount → EcdsaSighashType → Outcome InputsIndexError (List ℕ)
  bip143 tx input_index script_code value t = tx_in tx input_index >>=ₒ λ txin.
      ok (concat (front tx t ++ back tx input_index script_code value t txin))

  module _ (tx : Transaction) (spent : List TxOut) where
    hash_or_zero-Agrees :
        {E : Type 0} (b : Bool) (group : SegwitCache → List ℕ)
        → Agrees sha256 tx spent
            (hash_or_zero sha256 {E = E} b group)
            (ok (if b then group (segwit_hashes sha256 tx) else zero_hash))
    hash_or_zero-Agrees true group = Agrees-segwit_cache _ (Agrees-emit _)
    hash_or_zero-Agrees false group = Agrees-emit _

    one_output-Agrees :
        {E : Type 0} (i : ℕ)
        → Agrees sha256 tx spent
            (one_output sha256 {E = E} (ltb i (length tx.output)) tx.output i)
            (ok (elim (get_elem? tx.output i) [
              | Option.none ↦ zero_hash
              | some txout ↦ sha256d sha256 (tx_out.consensus_encode txout).bytes
            ]))
    one_output-Agrees i = elim (get_elem?-cases tx.output i) [
      | inl (x, found, below) ↦
          rw (below, at_index-eq tx.output i found, found) (Agrees-value x _ (Agrees-emit _))
      | inr (missing, above) ↦ rw (missing, above) (Agrees-emit _)
    ]

    output_hash-Agrees :
        {E : Type 0} (t : EcdsaSighashType) (i : ℕ)
        → Agrees sha256 tx spent
            (output_hash sha256 {E = E} (split_anyonecanpay_flag t).0 tx.output i)
            (ok (hash_outputs tx i t))
    output_hash-Agrees all i = hash_or_zero-Agrees true (λ segwit. segwit.outputs)
    output_hash-Agrees none i = Agrees-emit _
    output_hash-Agrees single i = one_output-Agrees i
    output_hash-Agrees all_plus_anyone_can_pay i =
        hash_or_zero-Agrees true (λ segwit. segwit.outputs)
    output_hash-Agrees none_plus_anyone_can_pay i = Agrees-emit _
    output_hash-Agrees single_plus_anyone_can_pay i = one_output-Agrees i

    -- The two hashes that the flags of the type choose.
    hash_prevouts-Agrees :
        {E : Type 0} (t : EcdsaSighashType)
        → Agrees sha256 tx spent
            (hash_or_zero sha256 {E = E}
              (not (split_anyonecanpay_flag t).1)
              (λ segwit. segwit.prevouts))
            (ok (hash_prevouts tx t))
    hash_prevouts-Agrees t =
        rw ((flags t).0) (hash_or_zero-Agrees (not (anyone_can_pay t)) (λ segwit. segwit.prevouts))

    hash_sequence-Agrees :
        {E : Type 0} (t : EcdsaSighashType)
        → Agrees sha256 tx spent
            (hash_or_zero sha256 {E = E}
              (not (split_anyonecanpay_flag t).1 && signs_all (split_anyonecanpay_flag t).0)
              (λ segwit. segwit.sequences))
            (ok (hash_sequence tx t))
    hash_sequence-Agrees t =
        rw ((flags t).0, (flags t).1)
          (hash_or_zero-Agrees (not (anyone_can_pay t) && is_all t) (λ segwit. segwit.sequences))

    pub segwit_v0-Agrees :
        (input_index : ℕ) (script_code : List ℕ) (value : Amount) (t : EcdsaSighashType)
        → Agrees sha256 tx spent
            (segwit_v0_encode_signing_data_to sha256 input_index script_code value t)
            (bip143 tx input_index script_code value t)
    unfolding segwit_v0_encode_signing_data_to bip143
    segwit_v0-Agrees input_index script_code value t =
        rw
          (sym (
            joined-late (front tx t) (tx_in tx input_index)
              (back tx input_index script_code value t)))
          (Agrees-transaction _ (
            Agrees-joined _ _ _ _ (Agrees-emit _) (
              Agrees-joined _ _ _ _ (hash_prevouts-Agrees t) (
                Agrees-joined _ _ _ _ (hash_sequence-Agrees t) (
                  Agrees-last (
                    Agrees-lift (tx_in tx input_index) _ _ (λ txin.
                      Agrees-joined _ _ _ _ (Agrees-emit _) (
                        Agrees-joined _ _ _ _ (Agrees-emit _) (
                          Agrees-joined _ _ _ _ (Agrees-emit _) (
                            Agrees-joined _ _ _ _ (Agrees-emit _) (
                              Agrees-joined _ _ _ _ (output_hash-Agrees t input_index) (
                                Agrees-joined _ _ _ _ (Agrees-emit _)
                                  (Agrees-last (Agrees-emit _))))))))))))))

    -- On a cache that satisfies its invariant, segwit_v0_encode_signing_data_to keeps the
    -- invariant, and for an input that exists writes the ten fields of BIP 143, each chosen by the
    -- bits of the hash type and hashed from the transaction, the hash of the outputs being zero
    -- for NONE, and for SINGLE without an output at the index of the input; for an input that does
    -- not exist it fails with the index and the number of inputs. It never panics.
    pub segwit_v0_encode_signing_data_to-bip143 :
        (c : SighashCache) (input_index : ℕ) (script_code : List ℕ) (value : Amount)
        (t : EcdsaSighashType)
        → IsCache sha256 tx spent c
        → let r = segwit_v0_encode_signing_data_to sha256 input_index script_code value t c in
          IsCache sha256 tx spent r.0 × (observed r.1 ≡ bip143 tx input_index script_code value t)
    segwit_v0_encode_signing_data_to-bip143 c input_index script_code value t v =
        (segwit_v0-Agrees input_index script_code value t).run c v
