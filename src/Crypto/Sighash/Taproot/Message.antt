-- ===== src/Crypto/Sighash/Taproot/Message.antt =====
-- `SighashCache` (bitcoin/src/crypto/sighash.rs) against the message of BIP 341, field by field.
use rust_riecoin.Base.{
  ℕ, ◌/◌, ◌%◌, ◌^◌, ◌+◌, ◌*◌, ◌≡◌, refl, Bool, true, false, not, ◌&&◌, Option, none, some, List, [],
  ◌∷◌, length, get_elem?, ◌==◌, if◌then◌else◌,
}
use rust_riecoin.Primitives.Transaction.{TxOut, Transaction}
use rust_riecoin.Consensus.Codec.Fixed.{u32}
use rust_riecoin.Consensus.Vec.{bytes}
use rust_riecoin.Blockdata.Transaction.{amount, lock_time, out_point, tx_out}
use rust_riecoin.Crypto.Sighash.TapType as Tap
use rust_riecoin.Crypto.Sighash.TapType.{
  TapSighashType, default, single, all_plus_anyone_can_pay, none_plus_anyone_can_pay,
  single_plus_anyone_can_pay, split_anyonecanpay_flag, to_u8, eq,
}
use rust_riecoin.Crypto.Sighash.Prevouts.{
  Outcome, ok, TaprootError, prevouts_kind, inputs_index, prevouts_index, single_missing_output,
  ok_or, map_err, tx_in, Prevouts, one, all, check_all, get_all, get, Annex, encode_annex,
}
use rust_riecoin.Crypto.Sighash.Cache.{
  SighashCache, enc_prevouts, enc_sequences, enc_outputs, enc_amounts, enc_script_pubkeys,
}
use rust_riecoin.Crypto.Sighash.Cache.Agrees.{
  IsCache, observed, ◌>>=ₒ◌, concat, joined, Agrees, Agrees-joined, Agrees-last, Agrees-emit,
  Agrees-skip, Agrees-before, Agrees-error, Agrees-concat, Agrees-lift, Agrees-value,
  Agrees-transaction, Agrees-common_cache, Agrees-taproot_cache,
}
use rust_riecoin.Crypto.Sighash.Taproot.{
  spend_type, signs_all, write_all_inputs, write_all_outputs, write_input, write_annex,
  write_single_output, write_leaf, taproot_encode_signing_data_to,
}

-- `hash_type & 0x80`
abbrev anyone_can_pay : TapSighashType → Bool
anyone_can_pay t = to_u8 t / 0x80 == 1

-- `hash_type & 3` is neither `SIGHASH_NONE` nor `SIGHASH_SINGLE`.
abbrev is_all : TapSighashType → Bool
is_all t = not (to_u8 t % 4 == 2) && not (to_u8 t % 4 == 3)

-- `hash_type & 3` is `SIGHASH_SINGLE`.
abbrev is_single : TapSighashType → Bool
is_single t = to_u8 t % 4 == 3

abbrev present {ℓ} : {A : Type ℓ} → Option A → ℕ
present none = 0
present (some a) = 1

-- The output indices that the prevouts given to a call stand for: all of `spent`, or one.
abbrev pub Serves : List TxOut → Prevouts → Type 0
Serves spent (one index prevout) = Unit {0}
Serves spent (all prevouts) = prevouts ≡ spent

flags :
    (t : TapSighashType)
    → ((split_anyonecanpay_flag t).1 ≡ anyone_can_pay t)
      × (signs_all (split_anyonecanpay_flag t).0 ≡ is_all t)
      × (eq (split_anyonecanpay_flag t).0 single ≡ is_single t)
flags default = (refl, refl, refl)
flags Tap.all = (refl, refl, refl)
flags Tap.none = (refl, refl, refl)
flags single = (refl, refl, refl)
flags all_plus_anyone_can_pay = (refl, refl, refl)
flags none_plus_anyone_can_pay = (refl, refl, refl)
flags single_plus_anyone_can_pay = (refl, refl, refl)

spend_type-eq :
    (annex : Option Annex) (leaf : Option (List ℕ × ℕ))
    → spend_type annex leaf ≡ 2 * present leaf + present annex
spend_type-eq none none = refl
spend_type-eq (some annex) none = refl
spend_type-eq none (some leaf) = refl
spend_type-eq (some annex) (some leaf) = refl

module _ (sha256 : List ℕ → List ℕ) where
  abbrev all_inputs : Transaction → Prevouts → Bool → Outcome TaprootError (List ℕ)
  all_inputs tx prevouts acp =
      if acp
      then ok []
      else (get_all prevouts >>=ₒ λ spent. ok (
          concat (
            sha256 (enc_prevouts tx.input)
            ∷ sha256 (enc_amounts spent)
            ∷ sha256 (enc_script_pubkeys spent)
            ∷ sha256 (enc_sequences tx.input)
            ∷ [])))

  abbrev all_outputs : Transaction → Bool → List ℕ
  all_outputs tx every = if every then sha256 (enc_outputs tx.output) else []

  abbrev this_input : Transaction → ℕ → Prevouts → Bool → Outcome TaprootError (List ℕ)
  this_input tx input_index prevouts acp =
      if acp
      then (map_err inputs_index (tx_in tx input_index) >>=ₒ λ txin.
          map_err prevouts_index (get prevouts input_index) >>=ₒ λ spent. ok (
            concat (
              (out_point.consensus_encode txin.previous_output).bytes
              ∷ (amount.consensus_encode spent.value).bytes
              ∷ (bytes.consensus_encode spent.script_pubkey).bytes
              ∷ (u32.consensus_encode txin.sequence).bytes
              ∷ [])))
      else ok (u32.consensus_encode (input_index % 2 ^ 32)).bytes

  abbrev annex_hash : Option Annex → List ℕ
  annex_hash none = []
  annex_hash (some annex) = sha256 (encode_annex annex).bytes

  abbrev single_output : Transaction → ℕ → Bool → Outcome TaprootError (List ℕ)
  single_output tx input_index chosen =
      if chosen
      then (ok_or (single_missing_output input_index (length tx.output))
            (get_elem? tx.output input_index)
          >>=ₒ λ txout. ok (sha256 (tx_out.consensus_encode txout).bytes))
      else ok []

  abbrev leaf_fields : Option (List ℕ × ℕ) → List ℕ
  leaf_fields none = []
  leaf_fields (some leaf) = concat (leaf.0 ∷ (0 ∷ []) ∷ (u32.consensus_encode leaf.1).bytes ∷ [])

  -- The fields of BIP 341 behind the epoch 0, or the first error among them.
  unfoldable pub bip341 :
      Transaction
      → ℕ
      → Prevouts
      → Option Annex
      → Option (List ℕ × ℕ)
      → TapSighashType
      → Outcome TaprootError (List ℕ)
  bip341 tx input_index prevouts annex leaf t = check_all prevouts tx >>=ₒ λ _. joined (
      ok (0 ∷ [])
      ∷ ok (to_u8 t ∷ [])
      ∷ ok (u32.consensus_encode tx.version).bytes
      ∷ ok (lock_time.consensus_encode tx.lock_time).bytes
      ∷ all_inputs tx prevouts (anyone_can_pay t)
      ∷ ok (all_outputs tx (is_all t))
      ∷ ok ((2 * present leaf + present annex) ∷ [])
      ∷ this_input tx input_index prevouts (anyone_can_pay t)
      ∷ ok (annex_hash annex)
      ∷ single_output tx input_index (is_single t)
      ∷ ok (leaf_fields leaf)
      ∷ [])

  module _ (tx : Transaction) (spent : List TxOut) where
    all_inputs-Agrees :
        (prevouts : Prevouts) (acp : Bool)
        → Serves spent prevouts
        → Agrees sha256 tx spent (write_all_inputs sha256 prevouts acp) (all_inputs tx prevouts acp)
    unfolding ◌>>=ₒ◌
    all_inputs-Agrees prevouts true s = Agrees-skip
    all_inputs-Agrees (one index prevout) false s =
        Agrees-common_cache _ (Agrees-before _ _ prevouts_kind (Agrees-error _ _))
    all_inputs-Agrees (all prevouts) false s = rw s (
        Agrees-common_cache _ (
          Agrees-concat
            (sha256 (enc_prevouts tx.input)
              ∷ sha256 (enc_amounts spent)
              ∷ sha256 (enc_script_pubkeys spent)
              ∷ sha256 (enc_sequences tx.input)
              ∷ [])
            (Agrees-joined _ _ _ _ (Agrees-emit _) (
              Agrees-value spent _ (
                Agrees-taproot_cache _ (
                  Agrees-joined _ _ _ _ (Agrees-emit _) (
                    Agrees-value spent _ (
                      Agrees-taproot_cache _ (
                        Agrees-joined _ _ _ _ (Agrees-emit _)
                          (Agrees-common_cache _ (Agrees-last (Agrees-emit _))))))))))))

    all_outputs-Agrees :
        (every : Bool)
        → Agrees sha256 tx spent (write_all_outputs sha256 every) (ok (all_outputs tx every))
    all_outputs-Agrees true = Agrees-common_cache _ (Agrees-emit _)
    all_outputs-Agrees false = Agrees-skip

    this_input-Agrees :
        (input_index : ℕ) (prevouts : Prevouts) (acp : Bool)
        → Agrees sha256 tx spent
            (write_input sha256 prevouts input_index acp)
            (this_input tx input_index prevouts acp)
    this_input-Agrees input_index prevouts false = Agrees-emit _
    this_input-Agrees input_index prevouts true = Agrees-transaction _ (
        Agrees-lift (map_err inputs_index (tx_in tx input_index)) _ _ (λ txin.
          Agrees-lift (map_err prevouts_index (get prevouts input_index)) _ _ (λ prevout.
            Agrees-concat
              ((out_point.consensus_encode txin.previous_output).bytes
                ∷ (amount.consensus_encode prevout.value).bytes
                ∷ (bytes.consensus_encode prevout.script_pubkey).bytes
                ∷ (u32.consensus_encode txin.sequence).bytes
                ∷ [])
              (Agrees-joined _ _ _ _ (Agrees-emit _) (
                Agrees-joined _ _ _ _ (Agrees-emit _)
                  (Agrees-joined _ _ _ _ (Agrees-emit _) (Agrees-last (Agrees-emit _))))))))

    annex-Agrees :
        (annex : Option Annex)
        → Agrees sha256 tx spent (write_annex sha256 annex) (ok (annex_hash annex))
    annex-Agrees none = Agrees-skip
    annex-Agrees (some annex) = Agrees-emit _

    single_output-Agrees :
        (input_index : ℕ) (chosen : Bool)
        → Agrees sha256 tx spent
            (write_single_output sha256 input_index chosen)
            (single_output tx input_index chosen)
    single_output-Agrees input_index false = Agrees-skip
    single_output-Agrees input_index true =
        Agrees-transaction _ (Agrees-lift _ _ _ (λ txout. Agrees-emit _))

    leaf-Agrees :
        (leaf : Option (List ℕ × ℕ))
        → Agrees sha256 tx spent (write_leaf leaf) (ok (leaf_fields leaf))
    leaf-Agrees none = Agrees-skip
    leaf-Agrees (some leaf) =
        Agrees-concat (leaf.0 ∷ (0 ∷ []) ∷ (u32.consensus_encode leaf.1).bytes ∷ []) (
          Agrees-joined _ _ _ _ (Agrees-emit _)
            (Agrees-joined _ _ _ _ (Agrees-emit _) (Agrees-last (Agrees-emit _))))

    pub taproot-Agrees :
        (input_index : ℕ) (prevouts : Prevouts) (annex : Option Annex) (leaf : Option (List ℕ × ℕ))
        (t : TapSighashType)
        → Serves spent prevouts
        → Agrees sha256 tx spent
            (taproot_encode_signing_data_to sha256 input_index prevouts annex leaf t)
            (bip341 tx input_index prevouts annex leaf t)
    unfolding taproot_encode_signing_data_to bip341
    taproot-Agrees input_index prevouts annex leaf t s =
        let (acp, every, one_only) = flags t in
        rw (acp, every, one_only, spend_type-eq annex leaf)
          (Agrees-transaction _ (
            Agrees-lift (check_all prevouts tx) _ _ (λ _. Agrees-joined _ _ _ _ (Agrees-emit _) (
              Agrees-joined _ _ _ _ (Agrees-emit _) (
                Agrees-joined _ _ _ _ (Agrees-emit _) (
                  Agrees-joined _ _ _ _ (Agrees-emit _) (
                    Agrees-joined _ _ _ _ (all_inputs-Agrees prevouts _ s) (
                      Agrees-joined _ _ _ _ (all_outputs-Agrees _) (
                        Agrees-joined _ _ _ _ (Agrees-emit _) (
                          Agrees-joined _ _ _ _ (this_input-Agrees input_index prevouts _) (
                            Agrees-joined _ _ _ _ (annex-Agrees annex) (
                              Agrees-joined _ _ _ _ (single_output-Agrees input_index _)
                                (Agrees-last (leaf-Agrees leaf))))))))))))))

    -- On a cache that satisfies its invariant, and prevouts that are the spent outputs or one of
    -- them, taproot_encode_signing_data_to keeps the invariant, and on success writes the fields
    -- of BIP 341 in their order, each chosen by the bits of the hash type and hashed from the
    -- transaction and the prevouts; otherwise its error is the first among the fields, one of
    -- which is the missing output for SINGLE without an output at the index of the input.
    pub taproot_encode_signing_data_to-bip341 :
        (c : SighashCache) (input_index : ℕ) (prevouts : Prevouts) (annex : Option Annex)
        (leaf : Option (List ℕ × ℕ)) (t : TapSighashType)
        → Serves spent prevouts
        → IsCache sha256 tx spent c
        → let r = taproot_encode_signing_data_to sha256 input_index prevouts annex leaf t c in
          IsCache sha256 tx spent r.0 × (observed r.1 ≡ bip341 tx input_index prevouts annex leaf t)
    taproot_encode_signing_data_to-bip341 c input_index prevouts annex leaf t s v =
        (taproot-Agrees input_index prevouts annex leaf t s).run c v
