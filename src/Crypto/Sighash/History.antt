-- ===== src/Crypto/Sighash/History.antt =====
-- A history of calls on one `SighashCache` (bitcoin/src/crypto/sighash.rs).
pub mod Refinement
use rust_riecoin.Base.{ℕ, Bool, true, false, Option, none, some, List, [], ◌∷◌}
use rust_riecoin.Units.Amount.{Amount}
use rust_riecoin.Primitives.Witness.{Witness}
use rust_riecoin.Crypto.Sighash.EcdsaType.{EcdsaSighashType}
use rust_riecoin.Crypto.Sighash.TapType.{TapSighashType}
use rust_riecoin.Crypto.Sighash.Prevouts.{Outcome, InputsIndexError, TaprootError, Prevouts, Annex}
use rust_riecoin.Crypto.Sighash.Cache.{SighashCache, witness_mut}
use rust_riecoin.Crypto.Sighash.SegwitV0.{
  P2wpkhError, sha256d, p2wsh_signature_hash, p2wpkh_signature_hash,
}
use rust_riecoin.Crypto.Sighash.Taproot.{
  taproot_signature_hash, taproot_key_spend_signature_hash, taproot_script_spend_signature_hash,
}
use rust_riecoin.Crypto.Sighash.Legacy.{legacy_signature_hash}

pub data Call : Type 0 where
  taproot : ℕ → Prevouts → Option Annex → Option (List ℕ × ℕ) → TapSighashType → Call
  key_spend : ℕ → Prevouts → TapSighashType → Call
  script_spend : ℕ → Prevouts → List ℕ → TapSighashType → Call
  p2wsh : ℕ → List ℕ → Amount → EcdsaSighashType → Call
  p2wpkh : ℕ → List ℕ → Amount → EcdsaSighashType → Call
  legacy : ℕ → List ℕ → ℕ → Call
  put_witness : ℕ → Witness → Call

pub data Reply : Type 0 where
  taproot_hash : Outcome TaprootError (List ℕ) → Reply
  segwit_hash : Outcome InputsIndexError (List ℕ) → Reply
  p2wpkh_hash : Outcome P2wpkhError (List ℕ) → Reply
  legacy_hash : Outcome InputsIndexError (List ℕ) → Reply
  -- Whether there is such an input.
  put : Bool → Reply

module _ (sha256 tap_sighash : List ℕ → List ℕ) where
  unfoldable pub call : Call → SighashCache → SighashCache × Reply
  call (taproot i prevouts annex leaf t) c =
      let (c', o) = taproot_signature_hash sha256 tap_sighash i prevouts annex leaf t c in
      (c', taproot_hash o)
  call (key_spend i prevouts t) c =
      let (c', o) = taproot_key_spend_signature_hash sha256 tap_sighash i prevouts t c in
      (c', taproot_hash o)
  call (script_spend i prevouts leaf_hash t) c =
      let (c', o) =
        taproot_script_spend_signature_hash sha256 tap_sighash i prevouts leaf_hash t c in
      (c', taproot_hash o)
  call (p2wsh i script value t) c =
      let (c', o) = p2wsh_signature_hash sha256 i script value t c in (c', segwit_hash o)
  call (p2wpkh i script value t) c =
      let (c', o) = p2wpkh_signature_hash sha256 i script value t c in (c', p2wpkh_hash o)
  call (legacy i script n) c =
      (c, legacy_hash (legacy_signature_hash (sha256d sha256) i script n c))
  call (put_witness i w) c = elim (witness_mut c i w) [
    | none ↦ (c, put false)
    | some c' ↦ (c', put true)
  ]

  -- The calls in their order, the replies in theirs.
  unfoldable pub history : List Call → SighashCache → SighashCache × List Reply
  unfolding call
  history [] c = (c, [])
  history (r ∷ rest) c =
      let (c', reply) = call r c in let (c'', replies) = history rest c' in (c'', reply ∷ replies)
