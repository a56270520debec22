-- ===== src/Tests/Sighash.antt =====
-- Signature hashes of a small transaction, with the length of the data in place of its hash.
use rust_riecoin.Base.{ℕ, ◌≡◌, refl, none, List, [], ◌∷◌, length, replicate}
use rust_riecoin.Primitives.Witness.{Witness}
use rust_riecoin.Primitives.Transaction.{TxOut}
use rust_riecoin.Crypto.Sighash.EcdsaType as Ecdsa
use rust_riecoin.Crypto.Sighash.EcdsaType.{
  split_anyonecanpay_flag, from_consensus, from_standard, to_u32, is_invalid_use_of_sighash_single,
}
use rust_riecoin.Crypto.Sighash.TapType as Tap
use rust_riecoin.Crypto.Sighash.TapType.{from_consensus_u8, to_u8, from_consensus_u8-IsInverse}
use rust_riecoin.Crypto.Sighash.Prevouts.{all}
use rust_riecoin.Crypto.Sighash.Cache.{new}
use rust_riecoin.Crypto.Sighash.Cache.Agrees.{IsCache, new-IsCache, observed}
use rust_riecoin.Crypto.Sighash.SegwitV0.{segwit_v0_encode_signing_data_to}
use rust_riecoin.Crypto.Sighash.SegwitV0.Message.{bip143, segwit_v0_encode_signing_data_to-bip143}
use rust_riecoin.Crypto.Sighash.Taproot.{taproot_encode_signing_data_to}
use rust_riecoin.Crypto.Sighash.Taproot.Message.{bip341, taproot_encode_signing_data_to-bip341}
use rust_riecoin.Crypto.Sighash.Legacy.{legacy_encode_signing_data_to, legacy_signature_hash}
use rust_riecoin.Crypto.Sighash.Legacy.Message.{
  legacy_result, signed_hash, legacy_encode_signing_data_to-eq, legacy_signature_hash-eq,
}
use rust_riecoin.Crypto.Sighash.History.{Call, taproot, p2wsh, legacy, put_witness, call, history}
use rust_riecoin.Crypto.Sighash.History.Refinement.{
  afters, reply, replies, call-refines, history-refines,
}
use rust_riecoin.Tests.Values.{spend}
use rust_riecoin.Primitives.Witness as Witness

abbrev digest : List ℕ → List ℕ
digest bs = length bs ∷ []

-- The output that the transaction spends.
abbrev coins : List TxOut
coins = (record { value = record { sat = 6_000 }; script_pubkey = 0x51 ∷ [] }) ∷ []

abbrev calls : List Call
calls =
    taproot 0 (all coins) none none Tap.default
    ∷ p2wsh 0 (0x51 ∷ []) (record { sat = 6_000 }) Ecdsa.all
    ∷ put_witness 0 Witness.new
    ∷ legacy 0 (0x51 ∷ []) 0x83
    ∷ []

call-refines_example :
    IsCache digest spend coins
      (call digest digest (taproot 0 (all coins) none none Tap.default) (new spend)).0
    × ((call digest digest (taproot 0 (all coins) none none Tap.default) (new spend)).1
        ≡ reply digest digest spend (taproot 0 (all coins) none none Tap.default))
call-refines_example =
    call-refines digest digest {tx = spend} {spent = coins} {c = new spend}
      (taproot 0 (all coins) none none Tap.default) refl (new-IsCache digest spend coins)

history-refines_example :
    ((history digest digest calls (new spend)).1 ≡ replies digest digest spend calls)
    × ((history digest digest calls (new spend)).0.tx ≡ afters spend calls)
history-refines_example =
    history-refines digest digest spend coins calls (refl, (tt, (tt, (tt, tt))))

segwit_v0_encode_signing_data_to-bip143_example :
    let r =
      segwit_v0_encode_signing_data_to digest 0
        (0x51 ∷ [])
        (record { sat = 6_000 })
        Ecdsa.single
        (new spend) in
    IsCache digest spend coins r.0
    × (observed r.1 ≡ bip143 digest spend 0 (0x51 ∷ []) (record { sat = 6_000 }) Ecdsa.single)
segwit_v0_encode_signing_data_to-bip143_example =
    segwit_v0_encode_signing_data_to-bip143 digest spend coins (new spend) 0 (0x51 ∷ [])
      (record { sat = 6_000 }) Ecdsa.single (new-IsCache digest spend coins)

taproot_encode_signing_data_to-bip341_example :
    let r = taproot_encode_signing_data_to digest 0 (all coins) none none Tap.single (new spend) in
    IsCache digest spend coins r.0
    × (observed r.1 ≡ bip341 digest spend 0 (all coins) none none Tap.single)
taproot_encode_signing_data_to-bip341_example =
    taproot_encode_signing_data_to-bip341 digest spend coins (new spend) 0 (all coins) none none
      Tap.single refl (new-IsCache digest spend coins)

legacy_encode_signing_data_to-eq_example :
    legacy_encode_signing_data_to 0 (0x51 ∷ []) 0x82 (new spend)
    ≡ legacy_result spend 0 (0x51 ∷ []) 0x82
legacy_encode_signing_data_to-eq_example =
    legacy_encode_signing_data_to-eq (new spend) 0 (0x51 ∷ []) 0x82

legacy_signature_hash-eq_example :
    legacy_signature_hash digest 0 (0x51 ∷ []) 3 (new spend)
    ≡ signed_hash digest spend 0 (0x51 ∷ []) 3
legacy_signature_hash-eq_example = legacy_signature_hash-eq digest (new spend) 0 (0x51 ∷ []) 3

abbrev key_hash : List ℕ
key_hash = replicate 20 0xcd
