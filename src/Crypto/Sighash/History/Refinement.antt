-- ===== src/Crypto/Sighash/History/Refinement.antt =====
-- `SighashCache` (bitcoin/src/crypto/sighash.rs) against signing without a cache.
use rust_riecoin.Base.{
  ℕ, zero, suc, ◌≡◌, refl, subst, sym, ap, ap₂, ◌∙◌, inl, inr, true, false, Option, none, some,
  Option-cases, List, [], ◌∷◌, All,
}
use rust_riecoin.Primitives.Witness.{Witness}
use rust_riecoin.Primitives.Transaction.{TxIn, TxOut, Transaction}
use rust_riecoin.Units.Amount.{Amount}
use rust_riecoin.Crypto.Sighash.EcdsaType.{EcdsaSighashType}
use rust_riecoin.Crypto.Sighash.TapType.{TapSighashType}
use rust_riecoin.Blockdata.Script.{p2wpkh_script_code}
use rust_riecoin.Crypto.Sighash.Prevouts.{Prevouts, Annex, Outcome, ok, err, panic, map_err}
use rust_riecoin.Crypto.Sighash.Cache.{
  SighashCache, new, Sign, finish, witness_mut, set_witness, enc_prevouts, enc_sequences,
  common_hashes, hash_again,
}
use rust_riecoin.Crypto.Sighash.Cache.Agrees.{observed, IsMemo, IsCache, Agrees, new-IsCache}
use rust_riecoin.Crypto.Sighash.SegwitV0.{
  sighash, not_p2wpkh_script, sha256d, segwit_v0_encode_signing_data_to, p2wsh_signature_hash,
  p2wpkh_signature_hash,
}
use rust_riecoin.Crypto.Sighash.SegwitV0.Message.{bip143, segwit_v0-Agrees}
use rust_riecoin.Crypto.Sighash.Taproot.{
  taproot_encode_signing_data_to, taproot_signature_hash, taproot_key_spend_signature_hash,
  taproot_script_spend_signature_hash,
}
use rust_riecoin.Crypto.Sighash.Taproot.Message.{Serves, bip341, taproot-Agrees}
use rust_riecoin.Crypto.Sighash.Legacy.Message.{signed_hash, legacy_signature_hash-eq}
use rust_riecoin.Crypto.Sighash.History.{
  Call, taproot, key_spend, script_spend, p2wsh, p2wpkh, legacy, put_witness, Reply, taproot_hash,
  segwit_hash, p2wpkh_hash, legacy_hash, put, call, history,
}

-- The prevouts of a call are the outputs in `spent`, or one output.
abbrev pub IsServed : List TxOut → Call → Type 0
IsServed spent (taproot i prevouts annex leaf t) = Serves spent prevouts
IsServed spent (key_spend i prevouts t) = Serves spent prevouts
IsServed spent (script_spend i prevouts leaf_hash t) = Serves spent prevouts
IsServed spent (p2wsh i script value t) = Unit {0}
IsServed spent (p2wpkh i script value t) = Unit {0}
IsServed spent (legacy i script n) = Unit {0}
IsServed spent (put_witness i w) = Unit {0}

abbrev hashed : {E : Type 0} → (List ℕ → List ℕ) → Outcome E (List ℕ) → Outcome E (List ℕ)
hashed hash o = elim o [ ok bs ↦ ok (hash bs) | err e ↦ err e | panic ↦ panic ]

-- The transaction with the witness in its place.
abbrev pub after : Transaction → Call → Transaction
after tx (put_witness i w) = elim (set_witness tx.input i w) [
  | none ↦ tx
  | some input ↦ record tx { input = input }
]
after tx _ = tx

abbrev pub afters : Transaction → List Call → Transaction
afters tx [] = tx
afters tx (r ∷ rest) = afters (after tx r) rest

-- A witness is not part of what is cached.
set_witness-keeps :
    (xs : List TxIn) (i : ℕ) (w : Witness) {ys : List TxIn}
    → set_witness xs i w ≡ some ys
    → (enc_prevouts ys ≡ enc_prevouts xs) × (enc_sequences ys ≡ enc_sequences xs)
unfolding set_witness enc_prevouts enc_sequences
set_witness-keeps [] i w e = cc
set_witness-keeps (x ∷ xs) zero w {ys} e =
    let same : record x { witness = w } ∷ xs ≡ ys = cc in rw (sym same) (refl, refl)
set_witness-keeps (x ∷ xs) (suc n) w {ys} e = elim (Option-cases (set_witness xs n w)) [
  | inl missing ↦ absurd (let h = rw missing at e in cc)
  | inr (zs, found) ↦
      let (p, q) = set_witness-keeps xs n w found in
      let h = rw found at e in let same : x ∷ zs ≡ ys = cc in rw (sym same, p, q) (refl, refl)
]

module _ (sha256 tap_sighash : List ℕ → List ℕ) where
  -- The reply computed from the transaction as it is, without a cache.
  unfoldable pub reply : Transaction → Call → Reply
  reply tx (taproot i prevouts annex leaf t) =
      taproot_hash (hashed tap_sighash (bip341 sha256 tx i prevouts annex leaf t))
  reply tx (key_spend i prevouts t) =
      taproot_hash (hashed tap_sighash (bip341 sha256 tx i prevouts none none t))
  reply tx (script_spend i prevouts leaf_hash t) =
      taproot_hash
        (hashed tap_sighash (bip341 sha256 tx i prevouts none (some (leaf_hash, 0xffff_ffff)) t))
  reply tx (p2wsh i script value t) =
      segwit_hash (hashed (sha256d sha256) (bip143 sha256 tx i script value t))
  reply tx (p2wpkh i script value t) = p2wpkh_hash (elim (p2wpkh_script_code script) [
    | none ↦ err not_p2wpkh_script
    | some code ↦ map_err sighash (hashed (sha256d sha256) (bip143 sha256 tx i code value t))
  ])
  reply tx (legacy i script n) = legacy_hash (signed_hash (sha256d sha256) tx i script n)
  reply tx (put_witness i w) =
      put (elim (set_witness tx.input i w) [ none ↦ false | some _ ↦ true ])

  unfoldable pub replies : Transaction → List Call → List Reply
  unfolding reply
  replies tx [] = []
  replies tx (r ∷ rest) = reply tx r ∷ replies (after tx r) rest

  finish-observed :
      {E : Type 0} (hash : List ℕ → List ℕ) (c : SighashCache) (bs : List ℕ)
      (o : Outcome {0} E Unit)
      → (finish hash (c, record { written = bs; result = o })).1
        ≡ hashed hash (observed (record { written = bs; result = o }))
  finish-observed hash c bs (ok u) = refl
  finish-observed hash c bs (err e) = refl
  finish-observed hash c bs panic = refl

  set_witness-IsCache :
      (spent : List TxOut) (c : SighashCache) (i : ℕ) (w : Witness) {input : List TxIn}
      → set_witness c.tx.input i w ≡ some input
      → IsCache sha256 c.tx spent c
      → IsCache sha256
          (record c.tx { input = input })
          spent
          (record c { tx = record c.tx { input = input } })
  set_witness-IsCache spent c i w {input} found v =
      let (p, q) = set_witness-keeps c.tx.input i w found in
      let same : common_hashes sha256 c.tx ≡ common_hashes sha256 (record c.tx { input = input }) =
        rw (p, q) refl in
      record {
        transaction = refl;
        common = subst (λ h. IsMemo c.common_cache h) same v.common;
        segwit = subst (λ h. IsMemo c.segwit_cache (hash_again sha256 h)) same v.segwit;
        taproot = v.taproot;
      }

  put_witness-refines :
      (spent : List TxOut) (c : SighashCache) (i : ℕ) (w : Witness)
      → IsCache sha256 c.tx spent c
      → IsCache sha256
          (after c.tx (put_witness i w))
          spent
          (call sha256 tap_sighash (put_witness i w) c).0
        × ((call sha256 tap_sighash (put_witness i w) c).1 ≡ reply c.tx (put_witness i w))
  unfolding call reply witness_mut
  put_witness-refines spent c i w v = elim (Option-cases (set_witness c.tx.input i w)) [
    | inl missing ↦ rw (after, call, witness_mut, reply, missing) (v, refl)
    | inr (input, found) ↦
        rw (after, call, witness_mut, reply, found) (set_witness-IsCache spent c i w found v, refl)
  ]

  module _ {tx : Transaction} {spent : List TxOut} {c : SighashCache} where
    -- A hash function around an encoder that agrees with a message.
    finish-refines :
        {E : Type 0} (hash : List ℕ → List ℕ) (m : Sign {0} E Unit) {o : Outcome E (List ℕ)}
        → Agrees sha256 tx spent m o
        → IsCache sha256 tx spent c
        → IsCache sha256 tx spent (finish hash (m c)).0 × ((finish hash (m c)).1 ≡ hashed hash o)
    finish-refines hash m h v =
        let (v', e) = h.run c v in
        (v', finish-observed hash (m c).0 (m c).1.written (m c).1.result ∙ ap (hashed hash) e)

    taproot-refines :
        (i : ℕ) (prevouts : Prevouts) (annex : Option Annex) (leaf : Option (List ℕ × ℕ))
        (t : TapSighashType)
        → Serves spent prevouts
        → IsCache sha256 tx spent c
        → let r =
            finish tap_sighash (taproot_encode_signing_data_to sha256 i prevouts annex leaf t c) in
          IsCache sha256 tx spent r.0
          × (r.1 ≡ hashed tap_sighash (bip341 sha256 tx i prevouts annex leaf t))
    taproot-refines i prevouts annex leaf t s v =
        finish-refines tap_sighash (taproot_encode_signing_data_to sha256 i prevouts annex leaf t)
          (taproot-Agrees sha256 tx spent i prevouts annex leaf t s) v

    p2wsh-refines :
        (i : ℕ) (script : List ℕ) (value : Amount) (t : EcdsaSighashType)
        → IsCache sha256 tx spent c
        → let r =
            finish (sha256d sha256) (segwit_v0_encode_signing_data_to sha256 i script value t c) in
          IsCache sha256 tx spent r.0
          × (r.1 ≡ hashed (sha256d sha256) (bip143 sha256 tx i script value t))
    p2wsh-refines i script value t v =
        finish-refines (sha256d sha256) (segwit_v0_encode_signing_data_to sha256 i script value t)
          (segwit_v0-Agrees sha256 tx spent i script value t) v

    -- For any hash functions: each call on a SighashCache keeps the invariant that a memoised
    -- group of hashes is missing or is the one of the transaction and of the spent outputs, a
    -- change of a witness included, and its reply is the one computed without a cache; a Taproot
    -- call is given one prevout or the list of the spent outputs.
    pub call-refines :
        (r : Call)
        → IsServed spent r
        → IsCache sha256 tx spent c
        → IsCache sha256 (after tx r) spent (call sha256 tap_sighash r c).0
          × ((call sha256 tap_sighash r c).1 ≡ reply tx r)
    unfolding call reply taproot_signature_hash taproot_key_spend_signature_hash
        taproot_script_spend_signature_hash p2wsh_signature_hash p2wpkh_signature_hash
    call-refines (taproot i prevouts annex leaf t) s v =
        let (v', e) = taproot-refines i prevouts annex leaf t s v in (v', ap taproot_hash e)
    call-refines (key_spend i prevouts t) s v =
        let (v', e) = taproot-refines i prevouts none none t s v in (v', ap taproot_hash e)
    call-refines (script_spend i prevouts leaf_hash t) s v =
        let (v', e) = taproot-refines i prevouts none (some (leaf_hash, 0xffff_ffff)) t s v in
        (v', ap taproot_hash e)
    call-refines (p2wsh i script value t) s v =
        let (v', e) = p2wsh-refines i script value t v in (v', ap segwit_hash e)
    call-refines (p2wpkh i script value t) s v = elim (Option-cases (p2wpkh_script_code script)) [
      | inl other ↦ rw (call, p2wpkh_signature_hash, reply, other) (v, refl)
      | inr (code, paid) ↦
          let (v', e) = p2wsh-refines i code value t v in
          rw (call, p2wpkh_signature_hash, reply, paid)
            (v', ap (λ o. p2wpkh_hash (map_err sighash o)) e)
    ]
    call-refines (legacy i script n) s v = (
      v,
      ap legacy_hash (
          legacy_signature_hash-eq (sha256d sha256) c i script n
          ∙ ap (λ u. signed_hash (sha256d sha256) u i script n) v.transaction),
    )
    call-refines (put_witness i w) s v =
        let own = subst (λ u. IsCache sha256 u spent c) (sym v.transaction) v in
        subst
          (λ u.
            IsCache sha256 (after u (put_witness i w)) spent
              (call sha256 tap_sighash (put_witness i w) c).0
            × ((call sha256 tap_sighash (put_witness i w) c).1 ≡ reply u (put_witness i w)))
          v.transaction (put_witness-refines spent c i w own)

  history-IsCache :
      (tx : Transaction) (spent : List TxOut) (c : SighashCache) (rs : List Call)
      → All (IsServed spent) rs
      → IsCache sha256 tx spent c
      → IsCache sha256 (afters tx rs) spent (history sha256 tap_sighash rs c).0
        × ((history sha256 tap_sighash rs c).1 ≡ replies tx rs)
  unfolding history replies
  history-IsCache tx spent c [] served v = (v, refl)
  history-IsCache tx spent c (r ∷ rest) (s, served) v =
      let (v', e) = call-refines r s v in
      let (v'', es) =
        history-IsCache (after tx r) spent (call sha256 tap_sighash r c).0 rest served v' in
      (v'', ap₂ (λ x xs. x ∷ xs) e es)

  -- For any hash functions: the replies of a SighashCache made from a transaction to any sequence
  -- of calls for Taproot, P2WSH, P2WPKH and legacy hashes and changes of witnesses, errors
  -- included, are those computed from the transaction as it stands at each call without a cache,
  -- and the cache holds that transaction at the end; the Taproot calls are given one prevout or
  -- one and the same list of all prevouts.
  pub history-refines :
      (tx : Transaction) (spent : List TxOut) (rs : List Call)
      → All (IsServed spent) rs
      → ((history sha256 tap_sighash rs (new tx)).1 ≡ replies tx rs)
        × ((history sha256 tap_sighash rs (new tx)).0.tx ≡ afters tx rs)
  history-refines tx spent rs served =
      let (v, e) = history-IsCache tx spent (new tx) rs served (new-IsCache sha256 tx spent) in
      (e, v.transaction)
