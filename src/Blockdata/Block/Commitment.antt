-- ===== src/Blockdata/Block/Commitment.antt =====
-- Where bitcoin/src/blockdata/block.rs finds the witness commitment of a coinbase.
use rust_riecoin.Base.{
  ℕ, ◌≡◌, refl, subst, ap, ◌↔◌, inl, inr, true, false, Bool-cases, none, some, Option-cases, List,
  [], ◌∷◌, ◌++◌, All, take, drop,
}
use rust_riecoin.Primitives.Transaction.{TxOut, Transaction}
use rust_riecoin.Blockdata.Block.Validate.{
  is_commitment, last_commitment, is_coinbase, witness_commitment_from_coinbase,
}

-- The output stands in the list, it starts with the magic bytes, and none behind it does.
abbrev pub IsLast : List TxOut → TxOut → Type 0
IsLast output o =
    (front : List TxOut) × (behind : List TxOut) × (output ≡ front ++ o ∷ behind)
    × (is_commitment o ≡ true)
    × All (λ p. is_commitment p ≡ false) behind

-- No output of a list without a commitment starts with the magic bytes.
last_commitment-eq-none :
    (output : List TxOut)
    → last_commitment output ≡ none
    → All (λ p. is_commitment p ≡ false) output
unfolding last_commitment
last_commitment-eq-none [] h = tt
last_commitment-eq-none (o ∷ rest) h = elim (Option-cases (last_commitment rest)) [
  | inr (later, e) ↦ absurd (let k = rw e at h in cc)
  | inl e ↦ elim (Bool-cases (is_commitment o)) [
    | inl magic ↦ absurd (let k = rw (e, magic) at h in cc)
    | inr other ↦ (other, last_commitment-eq-none rest e)
  ]
]

last_commitment-eq-some :
    (output : List TxOut) {o : TxOut} → last_commitment output ≡ some o → IsLast output o
unfolding last_commitment
last_commitment-eq-some [] h = absurd cc
last_commitment-eq-some (o ∷ rest) {o = found} h = elim (Option-cases (last_commitment rest)) [
  | inr (later, e) ↦
      let (front, behind, split, m, after) = last_commitment-eq-some rest e in
      let same : later ≡ found = (let k = rw e at h in cc) in
      subst (IsLast (o ∷ rest)) same (o ∷ front, behind, ap (λ t. o ∷ t) split, m, after)
  | inl e ↦ elim (Bool-cases (is_commitment o)) [
    | inl magic ↦
        let same : o ≡ found = (let k = rw (e, magic) at h in cc) in
        subst (IsLast (o ∷ rest)) same ([], rest, refl, magic, last_commitment-eq-none rest e)
    | inr other ↦ absurd (let k = rw (e, other) at h in cc)
  ]
]

none_behind :
    (behind : List TxOut)
    → All (λ p. is_commitment p ≡ false) behind
    → last_commitment behind ≡ none
unfolding last_commitment
none_behind [] h = refl
none_behind (o ∷ rest) (other, h) = rw (none_behind rest h, other) refl

last_commitment-append :
    (front : List TxOut) (o : TxOut) (behind : List TxOut)
    → is_commitment o ≡ true
    → All (λ p. is_commitment p ≡ false) behind
    → last_commitment (front ++ o ∷ behind) ≡ some o
unfolding last_commitment
last_commitment-append [] o behind h none_after = rw (none_behind behind none_after, h) refl
last_commitment-append (x ∷ front) o behind h none_after =
    rw (last_commitment-append front o behind h none_after) refl

-- A transaction has a witness commitment exactly if it is a coinbase and has an output of at least
-- 38 script bytes that starts with the magic bytes; the commitment is then bytes 6 to 37 of the
-- script of the last such output.
pub witness_commitment_from_coinbase-eq-some :
    (tx : Transaction) (commitment : List ℕ)
    → (witness_commitment_from_coinbase tx ≡ some commitment) ↔ (
        (is_coinbase tx.input ≡ true)
        × ((o : TxOut) × IsLast tx.output o × (commitment ≡ take 32 (drop 6 o.script_pubkey))))
unfolding witness_commitment_from_coinbase
witness_commitment_from_coinbase-eq-some tx commitment = (
  λ h. elim (Bool-cases (is_coinbase tx.input)) [
    | inr other ↦ absurd (let k = rw other at h in cc)
    | inl first ↦ elim (Option-cases (last_commitment tx.output)) [
      | inl missing ↦ absurd (let k = rw (first, missing) at h in cc)
      | inr (o, found) ↦
          let k = rw (first, found) at h in
          (first, (o, last_commitment-eq-some tx.output found, cc))
    ]
  ],
  λ (first, (o, (front, behind, split, m, after), same)).
      rw (first, split, last_commitment-append front o behind m after, same) refl,
)
