-- ===== src/Blockdata/Block/Complete.antt =====
-- A coinbase that commits to the witnesses passes the check of bitcoin/src/blockdata/block.rs.
use rust_riecoin.Base.{
  ℕ, arith, ◌≡◌, refl, ◌∙◌, ==_iff, Bool, true, false, Option, none, some, List, [], ◌∷◌, ◌++◌, All,
  length, length-append,
}
use rust_riecoin.Primitives.Buffer.{Endian}
use rust_riecoin.Primitives.Witness.Reading.{to_vec-layout}
use rust_riecoin.Primitives.Witness.Layout.{item, IsIndexable, length-item}
use rust_riecoin.Internals.CompactSize.{encoded_size}
use rust_riecoin.Primitives.Transaction.{Transaction}
use rust_riecoin.Blockdata.Transaction.RoundTrip.{IsTransaction}
use rust_riecoin.Blockdata.Block.Validate.{
  no_witness, witness_of, with_commitment, with_reserved, witness_commitment_from_coinbase,
  check_witness_commitment,
}
use rust_riecoin.Blockdata.Block.Committed.{
  IsCoinbase-is_coinbase, CommitsTo-witness_commitment_from_coinbase, IsBare-no_witness,
}
use rust_riecoin.Blockdata.Block.Witnesses.{
  HasCommitment, IsCommitted, if_true, if_false, compute_witness_commitment-wtxid_root,
}
use rust_riecoin.Blockdata.Block.Root.{eq_bytes_refl}

module _ (e : Endian) (debug : Bool) (sha256d : List ℕ → List ℕ) where
  witnessed :
      (coinbase : Transaction) (rest : List Transaction) (root : List ℕ)
      → HasCommitment e debug sha256d coinbase rest root
      → no_witness (coinbase ∷ rest) ≡ false
  witnessed coinbase rest root k = rw (k.first.0, k.witness) refl

  with_reserved-HasCommitment :
      (coinbase : Transaction) (rest : List Transaction) (root : List ℕ)
      → All (IsTransaction e) rest
      → (k : HasCommitment e debug sha256d coinbase rest root)
      → with_reserved e debug sha256d
          (coinbase ∷ rest)
          (sha256d (root ++ k.reserved))
          (k.reserved ∷ [])
        ≡ some (true, some root)
  with_reserved-HasCommitment coinbase rest root h k =
      rw
        (
          (==_iff (length k.reserved) 32).1 k.size,
          compute_witness_commitment-wtxid_root e debug sha256d coinbase rest k.reserved h,
          k.hashed,
          eq_bytes_refl (sha256d (root ++ k.reserved)),
        )
        refl

  reserved-IsIndexable : (reserved : List ℕ) → length reserved ≡ 32 → IsIndexable (reserved ∷ [])
  unfolding encoded_size
  reserved-IsIndexable reserved size =
      let short : encoded_size (length reserved) ≡ 1 = rw size refl in
      omega (arith, length-append (item reserved) [], length-item reserved, short, size)

  with_commitment-HasCommitment :
      (coinbase : Transaction) (rest : List Transaction) (root : List ℕ)
      → All (IsTransaction e) rest
      → HasCommitment e debug sha256d coinbase rest root
      → with_commitment e debug sha256d coinbase rest (witness_commitment_from_coinbase coinbase)
        ≡ some (true, some root)
  with_commitment-HasCommitment coinbase rest root h k =
      let once = IsCoinbase-is_coinbase coinbase.input k.input k.first in
      let found =
        CommitsTo-witness_commitment_from_coinbase coinbase (sha256d (root ++ k.reserved)) once
          k.committed in
      let read : witness_of e debug sha256d coinbase.input ≡ some (k.reserved ∷ []) =
        rw (k.first.0, k.witness)
          (to_vec-layout e debug (k.reserved ∷ []) (reserved-IsIndexable k.reserved k.size)) in
      rw (found, read) (with_reserved-HasCommitment coinbase rest root h k)

  check_witness_commitment-HasCommitment :
      (coinbase : Transaction) (rest : List Transaction) (root : List ℕ)
      → All (IsTransaction e) rest
      → HasCommitment e debug sha256d coinbase rest root
      → check_witness_commitment e debug sha256d (coinbase ∷ rest) ≡ some (true, some root)
  unfolding check_witness_commitment
  check_witness_commitment-HasCommitment coinbase rest root h k =
      if_false _ _ (witnessed coinbase rest root k)
      ∙ if_true _ _ (IsCoinbase-is_coinbase coinbase.input k.input k.first)
      ∙ with_commitment-HasCommitment coinbase rest root h k

  pub check_witness_commitment-IsCommitted :
      (txs : List Transaction) (o : Option (List ℕ))
      → All (IsTransaction e) txs
      → IsCommitted e debug sha256d txs o
      → check_witness_commitment e debug sha256d txs ≡ some (true, o)
  unfolding check_witness_commitment
  check_witness_commitment-IsCommitted [] none h k = refl
  check_witness_commitment-IsCommitted [] (some root) h k = absurd k
  check_witness_commitment-IsCommitted (coinbase ∷ rest) none h k =
      rw (IsBare-no_witness (coinbase ∷ rest) k) refl
  check_witness_commitment-IsCommitted (coinbase ∷ rest) (some root) (v, h) k =
      check_witness_commitment-HasCommitment coinbase rest root h k
