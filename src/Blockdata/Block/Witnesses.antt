-- ===== src/Blockdata/Block/Witnesses.antt =====
-- The witness commitment check of bitcoin/src/blockdata/block.rs: it gives an answer on transactions
-- in range, and a positive one is justified.
use rust_riecoin.Base.{
  ℕ, arith, ◌≡◌, refl, subst, sym, ap, ◌∙◌, inl, inr, ◌==◌, ==_iff, Bool, true, false, Bool-cases,
  Option, none, some, Option-cases, List, [], ◌∷◌, ◌++◌, map, All, length, replicate, if◌then◌else◌,
}
use rust_riecoin.Primitives.Buffer.{Endian}
use rust_riecoin.Primitives.Witness.Reading.{to_vec-layout}
use rust_riecoin.Primitives.Witness.Layout.{layout}
use rust_riecoin.Primitives.Transaction.{TxIn, Transaction}
use rust_riecoin.Primitives.Txid.{compute_wtxid}
use rust_riecoin.Blockdata.Transaction.{encode_transaction}
use rust_riecoin.Blockdata.Transaction.Witnesses.{IsInput}
use rust_riecoin.Blockdata.Transaction.RoundTrip.{IsTransaction}
use rust_riecoin.Blockdata.Transaction.Ids.{ids-encode}
use rust_riecoin.Blockdata.MerkleTree.Levels.{tree_root, calculate_root-tree_root}
use rust_riecoin.Blockdata.Block.Validate.{
  eq_bytes, map_all, combine, no_witness, is_coinbase, witness_of, with_commitment, with_reserved,
  compare, witness_commitment_from_coinbase, compute_witness_root, compute_witness_commitment,
  check_witness_commitment,
}
use rust_riecoin.Blockdata.Block.Committed.{
  CommitsTo, IsCoinbase, IsBare, no_witness-IsBare, is_coinbase-IsCoinbase,
  witness_commitment_from_coinbase-CommitsTo,
}
use rust_riecoin.Blockdata.Block.Root.{eq_bytes_lem}

module _ {ℓ} {A : Type ℓ} {b : Bool} (x y : A) where
  pub if_true : b ≡ true → (if b then x else y) ≡ x
  if_true h = rw h refl

  pub if_false : b ≡ false → (if b then x else y) ≡ y
  if_false h = rw h refl

module _ (e : Endian) (debug : Bool) (sha256d : List ℕ → List ℕ) where
  -- The hash of the encoding.
  abbrev pub wtxid : Transaction → List ℕ
  wtxid tx = sha256d (encode_transaction e debug tx).bytes

  -- The root of these hashes, with zeros for the coinbase.
  abbrev pub wtxid_root : List Transaction → Option (List ℕ)
  wtxid_root rest =
      let hashes = replicate 32 0 ∷ map wtxid rest in
      tree_root (combine e debug sha256d) (length hashes) hashes

  -- The coinbase commits to the root and to the 32 bytes in its witness.
  pub record HasCommitment (coinbase : Transaction) (rest : List Transaction) (root : List ℕ)
      : Type 0 where
    pub input : TxIn
    pub reserved : List ℕ
    pub first : IsCoinbase coinbase.input input
    pub size : length reserved ≡ 32
    pub witness : input.witness ≡ layout e (reserved ∷ [])
    pub hashed : wtxid_root rest ≡ some root
    pub committed : CommitsTo coinbase.output (sha256d (root ++ reserved))

  -- No transaction has a witness, or the coinbase commits to all of them.
  abbrev pub IsCommitted : List Transaction → Option (List ℕ) → Type 0
  IsCommitted txs none = IsBare txs
  IsCommitted [] (some root) = ⊥
  IsCommitted (coinbase ∷ rest) (some root) = HasCommitment coinbase rest root

  map_all-wtxid :
      (txs : List Transaction)
      → All (IsTransaction e) txs
      → map_all (compute_wtxid e debug sha256d) txs ≡ some (map wtxid txs)
  map_all-wtxid [] h = refl
  map_all-wtxid (tx ∷ rest) (v, h) =
      let (id, stripped, same) = ids-encode e debug sha256d tx v in
      rw (id, map_all-wtxid rest h) refl

  compute_witness_root-wtxid_root :
      (coinbase : Transaction) (rest : List Transaction)
      → All (IsTransaction e) rest
      → compute_witness_root e debug sha256d (coinbase ∷ rest) ≡ some (wtxid_root rest)
  unfolding compute_witness_root
  compute_witness_root-wtxid_root coinbase rest h =
      let (root, empty) =
        calculate_root-tree_root (combine e debug sha256d) (replicate 32 0 ∷ map wtxid rest) in
      rw (map_all-wtxid rest h) root

  -- A check gives an answer, and a positive one is justified.
  abbrev Sound : Transaction → List Transaction → Option (Bool × Option (List ℕ)) → Type 0
  Sound coinbase rest o =
      (p : Bool × Option (List ℕ)) × (o ≡ some p) × (p.0 ≡ true → IsCommitted (coinbase ∷ rest) p.1)

  refused :
      (coinbase : Transaction) (rest : List Transaction) → Sound coinbase rest (some (false, none))
  refused coinbase rest = ((false, none), refl, λ h. cc)

  pub compute_witness_commitment-wtxid_root :
      (coinbase : Transaction) (rest : List Transaction) (reserved : List ℕ)
      → All (IsTransaction e) rest
      → compute_witness_commitment e debug sha256d (coinbase ∷ rest) reserved
        ≡ some (elim (wtxid_root rest) [
          | none ↦ none
          | some root ↦ some (root, sha256d (root ++ reserved))
        ])
  unfolding compute_witness_commitment
  compute_witness_commitment-wtxid_root coinbase rest reserved h =
      rw (compute_witness_root-wtxid_root coinbase rest h) refl

  module _ (coinbase : Transaction) (rest : List Transaction) (input : TxIn)
      (first : IsCoinbase coinbase.input input) (h : All (IsTransaction e) rest) where
    compare-Sound :
        (commitment reserved root : List ℕ)
        → witness_commitment_from_coinbase coinbase ≡ some commitment
        → input.witness ≡ layout e (reserved ∷ [])
        → length reserved ≡ 32
        → wtxid_root rest ≡ some root
        → Sound coinbase rest
            (some (compare e debug sha256d commitment (some (root, sha256d (root ++ reserved)))))
    compare-Sound commitment reserved root c w size found =
        elim (Bool-cases (eq_bytes commitment (sha256d (root ++ reserved)))) [
          | inr other ↦ rw other (refused coinbase rest)
          | inl same ↦ rw same (
            (true, some root),
            refl,
            λ _. record {
              input = input;
              reserved = reserved;
              first = first;
              size = size;
              witness = w;
              hashed = found;
              committed =
                  witness_commitment_from_coinbase-CommitsTo coinbase _
                    (c ∙ ap some (eq_bytes_lem commitment _ same));
            },
          )
        ]

    reserved-Sound :
        (commitment : List ℕ) (stack : List (List ℕ))
        → witness_commitment_from_coinbase coinbase ≡ some commitment
        → input.witness ≡ layout e stack
        → Sound coinbase rest (with_reserved e debug sha256d (coinbase ∷ rest) commitment stack)
    reserved-Sound commitment [] c w = refused coinbase rest
    reserved-Sound commitment (a ∷ b ∷ more) c w = refused coinbase rest
    reserved-Sound commitment (reserved ∷ []) c w =
        let computed = compute_witness_commitment-wtxid_root coinbase rest reserved h in
        elim (Bool-cases (length reserved == 32)) [
          | inr e ↦ rw e (refused coinbase rest)
          | inl size ↦ elim (Option-cases (wtxid_root rest)) [
            | inl missing ↦ rw (size, computed, missing) (refused coinbase rest)
            | inr (root, found) ↦
                rw (size, computed, found)
                  (compare-Sound commitment reserved root c w ((==_iff (length reserved) 32).0 size)
                    found)
          ]
        ]

    commitment-Sound :
        (o : Option (List ℕ))
        → witness_commitment_from_coinbase coinbase ≡ o
        → IsInput e input
        → Sound coinbase rest (with_commitment e debug sha256d coinbase rest o)
    commitment-Sound none c v = refused coinbase rest
    commitment-Sound (some commitment) c (fields, w) =
        let read : witness_of e debug sha256d coinbase.input ≡ some w.stack =
          rw (first.0, w.laid_out) (to_vec-layout e debug w.stack (omega (arith, w.small))) in
        rw read (reserved-Sound commitment w.stack c w.laid_out)

  check-Sound :
      (coinbase : Transaction) (rest : List Transaction)
      → All (IsTransaction e) (coinbase ∷ rest)
      → Sound coinbase rest (check_witness_commitment e debug sha256d (coinbase ∷ rest))
  unfolding check_witness_commitment
  check-Sound coinbase rest (v, h) = elim (Bool-cases (no_witness (coinbase ∷ rest))) [
    | inl bare ↦ rw bare ((true, none), refl, λ t. no_witness-IsBare (coinbase ∷ rest) bare)
    | inr some_witness ↦ elim (Bool-cases (is_coinbase coinbase.input)) [
      | inr other ↦ rw (some_witness, other) (refused coinbase rest)
      | inl once ↦
          let (input, first) = is_coinbase-IsCoinbase coinbase.input once in
          let (valid, _) = subst (All (IsInput e)) first.0 v.input.1 in
          let sound =
            commitment-Sound coinbase rest input first h (witness_commitment_from_coinbase coinbase)
              refl valid in
          subst (Sound coinbase rest) (sym (if_false _ _ some_witness ∙ if_true _ _ once)) sound
    ]
  ]

  pub check_witness_commitment-total :
      (txs : List Transaction)
      → All (IsTransaction e) txs
      → (p : Bool × Option (List ℕ)) × (check_witness_commitment e debug sha256d txs ≡ some p)
        × (p.0 ≡ true → IsCommitted txs p.1)
  check_witness_commitment-total [] h =
      ((true, none), unfold check_witness_commitment in refl, λ t. tt)
  check_witness_commitment-total (coinbase ∷ rest) h = check-Sound coinbase rest h
