-- ===== src/Blockdata/Block/Safety.antt =====
-- What the validation of bitcoin/src/blockdata/block.rs makes sure of.
use rust_riecoin.Base.{
  ℕ, ◌≡◌, ◌≢◌, refl, ap, inl, inr, Bool, true, Bool-cases, Option, some, List, All,
}
use rust_riecoin.Primitives.Buffer.{Endian}
use rust_riecoin.Primitives.Block.{Block}
use rust_riecoin.Blockdata.Transaction.RoundTrip.{IsTransaction}
use rust_riecoin.Blockdata.Block.Validate.{
  Validated, ok, err, invalid_merkle_root, invalid_witness_commitment, validate,
}
use rust_riecoin.Blockdata.Block.Witnesses.{IsCommitted, check_witness_commitment-total}
use rust_riecoin.Blockdata.Block.Complete.{check_witness_commitment-IsCommitted}
use rust_riecoin.Blockdata.Block.Root.{txid_root, check_merkle_root_iff}

module _ (e : Endian) (debug : Bool) (sha256d : List ℕ → List ℕ) where
  -- What each answer says of the block.
  abbrev pub Accepts : Block → Validated → Type 0
  Accepts b (ok b') =
      (b'.header ≡ b.header)
      × (b'.transactions ≡ b.transactions)
      × (txid_root e debug sha256d b.transactions ≡ some b.header.merkle_root)
      × IsCommitted e debug sha256d b.transactions b'.witness_root
  Accepts b (err invalid_merkle_root) =
      txid_root e debug sha256d b.transactions ≢ some b.header.merkle_root
  Accepts b (err invalid_witness_commitment) =
      (txid_root e debug sha256d b.transactions ≡ some b.header.merkle_root)
      × ¬ ((o : Option (List ℕ)) × IsCommitted e debug sha256d b.transactions o)

  -- For any hash function, validate never panics on a block whose transactions have fields in
  -- range. An accepted block has the header and the transactions it was given, its header has the
  -- root of the tree of the transaction hashes, and either no input has a witness and no witness
  -- root is kept, or the first transaction has one input, which spends no output and whose witness
  -- is one element of 32 bytes, and the last of its outputs whose script is the six magic bytes
  -- and at least 32 more has behind the magic bytes the hash, 32 bytes long, of those 32 bytes
  -- behind the root of the tree of the witness hashes, which is the root that is kept. A block
  -- refused for its Merkle root does not have that root; one refused for its commitment has it,
  -- but has a witness and no such commitment.
  pub validate-Accepts :
      (b : Block)
      → All (IsTransaction e) b.transactions
      → (r : Validated) × (validate e debug sha256d b ≡ some r) × Accepts b r
  unfolding validate
  validate-Accepts b h =
      let (good, checked, root) = check_merkle_root_iff e debug sha256d b.header b.transactions h in
      let (p, committed, sound) = check_witness_commitment-total e debug sha256d b.transactions h in
      elim (Bool-cases good) [
        | inr bad ↦ (err invalid_merkle_root, rw (checked, bad) refl, λ k. let t = root.1 k in cc)
        | inl fine ↦ elim (Bool-cases p.0) [
          | inl yes_all ↦ (
            ok (record { header = b.header; transactions = b.transactions; witness_root = p.1 }),
            rw (checked, fine, committed, yes_all) refl,
            (refl, refl, root.0 fine, sound yes_all),
          )
          | inr no_all ↦ (
            err invalid_witness_commitment,
            rw (checked, fine, committed, no_all) refl,
            (
              root.0 fine,
              λ (o, k).
                  let full =
                    check_witness_commitment-IsCommitted e debug sha256d b.transactions o h k in
                  let same : p ≡ (true, o) = cc in
                  let accepted : p.0 ≡ true = ap (λ q. q.0) same in cc,
            ),
          )
        ]
      ]
