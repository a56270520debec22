-- ===== src/Blockdata/Block/Committed.antt =====
-- The parts of a coinbase that the witness commitment check of bitcoin/src/blockdata/block.rs reads.
use rust_riecoin.Base.{
  ℕ, ◌≤◌, arith, ◌≡◌, refl, sym, ap, ◌∙◌, inl, inr, ◌==◌, ==_iff, ◌&&◌, Bool, true, false,
  Bool-cases, some, List, [], ◌∷◌, ◌++◌, All, length, replicate, take, drop, leb, length-take,
  length-drop, take-append-drop, length-append, take-append, leb→le,
}
use rust_riecoin.Primitives.Transaction.{TxIn, TxOut, Transaction}
use rust_riecoin.Blockdata.Block.Validate.{
  eq_bytes, is_commitment, is_coinbase, witness_commitment_from_coinbase, no_witness, no_witness_in,
}
use rust_riecoin.Blockdata.Block.Root.{eq_bytes_lem}
use rust_riecoin.Blockdata.Block.Commitment.{witness_commitment_from_coinbase-eq-some}

-- The script has the six magic bytes and at least 32 more.
abbrev pub HasMagic : TxOut → Type 0
HasMagic o =
    (rest : List ℕ) × (o.script_pubkey ≡ 0x6a ∷ 0x24 ∷ 0xaa ∷ 0x21 ∷ 0xa9 ∷ 0xed ∷ rest)
    × (32 ≤ length rest)

-- The last of the outputs with the magic bytes has the hash behind them.
pub record CommitsTo (output : List TxOut) (hash : List ℕ) : Type 0 where
  pub front : List TxOut
  pub behind : List TxOut
  pub o : TxOut
  pub tail : List ℕ
  pub split : output ≡ front ++ o ∷ behind
  pub script : o.script_pubkey ≡ 0x6a ∷ 0x24 ∷ 0xaa ∷ 0x21 ∷ 0xa9 ∷ 0xed ∷ (hash ++ tail)
  pub size : length hash ≡ 32
  pub last : All (λ p. ¬ (HasMagic p)) behind

-- The only input, which spends no output.
abbrev pub IsCoinbase : List TxIn → TxIn → Type 0
IsCoinbase input i =
    (input ≡ i ∷ [])
    × (i.previous_output.txid ≡ replicate 32 0)
    × (i.previous_output.vout ≡ 0xffffffff)

-- No input of the transactions has a witness.
abbrev pub IsBare : List Transaction → Type 0
IsBare = All (λ tx. All (λ i. i.witness.witness_elements ≡ 0) tx.input)

and_true : (a b : Bool) → (a && b) ≡ true → (a ≡ true) × (b ≡ true)
and_true true b h = (refl, h)
and_true false b h = absurd cc

is_commitment-HasMagic : (o : TxOut) → is_commitment o ≡ true → HasMagic o
is_commitment-HasMagic o h =
    let (long, same) = and_true (leb 38 (length o.script_pubkey)) _ h in
    let split = take-append-drop 6 o.script_pubkey in
    let start = eq_bytes_lem (take 6 o.script_pubkey) _ same in
    (
      drop 6 o.script_pubkey,
      sym split ∙ ap (λ t. t ++ drop 6 o.script_pubkey) start,
      omega (arith, length-drop 6 o.script_pubkey, leb→le 38 (length o.script_pubkey) long),
    )

HasMagic-is_commitment : (o : TxOut) → HasMagic o → is_commitment o ≡ true
HasMagic-is_commitment o (rest, e, fits) =
    let long : leb 38 (length o.script_pubkey) ≡ true = rw e (ground (arith, fits)) in
    rw (long, e) refl

no_magic :
    (behind : List TxOut)
    → All (λ p. is_commitment p ≡ false) behind
    → All (λ p. ¬ (HasMagic p)) behind
no_magic [] h = tt
no_magic (o ∷ rest) (other, h) = (λ m. let k = HasMagic-is_commitment o m in cc, no_magic rest h)

pub is_coinbase-IsCoinbase : (xs : List TxIn) → is_coinbase xs ≡ true → (i : TxIn) × IsCoinbase xs i
unfolding is_coinbase
is_coinbase-IsCoinbase [] h = absurd cc
is_coinbase-IsCoinbase (i ∷ j ∷ rest) h = absurd cc
is_coinbase-IsCoinbase (i ∷ []) h =
    let (id, vout) = and_true (eq_bytes i.previous_output.txid _) _ h in
    (i, (refl, eq_bytes_lem i.previous_output.txid _ id, (==_iff i.previous_output.vout _).0 vout))

no_witness_in_lem :
    (xs : List TxIn) → no_witness_in xs ≡ true → All (λ i. i.witness.witness_elements ≡ 0) xs
no_witness_in_lem [] h = tt
no_witness_in_lem (i ∷ rest) h =
    let (a, b) = and_true (i.witness.witness_elements == 0) _ h in
    ((==_iff i.witness.witness_elements 0).0 a, no_witness_in_lem rest b)

pub no_witness-IsBare : (txs : List Transaction) → no_witness txs ≡ true → IsBare txs
no_witness-IsBare [] h = tt
no_witness-IsBare (tx ∷ rest) h =
    let (a, b) = and_true (no_witness_in tx.input) _ h in
    (no_witness_in_lem tx.input a, no_witness-IsBare rest b)

-- The commitment that is found is the one of the last output with the magic bytes.
pub witness_commitment_from_coinbase-CommitsTo :
    (tx : Transaction) (commitment : List ℕ)
    → witness_commitment_from_coinbase tx ≡ some commitment
    → CommitsTo tx.output commitment
witness_commitment_from_coinbase-CommitsTo tx commitment h =
    let (first, (o, (front, behind, split, magic, after), same)) =
      (witness_commitment_from_coinbase-eq-some tx commitment).0 h in
    let (rest, e, fits) = is_commitment-HasMagic o magic in
    let cut : commitment ≡ take 32 rest = same ∙ ap (λ s. take 32 (drop 6 s)) e in
    record {
      front = front;
      behind = behind;
      o = o;
      tail = drop 32 rest;
      split = split;
      script = rw (cut, take-append-drop 32 rest) e;
      size = rw cut (omega (arith, length-take 32 rest, fits));
      last = no_magic behind after;
    }

all_but_magic :
    (behind : List TxOut)
    → All (λ p. ¬ (HasMagic p)) behind
    → All (λ p. is_commitment p ≡ false) behind
all_but_magic [] h = tt
all_but_magic (o ∷ rest) (other, h) = (
  elim (Bool-cases (is_commitment o)) [
    | inl magic ↦ absurd (other (is_commitment-HasMagic o magic))
    | inr e ↦ e
  ],
  all_but_magic rest h,
)

pub IsCoinbase-is_coinbase : (xs : List TxIn) (i : TxIn) → IsCoinbase xs i → is_coinbase xs ≡ true
unfolding is_coinbase
IsCoinbase-is_coinbase xs i (one, id, vout) = rw (one, id, vout) refl

-- A coinbase that commits to a hash is found to do so.
pub CommitsTo-witness_commitment_from_coinbase :
    (tx : Transaction) (hash : List ℕ)
    → is_coinbase tx.input ≡ true
    → CommitsTo tx.output hash
    → witness_commitment_from_coinbase tx ≡ some hash
CommitsTo-witness_commitment_from_coinbase tx hash first c =
    let fits : 32 ≤ length (hash ++ c.tail) = omega (arith, length-append hash c.tail, c.size) in
    let magic = HasMagic-is_commitment c.o (hash ++ c.tail, c.script, fits) in
    let cut : hash ≡ take 32 (drop 6 c.o.script_pubkey) =
      rw c.script (sym (take-append 32 hash c.tail (sym c.size))) in
    (witness_commitment_from_coinbase-eq-some tx hash).1
      (first, (c.o, (c.front, c.behind, c.split, magic, all_but_magic c.behind c.last), cut))

IsBare-no_witness_in :
    (xs : List TxIn) → All (λ i. i.witness.witness_elements ≡ 0) xs → no_witness_in xs ≡ true
IsBare-no_witness_in [] h = refl
IsBare-no_witness_in (i ∷ rest) (none_here, h) = rw (none_here, IsBare-no_witness_in rest h) refl

pub IsBare-no_witness : (txs : List Transaction) → IsBare txs → no_witness txs ≡ true
IsBare-no_witness [] h = refl
IsBare-no_witness (tx ∷ rest) (bare, h) =
    rw (IsBare-no_witness_in tx.input bare, IsBare-no_witness rest h) refl
