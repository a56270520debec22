-- ===== src/Crypto/Sighash/Cache.antt =====
-- `SighashCache` of bitcoin/src/crypto/sighash.rs: its state, and its three memoised groups of hashes.
-- An operation is a function of the cache that gives the cache back, the bytes written to `writer`,
-- and how it ended.
pub mod Fields
pub mod Agrees
use mathlib.Core.Option as Option
use rust_riecoin.Base.{ℕ, zero, suc, Option, none, some, List, [], ◌∷◌, ◌++◌}
use rust_riecoin.Primitives.Witness.{Witness}
use rust_riecoin.Primitives.Transaction.{TxIn, TxOut, Transaction}
use rust_riecoin.Consensus.Io.{Written}
use rust_riecoin.Consensus.Codec.Fixed.{u32}
use rust_riecoin.Consensus.Vec.{bytes}
use rust_riecoin.Blockdata.Transaction.{amount, out_point, tx_out}
use rust_riecoin.Crypto.Sighash.Prevouts.{Outcome, ok, err, panic}

pub record CommonCache : Type 0 where
  pub prevouts : List ℕ
  pub sequences : List ℕ
  pub outputs : List ℕ

pub record SegwitCache : Type 0 where
  pub prevouts : List ℕ
  pub sequences : List ℕ
  pub outputs : List ℕ

pub record TaprootCache : Type 0 where
  pub amounts : List ℕ
  pub script_pubkeys : List ℕ

pub record SighashCache : Type 0 where
  pub tx : Transaction
  pub common_cache : Option CommonCache
  pub segwit_cache : Option SegwitCache
  pub taproot_cache : Option TaprootCache

abbrev pub new : Transaction → SighashCache
new tx = record { tx = tx; common_cache = none; segwit_cache = none; taproot_cache = none }

-- What an operation wrote, and its result.
pub record Run {ℓ} (E : Type 0) (A : Type ℓ) : Type ℓ where
  pub written : List ℕ
  pub result : Outcome E A

abbrev pub Sign {ℓ} : Type 0 → Type ℓ → Type ℓ
Sign E A = SighashCache → SighashCache × Run E A

-- The bytes of an earlier write stand in front.
abbrev pub behind {ℓ} :
    {E : Type 0} {A : Type ℓ} → List ℕ → SighashCache × Run E A → SighashCache × Run E A
behind bs (c, r) = (c, record r { written = bs ++ r.written })

abbrev pub continue {ℓ κ} :
    {E : Type 0} {A : Type ℓ} {B : Type κ}
    → SighashCache
    → List ℕ
    → Outcome E A
    → (A → Sign E B)
    → SighashCache × Run E B
continue c bs (ok a) next = behind bs (next a c)
continue c bs (err e) next = (c, record { written = bs; result = err e })
continue c bs panic next = (c, record { written = bs; result = panic })

-- The `?` operator between two statements.
infixl 5 ◌>>=◌
unfoldable pub ◌>>=◌ {ℓ κ} :
    {E : Type 0} {A : Type ℓ} {B : Type κ} → Sign E A → (A → Sign E B) → Sign E B
◌>>=◌ m next c = let (c', r) = m c in continue c' r.written r.result next

-- A value, or the error of an operation that writes nothing.
unfoldable pub lift {ℓ} : {E : Type 0} {A : Type ℓ} → Outcome E A → Sign E A
lift o c = (c, record { written = []; result = o })

unfoldable pub skip : {E : Type 0} → Sign {0} E Unit
skip c = (c, record { written = []; result = ok tt })

-- `….consensus_encode(writer)?`
unfoldable pub emit : {E : Type 0} → Written → Sign {0} E Unit
emit w c = (c, record { written = w.bytes; result = ok tt })

-- `self.tx.borrow()`
unfoldable pub transaction : {E : Type 0} → Sign E Transaction
transaction c = (c, record { written = []; result = ok c.tx })

-- `get_or_insert_with`
abbrev pub get_or_insert_with {ℓ} : {A : Type ℓ} → Option A → A → A
get_or_insert_with none a = a
get_or_insert_with (some b) a = b

-- The hash of what was written to the engine.
abbrev pub finish :
    {E : Type 0}
    → (List ℕ → List ℕ)
    → SighashCache × Run {0} E Unit
    → SighashCache × Outcome E (List ℕ)
finish hash (c, r) =
    (c, elim r.result [ ok _ ↦ ok (hash r.written) | err e ↦ err e | panic ↦ panic ])

-- The two engines of the first loop, and that of the second.
unfoldable pub enc_prevouts : List TxIn → List ℕ
enc_prevouts [] = []
enc_prevouts (txin ∷ rest) =
    (out_point.consensus_encode txin.previous_output).bytes ++ enc_prevouts rest

unfoldable pub enc_sequences : List TxIn → List ℕ
enc_sequences [] = []
enc_sequences (txin ∷ rest) = (u32.consensus_encode txin.sequence).bytes ++ enc_sequences rest

unfoldable pub enc_outputs : List TxOut → List ℕ
enc_outputs [] = []
enc_outputs (txout ∷ rest) = (tx_out.consensus_encode txout).bytes ++ enc_outputs rest

unfoldable pub enc_amounts : List TxOut → List ℕ
enc_amounts [] = []
enc_amounts (prevout ∷ rest) = (amount.consensus_encode prevout.value).bytes ++ enc_amounts rest

unfoldable pub enc_script_pubkeys : List TxOut → List ℕ
enc_script_pubkeys [] = []
enc_script_pubkeys (prevout ∷ rest) =
    (bytes.consensus_encode prevout.script_pubkey).bytes ++ enc_script_pubkeys rest

-- `input.get_mut(input_index)`, with what the caller puts into the witness.
unfoldable pub set_witness : List TxIn → ℕ → Witness → Option (List TxIn)
set_witness [] input_index w = none
set_witness (i ∷ rest) zero w = some (record i { witness = w } ∷ rest)
set_witness (i ∷ rest) (suc n) w = Option.map (λ rest'. i ∷ rest') (set_witness rest n w)

-- `*cache.witness_mut(input_index)? = w`: `none` where there is no such input.
unfoldable pub witness_mut : SighashCache → ℕ → Witness → Option SighashCache
witness_mut c input_index w =
    Option.map (λ input. record c { tx = record c.tx { input = input } })
      (set_witness c.tx.input input_index w)

module _ (sha256 : List ℕ → List ℕ) where
  -- The closure of `common_cache_minimal_borrow`.
  abbrev pub common_hashes : Transaction → CommonCache
  common_hashes tx = record {
    prevouts = sha256 (enc_prevouts tx.input);
    sequences = sha256 (enc_sequences tx.input);
    outputs = sha256 (enc_outputs tx.output);
  }

  abbrev pub common_cache_minimal_borrow : Option CommonCache → Transaction → CommonCache
  common_cache_minimal_borrow common_cache tx = get_or_insert_with common_cache (common_hashes tx)

  unfoldable pub common_cache : {E : Type 0} → Sign E CommonCache
  common_cache c =
      let common = common_cache_minimal_borrow c.common_cache c.tx in
      (record c { common_cache = some common }, record { written = []; result = ok common })

  -- The closure of `segwit_cache`: `hash_again` on each.
  abbrev pub hash_again : CommonCache → SegwitCache
  hash_again common = record {
    prevouts = sha256 common.prevouts;
    sequences = sha256 common.sequences;
    outputs = sha256 common.outputs;
  }

  -- The common cache is filled on the way, unless the closure does not run.
  unfoldable pub segwit_cache : {E : Type 0} → Sign E SegwitCache
  segwit_cache c = elim c.segwit_cache [
    | none ↦
        let common = common_cache_minimal_borrow c.common_cache c.tx in
        let segwit = hash_again common in
        (
          record c { common_cache = some common; segwit_cache = some segwit },
          record { written = []; result = ok segwit },
        )
    | some segwit ↦ (c, record { written = []; result = ok segwit })
  ]

  -- The closure of `taproot_cache`.
  abbrev pub taproot_hashes : List TxOut → TaprootCache
  taproot_hashes prevouts = record {
    amounts = sha256 (enc_amounts prevouts);
    script_pubkeys = sha256 (enc_script_pubkeys prevouts);
  }

  unfoldable pub taproot_cache : {E : Type 0} → List TxOut → Sign E TaprootCache
  taproot_cache prevouts c =
      let taproot = get_or_insert_with c.taproot_cache (taproot_hashes prevouts) in
      (record c { taproot_cache = some taproot }, record { written = []; result = ok taproot })
