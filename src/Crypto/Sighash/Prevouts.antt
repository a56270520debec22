-- ===== src/Crypto/Sighash/Prevouts.antt =====
-- `Prevouts`, `Annex`, `ScriptPath` and the errors of bitcoin/src/crypto/sighash.rs, and
-- `TransactionExt::tx_in` of bitcoin/src/blockdata/transaction.rs.
use rust_riecoin.Base.{
  zero, suc, ltb, ◌⊎◌, inl, inr, ◌≡◌, refl, true, false, arith, ℕ, not, Option, none, some, List,
  [], ◌∷◌, ◌++◌, ◌==◌, if◌then◌else◌, length, get_elem?,
}
use rust_riecoin.Primitives.Transaction.{TxIn, TxOut, Transaction}
use rust_riecoin.Consensus.Io.{Written, emit_u8}
use rust_riecoin.Consensus.Vec.{consensus_encode_with_size, bytes}

pub record InputsIndexError : Type 0 where
  pub index : ℕ
  pub length : ℕ

pub data PrevoutsIndexError : Type 0 where
  invalid_one_index invalid_all_index : PrevoutsIndexError

-- `inputs_index`, and then the `SingleMissingOutputError` with its two numbers. The variant
-- `InvalidSighashType` is built nowhere.
pub data TaprootError : Type 0 where
  inputs_index : InputsIndexError → TaprootError
  single_missing_output : ℕ → ℕ → TaprootError
  prevouts_size prevouts_kind : TaprootError
  prevouts_index : PrevoutsIndexError → TaprootError

-- `Result`, with a panic.
pub data Outcome {ℓ} (E : Type 0) (A : Type ℓ) : Type ℓ where
  ok : A → Outcome E A
  err : E → Outcome E A
  panic : Outcome E A

-- `ok_or`
abbrev pub ok_or {ℓ} : {E : Type 0} {A : Type ℓ} → E → Option A → Outcome E A
ok_or e none = err e
ok_or e (some a) = ok a

-- What is read at an index, and whether the index is below the length.
pub get_elem?-cases {ℓ} :
    {A : Type ℓ} (xs : List A) (i : ℕ)
    → ((x : A) × (get_elem? xs i ≡ some x) × (ltb i (length xs) ≡ true))
      ⊎ ((get_elem? xs i ≡ none) × (ltb i (length xs) ≡ false))
get_elem?-cases [] i = ground arith
get_elem?-cases (x ∷ xs) zero = ground arith
get_elem?-cases (x ∷ xs) (suc i) = elim (get_elem?-cases xs i) [
  | inl (y, found, below) ↦ inl (y, found, ground arith)
  | inr (missing, above) ↦ inr (missing, ground arith)
]

-- An index expression.
abbrev pub at_index {ℓ} : {E : Type 0} {A : Type ℓ} → List A → ℕ → Outcome E A
at_index xs i = elim (get_elem? xs i) [ none ↦ panic | some x ↦ ok x ]

pub at_index-eq {ℓ} :
    {E : Type 0} {A : Type ℓ} (xs : List A) (i : ℕ) {x : A}
    → get_elem? xs i ≡ some x
    → at_index {E = E} xs i ≡ ok x
at_index-eq xs i h = rw (h, at_index) refl

abbrev pub map_err {ℓ} : {E F : Type 0} {A : Type ℓ} → (E → F) → Outcome E A → Outcome F A
map_err f (ok a) = ok a
map_err f (err e) = err (f e)
map_err f panic = panic

unfoldable pub tx_in : Transaction → ℕ → Outcome InputsIndexError TxIn
tx_in tx input_index =
    ok_or (record { index = input_index; length = length tx.input })
      (get_elem? tx.input input_index)

pub tx_in-found :
    (tx : Transaction) (input_index : ℕ) {txin : TxIn}
    → get_elem? tx.input input_index ≡ some txin
    → tx_in tx input_index ≡ ok txin
unfolding tx_in
tx_in-found tx input_index h = rw h refl

pub tx_in-missing :
    (tx : Transaction) (input_index : ℕ)
    → get_elem? tx.input input_index ≡ none
    → tx_in tx input_index ≡ err (record { index = input_index; length = length tx.input })
unfolding tx_in
tx_in-missing tx input_index h = rw h refl

pub data Prevouts : Type 0 where
  one : ℕ → TxOut → Prevouts
  all : List TxOut → Prevouts

unfoldable pub check_all : Prevouts → Transaction → Outcome {0} TaprootError Unit
check_all (one index prevout) tx = ok tt
check_all (all prevouts) tx =
    if not (length prevouts == length tx.input) then err prevouts_size else ok tt

abbrev pub get_all : Prevouts → Outcome TaprootError (List TxOut)
get_all (one index prevout) = err prevouts_kind
get_all (all prevouts) = ok prevouts

unfoldable pub get : Prevouts → ℕ → Outcome PrevoutsIndexError TxOut
get (one index prevout) input_index =
    if input_index == index then ok prevout else err invalid_one_index
get (all prevouts) input_index = ok_or invalid_all_index (get_elem? prevouts input_index)

abbrev pub taproot_annex_prefix : ℕ
taproot_annex_prefix = 0x50

pub data AnnexError : Type 0 where
  empty : AnnexError
  incorrect_prefix : ℕ → AnnexError

-- The field is private: `new` is the only way to a value.
pub record Annex : Type 0 where
  pub as_bytes : List ℕ

unfoldable pub new : List ℕ → Outcome AnnexError Annex
new [] = err empty
new (other ∷ rest) =
    if other == taproot_annex_prefix
    then ok (record { as_bytes = other ∷ rest })
    else err (incorrect_prefix other)

-- `Encodable for Annex`
abbrev pub encode_annex : Annex → Written
encode_annex a = consensus_encode_with_size a.as_bytes

-- `ScriptPath::leaf_hash` feeds the leaf version and the script to the hash of tag `TapLeaf`.
unfoldable pub leaf_hash : (List ℕ → List ℕ) → ℕ → List ℕ → List ℕ
leaf_hash tap_leaf leaf_version script =
    tap_leaf (emit_u8 leaf_version ++ (bytes.consensus_encode script).bytes)
