-- ===== src/Blockdata/Transaction/Predict/Sums.antt =====
-- The folds of the prediction as sums.
use rust_riecoin.Base.{
  ℕ, suc, ◌+◌, ◌-◌, ◌*◌, ◌≤◌, ◌≡◌, refl, ◌∙◌, ap, Bool, true, false, not, ◌&&◌, ◌||◌, List, [], ◌∷◌,
  map, length, ltb, ◌==◌, if◌then◌else◌, arith, length-append, Bool-cases, inl, inr,
}
use rust_riecoin.Internals.CompactSize.{encoded_size, encoded_size_const}
use rust_riecoin.Internals.CompactSize.RoundTrip.{length-encode}
use rust_riecoin.Primitives.Witness.Layout.{elements, item, length-item}
use rust_riecoin.Primitives.Transaction.{TxOut}
use rust_riecoin.Blockdata.Transaction.Size.{output_sizes}
use rust_riecoin.Blockdata.Transaction.Predict.{
  InputWeightPrediction, fold_elements, new, fold_inputs, fold_outputs, predict_weight_internal,
  predict_weight,
}

pair_eq : {a b c d : ℕ} → a ≡ c → b ≡ d → ◌≡◌ {A = ℕ × ℕ} (a, b) (c, d)
pair_eq p q = λ i. (p i, q i)

triple_eq : {a b c d e f : ℕ} → a ≡ d → b ≡ e → c ≡ f → ◌≡◌ {A = ℕ × ℕ × ℕ} (a, b, c) (d, e, f)
triple_eq p q r = λ i. (p i, q i, r i)

fold_elements-elements :
    (xs : List (List ℕ)) (n m : ℕ)
    → fold_elements (n, m) (map length xs) ≡ (n + length xs, m + length (elements xs))
unfolding fold_elements
fold_elements-elements [] n m = pair_eq (omega arith) (omega arith)
fold_elements-elements (x ∷ xs) n m =
    fold_elements-elements xs (n + 1) (m + (length x + encoded_size (length x)))
    ∙ pair_eq (omega arith) (omega (arith, length-append (item x) (elements xs), length-item x))

abbrev pub flag : InputWeightPrediction → ℕ
flag p = if ltb 0 p.witness_size then 1 else 0

abbrev pub weights : List InputWeightPrediction → ℕ
weights [] = 0
weights (p ∷ rest) = 160 + p.script_size * 4 + p.witness_size + weights rest

abbrev pub flags : List InputWeightPrediction → ℕ
flags [] = 0
flags (p ∷ rest) = flag p + flags rest

fold_inputs-sums :
    (ps : List InputWeightPrediction) (c w k : ℕ)
    → fold_inputs (c, w, k) ps ≡ (c + length ps, w + weights ps, k + flags ps)
unfolding fold_inputs
fold_inputs-sums [] c w k = triple_eq (omega arith) (omega arith) (omega arith)
fold_inputs-sums (p ∷ ps) c w k =
    fold_inputs-sums ps (c + 1) (w + (160 + (p.script_size * 4 + p.witness_size))) (k + flag p)
    ∙ triple_eq (omega arith) (omega arith) (omega arith)

abbrev pub script_lens : List TxOut → List ℕ
script_lens [] = []
script_lens (o ∷ os) = length o.script_pubkey ∷ script_lens os

fold_outputs-sums :
    (os : List TxOut) (c s : ℕ)
    → ((fold_outputs (c, s) (script_lens os)).0 ≡ c + length os)
      × (8 * (fold_outputs (c, s) (script_lens os)).0 + (fold_outputs (c, s) (script_lens os)).1
          ≡ 8 * c + s + output_sizes os)
unfolding fold_outputs output_sizes
fold_outputs-sums [] c s = (omega arith, omega arith)
fold_outputs-sums (o ∷ os) c s =
    let len = length o.script_pubkey in
    let (count, total) = fold_outputs-sums os (c + 1) (s + len + encoded_size len) in
    (omega (arith, count), omega (arith, total))

encoded_size-zero : encoded_size 0 ≡ 1
unfolding encoded_size
encoded_size-zero = refl

abbrev stack_size : List (List ℕ) → ℕ
stack_size xs = if ltb 0 (length xs) then length (elements xs) + encoded_size (length xs) else 0

witness_size-new :
    (n : ℕ) (xs : List (List ℕ)) → (new n (map length xs)).witness_size ≡ stack_size xs
unfolding new
witness_size-new n xs =
    ap (λ p. if ltb 0 p.0 then p.1 + encoded_size p.0 else 0)
      (fold_elements-elements xs 0 0
        ∙ pair_eq {c = length xs} {d = length (elements xs)} (omega arith) (omega arith))

pub script_size-new : (n : ℕ) (ls : List ℕ) → (new n ls).script_size ≡ n + encoded_size n
unfolding new
script_size-new n ls = refl

-- The witness size that is predicted for a stack, against the length of its encoding.
stack_size-flag :
    (xs : List (List ℕ))
    → (encoded_size (length xs) + length (elements xs) + (if ltb 0 (stack_size xs) then 1 else 0)
        ≡ stack_size xs + 1)
      × (((if ltb 0 (stack_size xs) then 1 else 0) == 0) ≡ (length xs == 0))
stack_size-flag [] = (omega (arith, encoded_size-zero), refl)
stack_size-flag (x ∷ xs) = ground (arith, length-encode (suc (length xs)))

pub witness_size-stack :
    (n : ℕ) (xs : List (List ℕ))
    → (encoded_size (length xs) + length (elements xs) + flag (new n (map length xs))
        ≡ (new n (map length xs)).witness_size + 1)
      × ((flag (new n (map length xs)) == 0) ≡ (length xs == 0))
witness_size-stack n xs = rw (witness_size-new n xs) (stack_size-flag xs)

pub flag_one : (p : InputWeightPrediction) → flag p ≤ 1
flag_one p = ground arith

pub no_flag : (p : InputWeightPrediction) → flag p ≡ 0 → p.witness_size ≡ 0
no_flag p h = ground arith

pub zero_sum : (a b : ℕ) → ((a + b) == 0) ≡ ((a == 0) && (b == 0))
zero_sum a b = ground arith

pub de_morgan : (a b : Bool) → (a && not b) ≡ not (not a || b)
de_morgan true b = refl
de_morgan false b = refl

inputs_folded :
    (ps : List InputWeightPrediction) → fold_inputs (0, 0, 0) ps ≡ (length ps, weights ps, flags ps)
inputs_folded ps = fold_inputs-sums ps 0 0 0 ∙ triple_eq (omega arith) (omega arith) (omega arith)

abbrev pub fixed : ℕ → List TxOut → ℕ
fixed n os = 4 + encoded_size n + encoded_size (length os) + output_sizes os + 4

pub predicted :
    (ps : List InputWeightPrediction) (os : List TxOut)
    → (predict_weight ps (script_lens os)).wu ≡ (
        if flags ps == 0
        then fixed (length ps) os * 4 + weights ps
        else fixed (length ps) os * 4 + weights ps + length ps - flags ps + 2)
unfolding predict_weight predict_weight_internal encoded_size
predicted ps os =
    let (count, total) = fold_outputs-sums os 0 0 in
    let outputs : (fold_outputs (0, 0) (script_lens os)).0 ≡ length os = omega (arith, count) in
    let same = ap encoded_size_const outputs in
    elim (Bool-cases (flags ps == 0)) [
      | inl h ↦ rw (inputs_folded ps, h) (omega (arith, count, total, same))
      | inr h ↦ rw (inputs_folded ps, h) (omega (arith, count, total, same))
    ]
