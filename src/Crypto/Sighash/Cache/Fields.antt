-- ===== src/Crypto/Sighash/Cache/Fields.antt =====
-- What is written of a message of bitcoin/src/crypto/sighash.rs, as the outcomes of its fields in their
-- order.
use rust_riecoin.Base.{ℕ, ◌≡◌, refl, ◌∙◌, ap, List, map, [], ◌∷◌, ◌++◌, append-nil}
use rust_riecoin.Crypto.Sighash.Prevouts.{Outcome, ok, err, panic}
use rust_riecoin.Crypto.Sighash.Cache.{Run}

-- What is written on success; an error hides it.
abbrev pub observed : {E : Type 0} → Run {0} E Unit → Outcome E (List ℕ)
observed r = elim r.result [ ok _ ↦ ok r.written | err e ↦ err e | panic ↦ panic ]

infixl 5 ◌>>=ₒ◌
unfoldable pub ◌>>=ₒ◌ {ℓ κ} :
    {E : Type 0} {A : Type ℓ} {B : Type κ} → Outcome E A → (A → Outcome E B) → Outcome E B
ok a >>=ₒ f = f a
err e >>=ₒ f = err e
panic >>=ₒ f = panic

-- The fields of a message in their order; the first that fails is the result.
unfoldable pub joined : {E : Type 0} → List (Outcome E (List ℕ)) → Outcome E (List ℕ)
unfolding ◌>>=ₒ◌
joined [] = ok []
joined (field ∷ rest) = field >>=ₒ λ bs. joined rest >>=ₒ λ bs'. ok (bs ++ bs')

abbrev pub concat : List (List ℕ) → List ℕ
concat [] = []
concat (bs ∷ rest) = bs ++ concat rest

-- One more field in front.
abbrev pub prefixed : {E : Type 0} → List ℕ → Outcome E (List ℕ) → Outcome E (List ℕ)
prefixed bs o = o >>=ₒ λ bs'. ok (bs ++ bs')

pub joined-ok :
    {E : Type 0} (xs : List (List ℕ)) → joined {E = E} (map (λ bs. ok bs) xs) ≡ ok (concat xs)
unfolding joined ◌>>=ₒ◌
joined-ok [] = refl
joined-ok (bs ∷ xs) = ap (prefixed bs) (joined-ok xs)

-- Fields that are known, and behind them those that depend on what may be missing.
pub joined-late :
    {E : Type 0} {A : Type 0} (xs : List (List ℕ)) (o : Outcome E A) (r : A → List (List ℕ))
    → joined (map (λ bs. ok bs) xs ++ (o >>=ₒ λ a. joined (map (λ bs. ok bs) (r a))) ∷ [])
      ≡ (o >>=ₒ λ a. ok (concat (xs ++ r a)))
unfolding joined ◌>>=ₒ◌
joined-late [] (ok a) r =
    ap (λ o. o >>=ₒ λ bs. ok (bs ++ [])) (joined-ok (r a)) ∙ ap ok (append-nil (concat (r a)))
joined-late [] (err e) r = refl
joined-late [] panic r = refl
joined-late (bs ∷ xs) (ok a) r = ap (prefixed bs) (joined-late xs (ok a) r)
joined-late (bs ∷ xs) (err e) r = ap (prefixed bs) (joined-late xs (err e) r)
joined-late (bs ∷ xs) panic r = ap (prefixed bs) (joined-late xs panic r)
