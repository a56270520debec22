-- ===== src/Crypto/Sighash/Cache/Agrees.antt =====
-- When an operation of `SighashCache` (bitcoin/src/crypto/sighash.rs) answers as if nothing were
-- cached: the rules for its statements.
use rust_riecoin.Base.{
  ℕ, ◌≡◌, refl, sym, ap, subst, ◌⊎◌, inl, inr, Option, none, some, List, map, [], ◌∷◌, ◌++◌,
  append-nil,
}
use rust_riecoin.Primitives.Transaction.{TxOut, Transaction}
use rust_riecoin.Consensus.Io.{Written}
use rust_riecoin.Crypto.Sighash.Prevouts.{Outcome, ok, err, panic}
use rust_riecoin.Crypto.Sighash.Cache.{
  CommonCache, SegwitCache, TaprootCache, SighashCache, new, Sign, ◌>>=◌, lift, skip, emit,
  transaction, behind, continue, get_or_insert_with, common_cache_minimal_borrow, common_hashes,
  hash_again, taproot_hashes, common_cache, segwit_cache, taproot_cache,
}
pub use rust_riecoin.Crypto.Sighash.Cache.Fields.{
  observed, concat, prefixed, joined-ok, joined-late,
}
unfoldable pub use rust_riecoin.Crypto.Sighash.Cache.Fields.{◌>>=ₒ◌, joined}

-- A memoised value is missing or is the one that would be computed.
abbrev pub IsMemo : {A : Type 0} → Option A → A → Type 0
IsMemo m a = (m ≡ none) ⊎ (m ≡ some a)

module _ (sha256 : List ℕ → List ℕ) (tx : Transaction) (spent : List TxOut) where
  -- A cache of `tx`, whose Taproot inputs spend `spent`.
  pub record IsCache (c : SighashCache) : Type 0 where
    pub transaction : c.tx ≡ tx
    pub common : IsMemo c.common_cache (common_hashes sha256 tx)
    pub segwit : IsMemo c.segwit_cache (hash_again sha256 (common_hashes sha256 tx))
    pub taproot : IsMemo c.taproot_cache (taproot_hashes sha256 spent)

  -- Each cache of `tx` is kept, and gives the same result.
  pub record Agrees {E : Type 0} (m : Sign {0} E Unit) (o : Outcome E (List ℕ)) : Type 0 where
    pub run : (c : SighashCache) → IsCache c → IsCache (m c).0 × (observed (m c).1 ≡ o)

  pub new-IsCache : IsCache (new tx)
  new-IsCache = record {
    transaction = refl;
    common = inl refl;
    segwit = inl refl;
    taproot = inl refl;
  }

-- The first result, and the second behind it.
abbrev both : {E : Type 0} → Outcome E (List ℕ) → Outcome E (List ℕ) → Outcome E (List ℕ)
both o o' = o >>=ₒ λ bs. o' >>=ₒ λ bs'. ok (bs ++ bs')

module _ {E : Type 0} where
  observed-behind :
      (bs : List ℕ) (c : SighashCache) (bs' : List ℕ) (o : Outcome {0} E Unit)
      → observed (behind bs (c, record { written = bs'; result = o })).1
        ≡ both (ok bs) (observed (record { written = bs'; result = o }))
  unfolding ◌>>=ₒ◌
  observed-behind bs c bs' (ok u) = refl
  observed-behind bs c bs' (err e) = refl
  observed-behind bs c bs' panic = refl

  -- A result of the first statement, whatever it is, with what is shown of the next one.
  observed-continue :
      (c : SighashCache) (bs : List ℕ) (o : Outcome {0} E Unit) (next : Sign {0} E Unit)
      {r : Outcome E (List ℕ)}
      → observed (next c).1 ≡ r
      → observed (continue c bs o (λ _. next)).1
        ≡ both (observed (record { written = bs; result = o })) r
  unfolding ◌>>=ₒ◌
  observed-continue c bs (ok u) next h =
      rw (sym h) (observed-behind bs (next c).0 (next c).1.written (next c).1.result)
  observed-continue c bs (err e) next h = refl
  observed-continue c bs panic next h = refl

memo-eq : {A : Type 0} (m : Option A) {a b : A} → a ≡ b → IsMemo m b → get_or_insert_with m a ≡ b
memo-eq none e h = e
memo-eq (some x) e (inl h) = absurd cc
memo-eq (some x) e (inr h) = cc

some-eq : {A : Type 0} {m : Option A} {a b : A} → m ≡ some a → IsMemo m b → a ≡ b
some-eq e (inl h) = absurd cc
some-eq e (inr h) = cc

common-eq :
    (sha256 : List ℕ → List ℕ) (tx : Transaction) (spent : List TxOut) (c : SighashCache)
    → IsCache sha256 tx spent c
    → common_cache_minimal_borrow sha256 c.common_cache c.tx ≡ common_hashes sha256 tx
common-eq sha256 tx spent c v =
    memo-eq c.common_cache (ap (common_hashes sha256) v.transaction) v.common

abbrev pub segwit_hashes : (List ℕ → List ℕ) → Transaction → SegwitCache
segwit_hashes sha256 tx = hash_again sha256 (common_hashes sha256 tx)

-- The SegWit group, with the cache that is left behind.
segwit_cache-eq :
    {E : Type 0} (sha256 : List ℕ → List ℕ) (tx : Transaction) (spent : List TxOut)
    (c : SighashCache) (m : Option SegwitCache)
    → c.segwit_cache ≡ m
    → IsCache sha256 tx spent c
    → (c' : SighashCache) × IsCache sha256 tx spent c'
      × (segwit_cache sha256 {E = E} c
          ≡ (c', record { written = []; result = ok (segwit_hashes sha256 tx) }))
unfolding segwit_cache
segwit_cache-eq sha256 tx spent c (some segwit) e v = (c, v, rw (e, some-eq e v.segwit) refl)
segwit_cache-eq sha256 tx spent c none e v = (
  record c {
    common_cache = some (common_hashes sha256 tx);
    segwit_cache = some (segwit_hashes sha256 tx);
  },
  record { transaction = v.transaction; common = inr refl; segwit = inr refl; taproot = v.taproot },
  rw (e, common-eq sha256 tx spent c v) refl,
)

module _ {sha256 : List ℕ → List ℕ} {tx : Transaction} {spent : List TxOut} {E : Type 0} where
  continue-IsCache :
      (c : SighashCache) (bs : List ℕ) (o : Outcome {0} E Unit) (next : Sign {0} E Unit)
      → IsCache sha256 tx spent c
      → IsCache sha256 tx spent (next c).0
      → IsCache sha256 tx spent (continue c bs o (λ _. next)).0
  continue-IsCache c bs (ok u) next v v' = v'
  continue-IsCache c bs (err e) next v v' = v
  continue-IsCache c bs panic next v v' = v

  pub Agrees-joined :
      (m next : Sign {0} E Unit) (o : Outcome E (List ℕ)) (os : List (Outcome E (List ℕ)))
      → Agrees sha256 tx spent m o
      → Agrees sha256 tx spent next (joined os)
      → Agrees sha256 tx spent (m >>= λ _. next) (joined (o ∷ os))
  Agrees-joined m next o os h k =
      unfold ◌>>=◌ joined in
      record {
        run = λ c v.
            let (v₁, e₁) = h.run c v in
            let (v₂, e₂) = k.run (m c).0 v₁ in
            (
              continue-IsCache (m c).0 (m c).1.written (m c).1.result next v₁ v₂,
              rw (sym e₁) (observed-continue (m c).0 (m c).1.written (m c).1.result next e₂),
            );
      }

  -- The last field.
  pub Agrees-last :
      {m : Sign {0} E Unit} {o : Outcome E (List ℕ)}
      → Agrees sha256 tx spent m o
      → Agrees sha256 tx spent m (joined (o ∷ []))
  unfolding joined ◌>>=ₒ◌
  Agrees-last {m} {o = ok bs} h = rw (append-nil bs) h
  Agrees-last {m} {o = err e} h = h
  Agrees-last {m} {o = panic} h = h

  pub Agrees-emit : (w : Written) → Agrees sha256 tx spent {E = E} (emit w) (ok w.bytes)
  unfolding emit
  Agrees-emit w = record { run = λ c v. (v, refl) }

  pub Agrees-skip : Agrees sha256 tx spent {E = E} skip (ok [])
  unfolding skip
  Agrees-skip = record { run = λ c v. (v, refl) }

  pub Agrees-lift {ℓ} :
      {A : Type ℓ} (o : Outcome E A) (f : A → Sign {0} E Unit) (r : A → Outcome E (List ℕ))
      → ((a : A) → Agrees sha256 tx spent (f a) (r a))
      → Agrees sha256 tx spent (lift o >>= f) (o >>=ₒ r)
  unfolding ◌>>=◌ lift ◌>>=ₒ◌
  Agrees-lift (ok a) f r h = record { run = λ c v. (h a).run c v }
  Agrees-lift (err e) f r h = record { run = λ c v. (v, refl) }
  Agrees-lift panic f r h = record { run = λ c v. (v, refl) }

  pub Agrees-value {ℓ} :
      {A : Type ℓ} (a : A) (f : A → Sign {0} E Unit) {o : Outcome E (List ℕ)}
      → Agrees sha256 tx spent (f a) o
      → Agrees sha256 tx spent (lift (ok a) >>= f) o
  Agrees-value a f h = unfold ◌>>=◌ lift in record { run = h.run }

  -- Fields none of which can fail.
  pub Agrees-concat :
      {m : Sign {0} E Unit} (xs : List (List ℕ))
      → Agrees sha256 tx spent m (joined (map (λ bs. ok bs) xs))
      → Agrees sha256 tx spent m (ok (concat xs))
  Agrees-concat {m} xs h = subst (λ o. Agrees sha256 tx spent m o) (joined-ok xs) h

  -- A write in front of a failure.
  pub Agrees-before :
      (w : Written) (next : Sign {0} E Unit) (e : E)
      → Agrees sha256 tx spent next (err e)
      → Agrees sha256 tx spent (emit w >>= λ _. next) (err e)
  Agrees-before w next e h =
      unfold ◌>>=◌ emit ◌>>=ₒ◌ in
      record {
        run = λ c v. ((h.run c v).0, observed-continue c w.bytes (ok tt) next (h.run c v).1);
      }

  pub Agrees-error {ℓ} :
      {A : Type ℓ} (e : E) (f : A → Sign {0} E Unit)
      → Agrees sha256 tx spent (lift (err e) >>= f) (err e)
  Agrees-error e f = unfold ◌>>=◌ lift in record { run = λ c v. (v, refl) }

  pub Agrees-transaction :
      (f : Transaction → Sign {0} E Unit) {o : Outcome E (List ℕ)}
      → Agrees sha256 tx spent (f tx) o
      → Agrees sha256 tx spent (transaction >>= f) o
  Agrees-transaction f {o} h =
      unfold transaction ◌>>=◌ in
      record {
        run = λ c v.
            subst (λ t. IsCache sha256 tx spent (f t c).0 × (observed (f t c).1 ≡ o))
              (sym v.transaction) (h.run c v);
      }

  pub Agrees-common_cache :
      (f : CommonCache → Sign {0} E Unit) {o : Outcome E (List ℕ)}
      → Agrees sha256 tx spent (f (common_hashes sha256 tx)) o
      → Agrees sha256 tx spent (common_cache sha256 >>= f) o
  Agrees-common_cache f {o} h =
      unfold common_cache ◌>>=◌ in
      record {
        run = λ c v.
            subst
              (λ w.
                let c' = record c { common_cache = some w } in
                IsCache sha256 tx spent (f w c').0 × (observed (f w c').1 ≡ o))
              (sym (common-eq sha256 tx spent c v))
              (h.run (record c { common_cache = some (common_hashes sha256 tx) })
                (record {
                  transaction = v.transaction;
                  common = inr refl;
                  segwit = v.segwit;
                  taproot = v.taproot;
                }));
      }

  pub Agrees-segwit_cache :
      (f : SegwitCache → Sign {0} E Unit) {o : Outcome E (List ℕ)}
      → Agrees sha256 tx spent (f (hash_again sha256 (common_hashes sha256 tx))) o
      → Agrees sha256 tx spent (segwit_cache sha256 >>= f) o
  Agrees-segwit_cache f {o} h =
      unfold ◌>>=◌ in
      record {
        run = λ c v.
            let (c', v', e) = segwit_cache-eq {E = E} sha256 tx spent c c.segwit_cache refl v in
            rw e (h.run c' v');
      }

  pub Agrees-taproot_cache :
      (f : TaprootCache → Sign {0} E Unit) {o : Outcome E (List ℕ)}
      → Agrees sha256 tx spent (f (taproot_hashes sha256 spent)) o
      → Agrees sha256 tx spent (taproot_cache sha256 spent >>= f) o
  Agrees-taproot_cache f {o} h =
      unfold taproot_cache ◌>>=◌ in
      record {
        run = λ c v.
            subst
              (λ w.
                let c' = record c { taproot_cache = some w } in
                IsCache sha256 tx spent (f w c').0 × (observed (f w c').1 ≡ o))
              (sym (memo-eq c.taproot_cache refl v.taproot))
              (h.run (record c { taproot_cache = some (taproot_hashes sha256 spent) })
                (record {
                  transaction = v.transaction;
                  common = v.common;
                  segwit = v.segwit;
                  taproot = inr refl;
                }));
      }
