-- ===== src/Consensus/Result.antt =====
-- bitcoin/src/consensus/error.rs: the errors of decoding. An in-memory reader has no I/O error but
-- the early end of its data, which `From<io::Error> for Error` turns into `MissingData`.
use Prim.Native.String.{String}
use mathlib.Core.Path.{subst₂}
use rust_riecoin.Base.{ℕ, ◌≡◌, refl, ◌≢◌, List, Bool, true, false, if◌then◌else◌}

pub data ParseError : Type 0 where
  missing_data : ParseError
  oversized_vector_allocation : ℕ → ℕ → ParseError
  invalid_checksum : List ℕ → List ℕ → ParseError
  non_minimal_var_int : ParseError
  parse_failed : String → ParseError
  unsupported_segwit_flag : ℕ → ParseError

-- `panic` is a Rust panic: a failed assertion or an index out of bounds.
pub data Result {ℓ} (A : Type ℓ) : Type ℓ where
  ok : A → Result A
  err : ParseError → Result A
  panic : Result A

infixl 5 ◌>>=◌
abbrev pub ◌>>=◌ {ℓ κ} : {A : Type ℓ} {B : Type κ} → Result A → (A → Result B) → Result B
ok a >>= f = f a
err e >>= f = err e
panic >>= f = panic

abbrev pub map {ℓ κ} : {A : Type ℓ} {B : Type κ} → (A → B) → Result A → Result B
map f r = r >>= λ a. ok (f a)

module _ {ℓ κ} {A : Type ℓ} {B : Type κ} where
  -- What succeeds was read in two parts that succeed.
  pub >>=-eq-ok :
      (first : Result A) (next : A → Result B) {result : B}
      → (first >>= next) ≡ ok result
      → (x : A) × (first ≡ ok x) × (next x ≡ ok result)
  >>=-eq-ok panic next e = cc
  >>=-eq-ok (err _) next e = cc
  >>=-eq-ok (ok x) next e = (x, refl, e)

  -- A bind panics only if one of its parts does.
  pub >>=-ne-panic :
      (first : Result A) (next : A → Result B)
      → first ≢ panic
      → ((x : A) → first ≡ ok x → next x ≢ panic)
      → (first >>= next) ≢ panic
  >>=-ne-panic panic next safe later = absurd (safe refl)
  >>=-ne-panic (err _) next safe later = λ p. cc
  >>=-ne-panic (ok x) next safe later = later x refl

pub >>=_assoc {ℓ κ μ} :
    {A : Type ℓ} {B : Type κ} {C : Type μ} (m : Result A) (f : A → Result B) (g : B → Result C)
    → (m >>= f >>= g) ≡ (m >>= λ a. f a >>= g)
>>=_assoc (ok a) f g = refl
>>=_assoc (err e) f g = refl
>>=_assoc panic f g = refl

pub >>=-ok {ℓ} : {A : Type ℓ} (m : Result A) → (m >>= λ a. ok a) ≡ m
>>=-ok (ok a) = refl
>>=-ok (err e) = refl
>>=-ok panic = refl

module _ {ℓ κ} {A : Type ℓ} {B : Type κ} {a a' : A} {b b' : B} where
  pub ok-injective : ◌≡◌ {A = Result (A × B)} (ok (a, b)) (ok (a', b')) → (a ≡ a') × (b ≡ b')
  ok-injective e = (cc, cc)

  -- What holds of the result that is built holds of the one that is named.
  pub ok-subst {μ} :
      (P : A → B → Type μ) → ◌≡◌ {A = Result (A × B)} (ok (a, b)) (ok (a', b')) → P a b → P a' b'
  ok-subst P e h = let (p, q) = ok-injective e in subst₂ P p q h

module _ {ℓ κ} {A : Type ℓ} {B : Type κ} where
  -- Two continuations that agree on what was read.
  pub >>=_congr :
      (m : Result A) {f g : A → Result B} → ((a : A) → m ≡ ok a → f a ≡ g a) → (m >>= f) ≡ (m >>= g)
  >>=_congr (ok a) h = h a refl
  >>=_congr (err e) h = refl
  >>=_congr panic h = refl

module _ {ℓ} {A : Type ℓ} where
  -- A guard that fails with an error was passed.
  pub guard-eq-ok :
      (b : Bool) (e : ParseError) (m : Result A) {a : A}
      → (if b then err e else m) ≡ ok a
      → (b ≡ false) × (m ≡ ok a)
  guard-eq-ok true e m h = cc
  guard-eq-ok false e m h = (refl, h)

  pub choice-eq-ok :
      (b : Bool) (e : ParseError) (m : Result A) {a : A}
      → (if b then m else err e) ≡ ok a
      → (b ≡ true) × (m ≡ ok a)
  choice-eq-ok true e m h = (refl, h)
  choice-eq-ok false e m h = cc

  pub if-ne-panic :
      (b : Bool) (x y : Result A) → x ≢ panic → y ≢ panic → (if b then x else y) ≢ panic
  if-ne-panic true x y h k = h
  if-ne-panic false x y h k = k
