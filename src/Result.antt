-- ===== src/Result.antt =====
-- What a Python function raises or returns.
use chora_mem.Prelude.{◌≡◌, refl, Bool, true, false, ◌⊎◌, inl, inr}
use chora_mem.Text.{Text}

pub data Error : Type 0 where
  type_error : Text → Error
  value_error : Text → Error
  -- a subclass of ValueError
  unicode_encode_error : Error
  -- whatever a text model, or another object that the caller passes in, raises
  model_error : Text → Error

pub data Result {ℓ} (A : Type ℓ) : Type ℓ where
  err : Error → Result A
  ok : A → Result A

infixl 5 ◌>>=◌ ◌>>◌
abbrev pub ◌>>=◌ {ℓ κ} : {A : Type ℓ} {B : Type κ} → Result A → (A → Result B) → Result B
err e >>= f = err e
ok a >>= f = f a

abbrev pub ◌>>◌ {ℓ} : {B : Type ℓ} → Result (Unit {0}) → Result B → Result B
m >> k = m >>= λ _. k

-- `if test: raise error`
abbrev pub raise_if : Bool → Error → Result (Unit {0})
raise_if true e = err e
raise_if false e = ok tt

pub bind-eq-ok {ℓ κ} :
    {B : Type κ} {A : Type ℓ} (step : Result A) (next : A → Result B) {result : B}
    → (step >>= next) ≡ ok result
    → (a : A) × (step ≡ ok a) × (next a ≡ ok result)
bind-eq-ok (err e) next h = cc
bind-eq-ok (ok a) next h = (a, refl, h)

pub Result-cases {ℓ} :
    {A : Type ℓ} (m : Result A) → ((a : A) × (m ≡ ok a)) ⊎ ((e : Error) × (m ≡ err e))
Result-cases (ok a) = inl (a, refl)
Result-cases (err e) = inr (e, refl)

-- A check that lets the rest run has not raised, and the rest has returned.
pub raise_if-eq-ok {ℓ} :
    {B : Type ℓ} (test : Bool) (e : Error) (k : Result B) {b : B}
    → (raise_if test e >> k) ≡ ok b
    → (test ≡ false) × (k ≡ ok b)
raise_if-eq-ok true e k h = cc
raise_if-eq-ok false e k h = (refl, h)

pub raise_if-not : (test : Bool) (e : Error) → raise_if test e ≡ ok tt → test ≡ false
raise_if-not true e h = cc
raise_if-not false e h = refl
