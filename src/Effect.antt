-- ===== src/Effect.antt =====
-- Coroutines and methods of the program as actions on an explicit state. What was written before an
-- exception stays written, so the state comes back beside the exception too.
use cio_run_auto_orchestrato.Prelude.{String, Bool, true, false, ℕ, ◌≡◌, refl, ap, arith}

-- The exceptions that the code raises or handles, each with its text where the code reads it.
pub data Exn : Type 0 where
  runtime_error : String → Exn
  value_error : String → Exn
  validation_error : Exn
  timeout_error : Exn
  cancelled_error : String → Exn
  fatal_error : String → Exn
  retriable_error : String → Exn
  lock_stolen_error : String → Exn
  other_error : String → Exn
  http_exception : ℕ → String → Exn

-- `str(exc)`.
abbrev pub str : Exn → String
str (runtime_error m) = m
str (value_error m) = m
str validation_error = "validation error"
str timeout_error = ""
str (cancelled_error m) = m
str (fatal_error m) = m
str (retriable_error m) = m
str (lock_stolen_error m) = m
str (other_error m) = m
str (http_exception code m) = m

pub data Result {ℓ} (A : Type ℓ) : Type ℓ where
  ok : A → Result A
  err : Exn → Result A

abbrev pub and_then {ℓ κ} : {A : Type ℓ} {B : Type κ} → Result A → (A → Result B) → Result B
and_then (ok a) f = f a
and_then (err x) f = err x

pub and_then_ok {ℓ κ} :
    {A : Type ℓ} {B : Type κ} (r : Result A) (f : A → Result B) {b : B}
    → and_then r f ≡ ok b
    → (a : A) × (r ≡ ok a) × (f a ≡ ok b)
and_then_ok (ok a) f h = (a, refl, h)
and_then_ok (err x) f h = ground arith

pub ok_injective {ℓ} : {A : Type ℓ} {a b : A} → ok a ≡ ok b → a ≡ b
ok_injective h = ground arith

err≢ok {ℓ} : {A : Type ℓ} {a : A} {x : Exn} → ¬ (err x ≡ ok a)
err≢ok h = ground arith

-- What holds of a result that a chain returns, from what holds of the rest of the chain.
pub and_then_gives {ℓ κ μ} :
    {A : Type ℓ} {B : Type κ} (P : B → Type μ) (r : Result A) (f : A → Result B)
    → ((a : A) → r ≡ ok a → (b : B) → f a ≡ ok b → P b)
    → (b : B) → and_then r f ≡ ok b
    → P b
and_then_gives P (ok a) f k b h = k a refl b h
and_then_gives P (err x) f k b h = ground arith

abbrev pub Action {ℓ κ} : Type ℓ → Type κ → Type (ℓ ⊔ κ)
Action S A = S → Result A × S

module _ {ℓ κ} {S : Type ℓ} {A : Type κ} where
  abbrev pub pure : A → Action S A
  pure a s = (ok a, s)

  abbrev pub raise : Exn → Action S A
  raise x s = (err x, s)

  abbrev pub gets : (S → A) → Action S A
  gets f s = (ok (f s), s)

  -- `try: m` with its handler, which is given the exception.
  abbrev pub handle : Result A → (Exn → Action S A) → Action S A
  handle (ok a) h s = (ok a, s)
  handle (err x) h s = h x s

  abbrev pub catch : Action S A → (Exn → Action S A) → Action S A
  catch m h s = let (r, s') = m s in handle r h s'

abbrev pub modify {ℓ} : {S : Type ℓ} → (S → S) → Action S (Unit {0})
modify f s = (ok tt, f s)

module _ {ℓ κ μ} {S : Type ℓ} {A : Type κ} {B : Type μ} where
  abbrev pub continue : Result A → (A → Action S B) → Action S B
  continue (ok a) f s = f a s
  continue (err x) f s = (err x, s)

  infixl 5 ◌>>=◌ ◌>>◌
  abbrev pub ◌>>=◌ : Action S A → (A → Action S B) → Action S B
  ◌>>=◌ m f s = let (r, s') = m s in continue r f s'

  abbrev pub ◌>>◌ : Action S A → Action S B → Action S B
  m >> n = m >>= λ _. n

  -- A chain that returns: its first step does, and the rest does from there.
  pub continue_returns :
      (r : Result A) (f : A → Action S B) (s : S) {b : B} {s' : S}
      → continue r f s ≡ (ok b, s')
      → (a : A) × (r ≡ ok a) × (f a s ≡ (ok b, s'))
  continue_returns (ok a) f s q = (a, refl, q)
  continue_returns (err x) f s q = elim (err≢ok (ap (λ y. y.0) q)) [ ]

-- `if b: m`.
abbrev pub when {ℓ} : {S : Type ℓ} → Bool → Action S (Unit {0}) → Action S (Unit {0})
when true m = m
when false m = pure tt
