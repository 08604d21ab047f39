-- ===== src/Bridge/Results.antt =====
-- What an operation of packages/web/server/codexBridgeStore.ts returns or throws, as a monad, and
-- a rule for what holds of every value that a chain of operations returns.
use af_companion.Prelude.{
  ℕ, String, Bool, true, false, Option, none, some, ◌≡◌, refl, ◌⊎◌, inl, inr, if◌then◌else◌,
}

-- a failure by its HTTP status and its code; `code` is empty for a plain `Error`
pub record Failure : Type 0 where
  pub status_code : ℕ
  pub code : String

pub data Result (A : Type 0) : Type 0 where
  ok : A → Result A
  throw : Failure → Result A

-- What a read of the repository gives: `invalid` is a `CodexBridgeValidationError`, `broken` any
-- other error.
pub data Reading (A : Type 0) : Type 0 where
  found : A → Reading A
  invalid broken : Failure → Reading A

infixl 5 ◌>>=◌ ◌>>◌
abbrev pub ◌>>=◌ : {A B : Type 0} → Result A → (A → Result B) → Result B
ok a >>= f = f a
throw e >>= f = throw e

abbrev pub ◌>>◌ : {A B : Type 0} → Result A → Result B → Result B
ok a >> r = r
throw e >> r = throw e

abbrev pub pure : {A : Type 0} → A → Result A
pure = ok

-- `if (!b) throw failure`
abbrev pub require : Bool → Failure → Result (Unit {0})
require true f = ok tt
require false f = throw f

-- `if (!o) throw failure`
abbrev pub present : {A : Type 0} → Option A → Failure → Result A
present (some a) f = ok a
present none f = throw f

-- a read whose errors are not caught
abbrev pub read : {A : Type 0} → Reading A → Result A
read (found a) = ok a
read (invalid f) = throw f
read (broken f) = throw f

-- `new CodexBridgeValidationError(message, 409, code)`
abbrev pub conflict : String → Failure
conflict c = record { status_code = 409; code = c }

abbrev pub not_found : String → Failure
not_found c = record { status_code = 404; code = c }

-- `new Error(message)`
abbrev pub plain_error : Failure
plain_error = record { status_code = 500; code = "" }

-- To split on a result and keep the equation.
pub Result-cases :
    {A : Type 0} (r : Result A) → ((a : A) × (r ≡ ok a)) ⊎ ((f : Failure) × (r ≡ throw f))
Result-cases (ok a) = inl (a, refl)
Result-cases (throw f) = inr (f, refl)

pub Reading-cases :
    {A : Type 0} (r : Reading A)
    → ((a : A) × (r ≡ found a)) ⊎ ((f : Failure) × ((r ≡ invalid f) ⊎ (r ≡ broken f)))
Reading-cases (found a) = inl (a, refl)
Reading-cases (invalid f) = inr (f, inl refl)
Reading-cases (broken f) = inr (f, inr refl)

-- What holds of the value, where there is one.
abbrev pub Holds {κ} : {A : Type 0} → (A → Type κ) → Result A → Type κ
Holds Q (ok a) = Q a
Holds Q (throw f) = Unit

module _ {κ} {B : Type 0} (Q : B → Type κ) where
  pub Holds-bind :
      {A : Type 0} (r : Result A) (k : A → Result B)
      → ((a : A) → r ≡ ok a → Holds Q (k a))
      → Holds Q (r >>= k)
  Holds-bind (ok a) k h = h a refl
  Holds-bind (throw f) k h = tt

  pub Holds-require :
      (b : Bool) (f : Failure) (r : Result B) → (b ≡ true → Holds Q r) → Holds Q (require b f >> r)
  Holds-require true f r h = h refl
  Holds-require false f r h = tt

  pub Holds-present :
      {A : Type 0} (o : Option A) (f : Failure) (k : A → Result B)
      → ((a : A) → o ≡ some a → Holds Q (k a))
      → Holds Q (present o f >>= k)
  Holds-present (some a) f k h = h a refl
  Holds-present none f k h = tt

  pub Holds-if :
      (b : Bool) (r s : Result B)
      → (b ≡ true → Holds Q r)
      → (b ≡ false → Holds Q s)
      → Holds Q (if b then r else s)
  Holds-if true r s h k = h refl
  Holds-if false r s h k = k refl
