-- ===== src/AppServer/Errors.antt =====
-- errors.ts: the failures with which a promise of the client is rejected, or a handler throws.
use af_companion.Prelude.{String, ◌≡◌, refl, ◌⊎◌, inl, inr}
use af_companion.Json.{Json}
use af_companion.AppServer.Types.{TurnCompletion}
use Prim.Native.String

-- `transport_error` is an error that the transport raises, by its message.
pub data Failure : Type 0 where
  client_state_error protocol_error transport_closed_error transport_error : String → Failure
  request_error : String → String → String → Json → Failure
  materialization_error : TurnCompletion → Failure

pub data Result {ℓ} (A : Type ℓ) : Type ℓ where
  ok : A → Result A
  throw : Failure → Result A

infixl 5 ◌>>=◌
abbrev pub ◌>>=◌ {ℓ κ} : {A : Type ℓ} {B : Type κ} → Result A → (A → Result B) → Result B
ok a >>= f = f a
throw e >>= f = throw e

infixr 66 ◌+++◌
abbrev pub ◌+++◌ : String → String → String
◌+++◌ = String.◌++◌

-- To split on a result and keep the equation.
pub Result-cases {ℓ} :
    {A : Type ℓ} (r : Result A) → ((a : A) × (r ≡ ok a)) ⊎ ((f : Failure) × (r ≡ throw f))
Result-cases (ok a) = inl (a, refl)
Result-cases (throw f) = inr (f, refl)

-- What a successful chain has passed through.
pub >>=-eq-ok {ℓ κ} :
    {A : Type ℓ} {B : Type κ} (r : Result A) (f : A → Result B) {b : B}
    → (r >>= f) ≡ ok b
    → (a : A) × (r ≡ ok a) × (f a ≡ ok b)
>>=-eq-ok (ok a) f h = (a, refl, h)
>>=-eq-ok (throw e) f h = cc
