-- ===== src/AppServer/Client/Requests.antt =====
-- The ids of requests, and the numbers that pending requests have.
pub mod Methods
pub mod Steps
pub mod Guard
use text.Mathlib.TextLemmas.{append_cancel_left}
use af_companion.Prelude.{
  ℕ, ◌+◌, ◌≤◌, String, ◌≡◌, refl, sym, ◌∙◌, ◌⊎◌, inl, inr, Bool, true, false, Option, none, List,
  [], ◌∷◌, All, arith, eq_iff, Bool-cases, if◌then◌else◌, ◌==◌,
}
use af_companion.Prelude.StringMap.{get, put, delete}
use af_companion.Prelude.Decimal.{decimal, decimal-injective}
use af_companion.Json.{Json}
use af_companion.AppServer.Types.{
  AppServerEvent, StableUserInput, StartThreadOptions, TurnCompletion,
}
use af_companion.AppServer.Errors.{Failure}
use af_companion.AppServer.Wire.{parse_thread_id}
use af_companion.AppServer.Client.State.{
  Client, new_client, request_id, emit_event, fail, handle_transport_closed,
}
use af_companion.AppServer.Client.Turns.{
  mark_thread_materialized, observe_in_flight_turn, on_thread_started, on_turn_started,
}
use af_companion.AppServer.Client.Notifications.{
  on_turn_completed, on_agent_message_delta, on_error,
}
use af_companion.AppServer.Client.Messages.{handle_response, handle_server_request}
use af_companion.AppServer.Client.Rules.{HandlerRules, read_message-rule, start_turn_answered-rule}
use af_companion.AppServer.Client.Calls
use af_companion.AppServer.Client.TurnCalls
use af_companion.AppServer.Client.Actions.{Action, step, steps}
use af_companion.AppServer.Client.Actions

-- The ids of the pending requests are those of numbers that were given out.
abbrev pub IsNumbered : String → ℕ → List (String × String) → Type 0
IsNumbered prefix next =
    All (λ (p : String × String). (n : ℕ) × (n ≤ next) × (p.0 ≡ request_id prefix n))

IsNumbered-mono :
    (prefix : String) (m n : ℕ) (pending : List (String × String))
    → m ≤ n
    → IsNumbered prefix m pending
    → IsNumbered prefix n pending
IsNumbered-mono prefix m n [] h p = tt
IsNumbered-mono prefix m n (e ∷ pending) h ((k, le, id), p) =
    ((k, omega arith, id), IsNumbered-mono prefix m n pending h p)

IsNumbered-put :
    (prefix : String) (n : ℕ) (method : String) (pending : List (String × String))
    → IsNumbered prefix n pending
    → IsNumbered prefix (n + 1) (put (request_id prefix (n + 1)) method pending)
unfolding put
IsNumbered-put prefix n method [] p = ((n + 1, omega arith, refl), tt)
IsNumbered-put prefix n method ((id, m) ∷ pending) ((k, le, e), p) =
    elim (id == request_id prefix (n + 1))
      as (λ b. IsNumbered prefix (n + 1) (
        if b
        then (id, method) ∷ pending
        else (id, m) ∷ put (request_id prefix (n + 1)) method pending)) [
          | true ↦ ((k, omega arith, e), IsNumbered-mono prefix n (n + 1) pending (omega arith) p)
          | false ↦ ((k, omega arith, e), IsNumbered-put prefix n method pending p)
        ]

IsNumbered-delete :
    (prefix : String) (n : ℕ) (id : String) (pending : List (String × String))
    → IsNumbered prefix n pending
    → IsNumbered prefix n (delete id pending)
unfolding delete
IsNumbered-delete prefix n id [] p = tt
IsNumbered-delete prefix n id ((j, m) ∷ pending) (e, p) =
    elim (j == id)
      as (λ b. IsNumbered prefix n (if b then delete id pending else (j, m) ∷ delete id pending)) [
        | true ↦ IsNumbered-delete prefix n id pending p
        | false ↦ (e, IsNumbered-delete prefix n id pending p)
      ]

request_id-injective :
    (prefix : String) (m n : ℕ) → request_id prefix m ≡ request_id prefix n → m ≡ n
unfolding request_id
request_id-injective prefix m n e =
    decimal-injective m n
      (append_cancel_left ":" (decimal m) (decimal n) (append_cancel_left prefix _ _ e))

-- The next id is not pending.
pub request_id-fresh :
    (prefix : String) (n : ℕ) (pending : List (String × String))
    → IsNumbered prefix n pending
    → get (request_id prefix (n + 1)) pending ≡ none
unfolding get
request_id-fresh prefix n [] p = refl
request_id-fresh prefix n ((id, m) ∷ pending) ((k, le, e), p) =
    elim (Bool-cases (id == request_id prefix (n + 1))) [
      | inl same ↦
          absurd
            (omega (arith, request_id-injective prefix k (n + 1) (sym e ∙ (eq_iff _ _).0 same)))
      | inr other ↦ rw other (request_id-fresh prefix n pending p)
    ]

-- How a step changes the requests: not at all, by one more, by one less, or to none.
pub record SameRequests (c d : Client) : Type 0 where
  pub prefix : d.request_prefix ≡ c.request_prefix
  pub next : d.next_request ≡ c.next_request
  pub pending : d.pending ≡ c.pending

pub record AddedRequest (method : String) (c d : Client) : Type 0 where
  pub prefix : d.request_prefix ≡ c.request_prefix
  pub next : d.next_request ≡ c.next_request + 1
  pub pending : d.pending ≡ put (request_id c.request_prefix (c.next_request + 1)) method c.pending

pub record RemovedRequest (id : String) (c d : Client) : Type 0 where
  pub prefix : d.request_prefix ≡ c.request_prefix
  pub next : d.next_request ≡ c.next_request
  pub pending : d.pending ≡ delete id c.pending

pub record NoRequests (c d : Client) : Type 0 where
  pub prefix : d.request_prefix ≡ c.request_prefix
  pub pending : d.pending ≡ []

-- The requests of a client are numbered, under the prefix that it was made with.
pub record AreNumbered (prefix : String) (c : Client) : Type 0 where
  pub prefix_kept : c.request_prefix ≡ prefix
  pub numbered : IsNumbered prefix c.next_request c.pending

-- A step keeps the numbering, whatever the prefix is.
pub KeepsNumbers : Client → Client → Type 0
KeepsNumbers c d = (prefix : String) → AreNumbered prefix c → AreNumbered prefix d

pub keep_same : {c d : Client} → SameRequests c d → KeepsNumbers c d
unfolding KeepsNumbers
keep_same s prefix h = record {
  prefix_kept = s.prefix ∙ h.prefix_kept;
  numbered = rw (s.next, s.pending) h.numbered;
}

keep_added : {c d : Client} (method : String) → AddedRequest method c d → KeepsNumbers c d
unfolding KeepsNumbers
keep_added method s prefix h = record {
  prefix_kept = s.prefix ∙ h.prefix_kept;
  numbered = rw (s.next, s.pending, h.prefix_kept) (IsNumbered-put prefix _ method _ h.numbered);
}

keep_removed : {c d : Client} (id : String) → RemovedRequest id c d → KeepsNumbers c d
unfolding KeepsNumbers
keep_removed id s prefix h = record {
  prefix_kept = s.prefix ∙ h.prefix_kept;
  numbered = rw (s.next, s.pending) (IsNumbered-delete prefix _ id _ h.numbered);
}

keep_none : {c d : Client} → NoRequests c d → KeepsNumbers c d
unfolding KeepsNumbers
keep_none s prefix h = record { prefix_kept = s.prefix ∙ h.prefix_kept; numbered = rw s.pending tt }

pub keep_either :
    {c d : Client} (method : String) → SameRequests c d ⊎ AddedRequest method c d → KeepsNumbers c d
keep_either method (inl s) = keep_same s
keep_either method (inr s) = keep_added method s

pub keep_or_none : {c d : Client} → SameRequests c d ⊎ NoRequests c d → KeepsNumbers c d
keep_or_none (inl s) = keep_same s
keep_or_none (inr s) = keep_none s

pub keep_or_removed :
    {c d : Client} (id : String) → SameRequests c d ⊎ RemovedRequest id c d → KeepsNumbers c d
keep_or_removed id (inl s) = keep_same s
keep_or_removed id (inr s) = keep_removed id s
