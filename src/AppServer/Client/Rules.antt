-- ===== src/AppServer/Client/Rules.antt =====
-- How a relation between a client before and after a step is proved: from the handlers that the
-- messages and the answers of the server lead to.
use af_companion.Prelude.{
  String, ◌≡◌, refl, ◌⊎◌, inl, inr, true, false, Option, none, some, List, if◌then◌else◌, ◌==◌,
  Bool-cases,
}
use af_companion.Prelude.StringMap
use af_companion.Json.{Json}
use af_companion.AppServer.Types.{AppServerEvent, unknown_notification, TurnCompletion}
use af_companion.AppServer.Errors.{Failure, Result, ok, throw}
use af_companion.AppServer.Wire.{
  require_record, parse_thread_started_notification, parse_turn_started_notification,
  parse_turn_completed_notification,
}
use af_companion.AppServer.Client.State.{Client, Exec, lift, ◌>>=◌, emit_event, fail}
use af_companion.AppServer.Client.Turns.{conflicting, on_thread_started, on_turn_started}
use af_companion.AppServer.Client.Notifications.{
  on_turn_completed, on_agent_message_delta, on_error, handle_notification,
}
use af_companion.AppServer.Client.Messages.{
  handle_response, handle_server_request, dispatch, handle_fields, handle_message, caught,
  read_message,
}
use af_companion.AppServer.Client.TurnCalls.{
  start_turn_answered, start_turn_after, start_turn_checked, other_observed, started_turn,
  start_turn_accepted, start_turn_finally,
}

pub record HandlerRules (R : Client → Client → Type 0) : Type 0 where
  pub same : (c : Client) → R c c
  pub emitted : (e : AppServerEvent) (c : Client) → R c (emit_event e c)
  pub message_delta : (p : Json) (c : Client) → R c (on_agent_message_delta p c).1
  pub server_error : (p : Json) (c : Client) → R c (on_error p c).1
  pub thread_started : (id : String) (c : Client) → R c (on_thread_started id c).1
  pub turn_started : (ids : String × String) (c : Client) → R c (on_turn_started ids c).1
  pub turn_completed : (t : TurnCompletion) (c : Client) → R c (on_turn_completed t c).1
  pub response :
      (raw : Json) (id : String) (message : List (String × Json)) (c : Client)
      → R c (handle_response raw id message c)
  pub server_request :
      (raw : Json) (method : String) (c : Client) → R c (handle_server_request raw method c)
  pub failed : (f : Failure) (c d : Client) → R c d → R c (fail f (record d { reading = false }))

module _ (R : Client → Client → Type 0) (rules : HandlerRules R) where
  open rules use {
    same, emitted, message_delta, server_error, thread_started, turn_started, turn_completed,
    response, server_request, failed,
  }

  parsed-rule :
      {A : Type 0} (r : Result A) (k : A → Exec (Unit {0})) (c : Client)
      → ((a : A) → R c (k a c).1)
      → R c ((lift r >>= k) c).1
  parsed-rule (ok a) k c h = h a
  parsed-rule (throw f) k c h = same c

  handle_notification-rule :
      (method : String) (params : Json) (c : Client) → R c (handle_notification method params c).1
  unfolding handle_notification
  handle_notification-rule method params c = elim (Bool-cases (method == "thread/started")) [
    | inl e ↦ rw e (
        parsed-rule (parse_thread_started_notification params) on_thread_started c
          (λ id. thread_started id c))
    | inr e₁ ↦ rw e₁ (elim (Bool-cases (method == "turn/started")) [
      | inl e ↦ rw e (
          parsed-rule (parse_turn_started_notification params) on_turn_started c
            (λ ids. turn_started ids c))
      | inr e₂ ↦ rw e₂ (elim (Bool-cases (method == "turn/completed")) [
        | inl e ↦ rw e (
            parsed-rule (parse_turn_completed_notification params) on_turn_completed c
              (λ t. turn_completed t c))
        | inr e₃ ↦ rw e₃ (elim (Bool-cases (method == "item/agentMessage/delta")) [
          | inl e ↦ rw e (message_delta params c)
          | inr e₄ ↦ rw e₄ (elim (Bool-cases (method == "error")) [
            | inl e ↦ rw e (server_error params c)
            | inr e ↦ rw e (emitted (unknown_notification method params) c)
          ])
        ])
      ])
    ])
  ]

  dispatch-rule :
      (method id : Option String) (message : List (String × Json)) (c : Client)
      → R c (dispatch method id message c).1
  unfolding dispatch
  dispatch-rule (some method) (some id) message c = server_request _ method c
  dispatch-rule (some method) none message c = handle_notification-rule method _ c
  dispatch-rule none (some id) message c = response _ id message c
  dispatch-rule none none message c = same c

  handle_fields-rule : (r : Result (List (String × Json))) (c : Client) → R c (handle_fields r c).1
  handle_fields-rule (ok message) c = dispatch-rule _ _ message c
  handle_fields-rule (throw f) c = same c

  caught-rule : (c : Client) (r : Result (Unit {0}) × Client) → R c r.1 → R c (caught r)
  caught-rule c (ok u, d) h = h
  caught-rule c (throw f, d) h = failed f c d h

  -- A message keeps a relation that its handlers keep, also where they throw.
  pub read_message-rule : (value : Json) (c : Client) → R c (read_message value c)
  unfolding read_message handle_message
  read_message-rule value c =
      elim c.reading as (λ b. R c (if b then caught (handle_message value c) else c)) [
        | true ↦
            caught-rule c (handle_message value c)
              (handle_fields-rule (require_record value "App Server message") c)
        | false ↦ same c
      ]

checked-cases :
    (seen conflict : Option String) (id t : String) (c : Client)
    → ((f : Failure) × ((start_turn_checked seen conflict id t c).1 ≡ fail f c))
      ⊎ ((conflict ≡ none)
          × ((start_turn_checked seen conflict id t c).1
              ≡ start_turn_finally id (start_turn_accepted id t c)))
unfolding start_turn_checked
checked-cases (some s) conflict id t c = inl (_, refl)
checked-cases none (some o) id t c = inl (_, refl)
checked-cases none none id t c = inr (refl, refl)

after-cases :
    (r : Result String) (id : String) (c : Client)
    → ((start_turn_after r id c).1 ≡ start_turn_finally id c)
      ⊎ (((f : Failure) × ((start_turn_after r id c).1 ≡ fail f c))
          ⊎ ((t : String) × (conflicting (StringMap.get id c.thread_states) t ≡ none)
              × ((start_turn_after r id c).1 ≡ start_turn_finally id (start_turn_accepted id t c))))
unfolding start_turn_after
after-cases (throw f) id c = inl refl
after-cases (ok t) id c =
    inr
      (elim (checked-cases (other_observed (StringMap.get id c.starting) t)
        (conflicting (StringMap.get id c.thread_states) t) id t c) [
          | inl failed ↦ inl failed
          | inr (free, accepted) ↦ inr (t, free, accepted)
        ])

module _ (R : Client → Client → Type 0) where
  -- The answer to turn/start is malformed, or fails the client, or starts the turn; where it does not
  -- fail the client, the entry of `starting` is deleted last.
  pub start_turn_answered-rule :
      (id : String) (result : Json) (c : Client)
      → R c (start_turn_finally id c)
      → ((f : Failure) → R c (fail f c))
      → ((t : String)
          → conflicting (StringMap.get id c.thread_states) t ≡ none
          → R c (start_turn_finally id (start_turn_accepted id t c)))
      → R c (start_turn_answered id result c).1
  unfolding start_turn_answered
  start_turn_answered-rule id result c unchanged failed accepted =
      elim (after-cases (started_turn result) id c) [
        | inl e ↦ rw e unchanged
        | inr (inl (f, e)) ↦ rw e (failed f)
        | inr (inr (t, free, e)) ↦ rw e (accepted t free)
      ]
