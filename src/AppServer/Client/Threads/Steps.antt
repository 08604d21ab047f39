-- ===== src/AppServer/Client/Threads/Steps.antt =====
-- The states of the threads after a step.
use af_companion.Prelude.{
  String, ◌≡◌, ◌≢◌, refl, ◌⊎◌, inl, inr, Bool, true, false, Option, some, List, arith, Bool-cases,
}
use af_companion.Prelude.StringMap.{get}
use af_companion.Json.{Json}
use af_companion.AppServer.Types.{AppServerEvent, TurnCompletion}
use af_companion.AppServer.Errors.{Failure, Result-cases}
use af_companion.AppServer.Wire.{parse_thread_id}
use af_companion.AppServer.Client.State.{Client, turn_key, emit_event, fail}
use af_companion.AppServer.Client.Turns.{materialized_of, active_turn}
use af_companion.AppServer.Client.Notifications.{on_agent_message_delta, on_error}
use af_companion.AppServer.Client.Messages.{handle_response, handle_server_request}
use af_companion.AppServer.Client.Rules.{HandlerRules, read_message-rule, start_turn_answered-rule}
use af_companion.AppServer.Client.Calls
use af_companion.AppServer.Client.TurnCalls
use af_companion.AppServer.Client.Actions.{Action, step, steps}
use af_companion.AppServer.Client.Actions
use af_companion.AppServer.Client.Threads.{
  state_of, SameThreads, fail-SameThreads, KeepsThreads, KeepsThreads-same,
  on_thread_started-KeepsThreads, on_turn_started-KeepsThreads, on_turn_completed-KeepsThreads,
  mark_thread_materialized-KeepsThreads, start_turn_accepted-KeepsThreads,
}

emit_event-SameThreads : (e : AppServerEvent) (c : Client) → SameThreads c (emit_event e c)
unfolding emit_event
emit_event-SameThreads e c = refl

on_agent_message_delta-SameThreads :
    (p : Json) (c : Client) → SameThreads c (on_agent_message_delta p c).1
unfolding on_agent_message_delta
on_agent_message_delta-SameThreads p c = ground arith

on_error-SameThreads : (p : Json) (c : Client) → SameThreads c (on_error p c).1
unfolding on_error
on_error-SameThreads p c = ground arith

handle_response-SameThreads :
    (raw : Json) (id : String) (message : List (String × Json)) (c : Client)
    → SameThreads c (handle_response raw id message c)
unfolding handle_response
handle_response-SameThreads raw id message c = ground arith

handle_server_request-SameThreads :
    (raw : Json) (method : String) (c : Client) → SameThreads c (handle_server_request raw method c)
unfolding handle_server_request
handle_server_request-SameThreads raw method c = ground arith

KeepsThreads-then :
    {c d e : Client}
    → KeepsThreads c d
    → SameThreads d e
    → e.terminal_turns ≡ d.terminal_turns
    → KeepsThreads c e
KeepsThreads-then {c} {d} {e} r s t = record {
  materialized = λ id h. rw s (r.materialized id h);
  active = λ id u h. rw (s, t) (r.active id u h);
}

fail-turns : (f : Failure) (c : Client) → (fail f c).terminal_turns ≡ c.terminal_turns
unfolding fail
fail-turns f c = ground arith

thread_rules : HandlerRules KeepsThreads
thread_rules = record {
  same = λ c. KeepsThreads-same refl;
  emitted = λ e c. KeepsThreads-same (emit_event-SameThreads e c);
  message_delta = λ p c. KeepsThreads-same (on_agent_message_delta-SameThreads p c);
  server_error = λ p c. KeepsThreads-same (on_error-SameThreads p c);
  thread_started = on_thread_started-KeepsThreads;
  turn_started = λ ids c. on_turn_started-KeepsThreads ids.0 ids.1 c;
  turn_completed = on_turn_completed-KeepsThreads;
  response = λ raw id message c. KeepsThreads-same (handle_response-SameThreads raw id message c);
  server_request =
      λ raw method c. KeepsThreads-same (handle_server_request-SameThreads raw method c);
  failed = λ f c d r.
      KeepsThreads-then r (fail-SameThreads f (record d { reading = false }))
        (fail-turns f (record d { reading = false }));
}

-- the steps that leave the states of the threads alone
IsNeutral : Action → Type 0
IsNeutral (Actions.message v) = ⊥
IsNeutral (Actions.transport_closed x y) = ⊥
IsNeutral (Actions.start_thread_answered r) = ⊥
IsNeutral (Actions.resume_thread_answered id r) = ⊥
IsNeutral (Actions.materialize_completed id t) = ⊥
IsNeutral (Actions.start_turn_answered id r) = ⊥
IsNeutral _ = Unit

neutral-SameThreads : (a : Action) (c : Client) → IsNeutral a → SameThreads c (step a c)
unfolding step IsNeutral Calls.initialize Calls.initialize_sent Calls.initialize_connected
    Calls.initialize_answered Calls.initialize_failed Calls.start_thread Calls.resume_thread
    TurnCalls.start_turn TurnCalls.start_turn_finally TurnCalls.steer_turn TurnCalls.interrupt_turn
    TurnCalls.send_failed TurnCalls.close TurnCalls.close_done
neutral-SameThreads (Actions.message v) c h = elim h [ ]
neutral-SameThreads _ c h = ground arith

start_thread_answered-KeepsThreads :
    (r : Json) (c : Client) → KeepsThreads c (Calls.start_thread_answered r c).1
unfolding Calls.start_thread_answered
start_thread_answered-KeepsThreads r c =
    elim (Result-cases (parse_thread_id r "thread/start result")) [
      | inl (id, e) ↦ rw e (mark_thread_materialized-KeepsThreads id false c)
      | inr (f, e) ↦ rw e (KeepsThreads-same refl)
    ]

resume_thread_answered-KeepsThreads :
    (id : String) (r : Json) (c : Client) → KeepsThreads c (Calls.resume_thread_answered id r c).1
unfolding Calls.resume_thread_answered
resume_thread_answered-KeepsThreads id r c =
    elim (Result-cases (parse_thread_id r "thread/resume result")) [
      | inl (resumed, e) ↦ rw e (elim (Result-cases (Calls.expect_thread id resumed)) [
        | inl (same, e') ↦ rw e' (mark_thread_materialized-KeepsThreads id true c)
        | inr (f, e') ↦ rw e' (KeepsThreads-same refl)
      ])
      | inr (f, e) ↦ rw e (KeepsThreads-same refl)
    ]

materialize_completed-KeepsThreads :
    (id : String) (t : TurnCompletion) (c : Client)
    → KeepsThreads c (Calls.materialize_completed id t c).1
unfolding Calls.materialize_completed
materialize_completed-KeepsThreads id t c = elim (Bool-cases (Calls.is_completed t.status)) [
  | inl e ↦ rw e (mark_thread_materialized-KeepsThreads id true c)
  | inr e ↦ rw e (KeepsThreads-same refl)
]

step-KeepsThreads :
    (a : Action) (c : Client)
    → ((clean : Bool) (reason : Option String) → a ≢ Actions.transport_closed clean reason)
    → KeepsThreads c (step a c)
unfolding step
step-KeepsThreads (Actions.transport_closed x y) c h = absurd (h x y refl)
step-KeepsThreads (Actions.message v) c h = read_message-rule KeepsThreads thread_rules v c
step-KeepsThreads (Actions.start_turn_answered id r) c h =
    start_turn_answered-rule KeepsThreads id r c
      (KeepsThreads-same (unfold TurnCalls.start_turn_finally in refl))
      (λ f. KeepsThreads-same (fail-SameThreads f c))
      (λ t free. start_turn_accepted-KeepsThreads id t c free)
step-KeepsThreads (Actions.start_thread_answered r) c h = start_thread_answered-KeepsThreads r c
step-KeepsThreads (Actions.resume_thread_answered id r) c h =
    resume_thread_answered-KeepsThreads id r c
step-KeepsThreads (Actions.materialize_completed id t) c h =
    materialize_completed-KeepsThreads id t c
step-KeepsThreads a c h = KeepsThreads-same (neutral-SameThreads a c (unfold IsNeutral in tt))

-- Whatever happens to a client but the closing of its transport, a thread that is materialized
-- stays materialized.
pub step-materialized :
    (a : Action) (c : Client) (id : String)
    → ((clean : Bool) (reason : Option String) → a ≢ Actions.transport_closed clean reason)
    → materialized_of (state_of id c) ≡ true
    → materialized_of (state_of id (step a c)) ≡ true
step-materialized a c id h m = (step-KeepsThreads a c h).materialized id m

-- Whatever happens to a client but the closing of its transport, the active turn of a thread stays
-- its active turn, or its own completion is in the record of ended turns.
pub step-active :
    (a : Action) (c : Client) (id t : String)
    → ((clean : Bool) (reason : Option String) → a ≢ Actions.transport_closed clean reason)
    → active_turn (state_of id c) ≡ some t
    → (active_turn (state_of id (step a c)) ≡ some t)
      ⊎ ((r : TurnCompletion) × (get (turn_key id t) (step a c).terminal_turns ≡ some r)
          × (r.thread_id ≡ id)
          × (r.turn_id ≡ t))
step-active a c id t h m = (step-KeepsThreads a c h).active id t m
