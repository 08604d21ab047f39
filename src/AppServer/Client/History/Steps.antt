-- ===== src/AppServer/Client/History/Steps.antt =====
-- The record of ended turns after any steps.
use af_companion.Prelude.{
  ◌≤◌, String, ◌≡◌, ◌≢◌, refl, ◌⊎◌, inl, inr, true, false, some, List, [], ◌∷◌, length, arith,
}
use af_companion.Prelude.StringMap.{get, contains}
use af_companion.Json.{Json}
use af_companion.AppServer.Types.{TurnCompletion, AppServerEvent}
use af_companion.AppServer.Wire.{parse_thread_id}
use af_companion.AppServer.Client.State.{Client, emit_event, handle_transport_closed}
use af_companion.AppServer.Client.Turns.{max_detailed_terminal_turns, mark_thread_materialized}
use af_companion.AppServer.Client.Messages.{handle_response, handle_server_request}
use af_companion.AppServer.Client.Rules.{HandlerRules, read_message-rule, start_turn_answered-rule}
use af_companion.AppServer.Client.Calls
use af_companion.AppServer.Client.TurnCalls
use af_companion.AppServer.Client.Actions.{Action, step, steps}
use af_companion.AppServer.Client.Actions
use af_companion.AppServer.Client.History.{
  SameHistory, fail-SameHistory, on_thread_started-SameHistory, on_turn_started-SameHistory,
  on_agent_message_delta-SameHistory, on_error-SameHistory,
}
use af_companion.AppServer.Client.History.Completion.{
  Remembers, Remembers-same, Remembers-then, on_turn_completed-Remembers,
}

emit_event-SameHistory : (e : AppServerEvent) (c : Client) → SameHistory c (emit_event e c)
unfolding emit_event
emit_event-SameHistory e c = ground arith

handle_response-SameHistory :
    (raw : Json) (id : String) (message : List (String × Json)) (c : Client)
    → SameHistory c (handle_response raw id message c)
unfolding handle_response
handle_response-SameHistory raw id message c = ground arith

handle_server_request-SameHistory :
    (raw : Json) (method : String) (c : Client) → SameHistory c (handle_server_request raw method c)
unfolding handle_server_request
handle_server_request-SameHistory raw method c = ground arith

history_rules : HandlerRules Remembers
history_rules = record {
  same = λ c. Remembers-same (record { turns = refl; gaps = refl });
  emitted = λ e c. Remembers-same (emit_event-SameHistory e c);
  message_delta = λ p c. Remembers-same (on_agent_message_delta-SameHistory p c);
  server_error = λ p c. Remembers-same (on_error-SameHistory p c);
  thread_started = λ id c. Remembers-same (on_thread_started-SameHistory id c);
  turn_started = λ ids c. Remembers-same (on_turn_started-SameHistory ids.0 ids.1 c);
  turn_completed = on_turn_completed-Remembers;
  response = λ raw id message c. Remembers-same (handle_response-SameHistory raw id message c);
  server_request = λ raw method c. Remembers-same (handle_server_request-SameHistory raw method c);
  failed = λ f c d r. Remembers-then r (
      let s = fail-SameHistory f (record d { reading = false }) in
      record { turns = s.turns; gaps = s.gaps });
}

calls-SameHistory :
    (a : Action) (c : Client) → ((v : Json) → a ≢ Actions.message v) → SameHistory c (step a c)
unfolding step Calls.initialize Calls.initialize_sent Calls.initialize_connected
    Calls.initialize_answered Calls.initialize_failed Calls.start_thread Calls.start_thread_answered
    Calls.resume_thread Calls.resume_thread_answered Calls.materialize_completed
    TurnCalls.start_turn TurnCalls.start_turn_finally TurnCalls.start_turn_accepted
    TurnCalls.steer_turn TurnCalls.interrupt_turn TurnCalls.send_failed TurnCalls.close
    TurnCalls.close_done handle_transport_closed parse_thread_id mark_thread_materialized
    Calls.expect_thread
calls-SameHistory (Actions.message v) c other = absurd (other v refl)
calls-SameHistory (Actions.start_turn_answered id r) c other =
    start_turn_answered-rule SameHistory id r c (ground arith)
      (λ f. ground (arith, fail-SameHistory f c)) (λ t free. ground arith)
calls-SameHistory _ c other = ground arith

step-Remembers : (a : Action) (c : Client) → Remembers c (step a c)
unfolding step
step-Remembers (Actions.message v) c = read_message-rule Remembers history_rules v c
step-Remembers a c = Remembers-same (calls-SameHistory a c (λ v e. cc))

Remembers-trans : {c d e : Client} → Remembers c d → Remembers d e → Remembers c e
Remembers-trans {c} {d} {e} r s = record {
  bounded = λ h. s.bounded (r.bounded h);
  kept = λ key t h. elim (r.kept key t h) [
    | inl there ↦ s.kept key t there
    | inr gap ↦ inr (s.gaps t.thread_id gap)
  ];
  gaps = λ id h. s.gaps id (r.gaps id h);
}

steps-Remembers : (actions : List Action) (c : Client) → Remembers c (steps actions c)
unfolding steps
steps-Remembers [] c = Remembers-same (record { turns = refl; gaps = refl })
steps-Remembers (a ∷ actions) c =
    Remembers-trans (step-Remembers a c) (steps-Remembers actions (step a c))

-- After any steps in any order, a client with at most 64 ended turns in its record still has at
-- most 64.
pub steps-bounded :
    (actions : List Action) (c : Client)
    → length c.terminal_turns ≤ max_detailed_terminal_turns
    → length (steps actions c).terminal_turns ≤ max_detailed_terminal_turns
steps-bounded actions c h = (steps-Remembers actions c).bounded h

-- After any steps in any order, an ended turn that was in the record is still there as it was, or
-- its thread is in the set of threads whose history has gaps.
pub steps-kept :
    (actions : List Action) (c : Client) (key : String) (t : TurnCompletion)
    → get key c.terminal_turns ≡ some t
    → (get key (steps actions c).terminal_turns ≡ some t)
      ⊎ (contains t.thread_id (steps actions c).truncated ≡ true)
steps-kept actions c key t h = (steps-Remembers actions c).kept key t h
