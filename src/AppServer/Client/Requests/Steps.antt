-- ===== src/AppServer/Client/Requests/Steps.antt =====
-- The ids of requests after any steps.
use af_companion.Prelude.{
  ◌+◌, String, ◌≡◌, refl, inl, inr, false, none, List, [], ◌∷◌, arith, Bool-cases,
}
use af_companion.Prelude.StringMap.{get}
use af_companion.AppServer.Wire.{parse_thread_id}
use af_companion.AppServer.Client.State.{Client, new_client, request_id, fail}
use af_companion.AppServer.Client.Turns.{mark_thread_materialized}
use af_companion.AppServer.Client.Rules.{HandlerRules, read_message-rule, start_turn_answered-rule}
use af_companion.AppServer.Client.Calls
use af_companion.AppServer.Client.TurnCalls
use af_companion.AppServer.Client.Actions.{Action, step, steps}
use af_companion.AppServer.Client.Actions
use af_companion.AppServer.Client.Requests.{
  request_id-fresh, SameRequests, AreNumbered, KeepsNumbers, keep_same, keep_either, keep_or_none,
  keep_or_removed,
}
use af_companion.AppServer.Client.Requests.Methods.{
  fail-requests, handle_server_request-requests, on_turn_started-requests,
  on_thread_started-requests, on_error-requests, on_agent_message_delta-requests,
  emit_event-requests, start_turn-requests, steer_turn-requests, interrupt_turn-requests,
  start_thread-requests, resume_thread-requests, initialize_connected-requests,
  on_turn_completed-requests, start_turn_accepted-requests, start_turn_finally-requests,
  handle_response-requests, send_failed-requests, close-requests, handle_transport_closed-requests,
}

request_rules : HandlerRules KeepsNumbers
unfolding KeepsNumbers
request_rules = record {
  same = λ c prefix h. h;
  emitted = λ e c. keep_same (emit_event-requests c e);
  message_delta = λ p c. keep_same (on_agent_message_delta-requests c p);
  server_error = λ p c. keep_same (on_error-requests c p);
  thread_started = λ id c. keep_same (on_thread_started-requests c id);
  turn_started = λ ids c. keep_same (on_turn_started-requests c ids.0 ids.1);
  turn_completed = λ t c. keep_same (on_turn_completed-requests t c);
  response = λ raw id message c. keep_or_removed id (handle_response-requests raw id message c);
  server_request = λ raw method c. keep_same (handle_server_request-requests c raw method);
  failed = λ f c d r prefix h.
      keep_or_none (fail-requests f (record d { reading = false })) prefix
        (let k = r prefix h in record { prefix_kept = k.prefix_kept; numbered = k.numbered });
}

pub close_done-requests : (c : Client) → SameRequests c (TurnCalls.close_done c)
unfolding TurnCalls.close_done
close_done-requests c = ground arith

-- the steps that neither send nor settle a request
unfoldable pub IsQuiet : Action → Type 0
IsQuiet Actions.initialize = Unit
IsQuiet Actions.initialize_sent = Unit
IsQuiet (Actions.initialize_answered r) = Unit
IsQuiet (Actions.start_thread_answered r) = Unit
IsQuiet (Actions.resume_thread_answered id r) = Unit
IsQuiet (Actions.materialize_completed id t) = Unit
IsQuiet Actions.incoming_ended = Unit
IsQuiet _ = ⊥

pub quiet-requests : (a : Action) (c : Client) → IsQuiet a → SameRequests c (step a c)
unfolding step IsQuiet Calls.initialize Calls.initialize_sent Calls.initialize_answered
    Calls.start_thread_answered Calls.resume_thread_answered Calls.materialize_completed
    parse_thread_id Calls.expect_thread mark_thread_materialized
quiet-requests (Actions.message v) c h = elim h [ ]
quiet-requests Actions.initialize c h = elim (Bool-cases c.initialize_started) [
  | inl e ↦ ground arith
  | inr e ↦ ground arith
]
quiet-requests _ c h = ground arith

-- Every step keeps the requests of a client numbered.
step-AreNumbered :
    (prefix : String) (a : Action) (c : Client)
    → AreNumbered prefix c
    → AreNumbered prefix (step a c)
unfolding step KeepsNumbers Calls.initialize_failed fail
step-AreNumbered prefix (Actions.message v) c h =
    read_message-rule KeepsNumbers request_rules v c prefix h
step-AreNumbered prefix (Actions.initialize_connected n t v) c h =
    keep_either "initialize" (initialize_connected-requests n t v c) prefix h
step-AreNumbered prefix (Actions.initialize_failed f) c h =
    keep_or_none (fail-requests f c) prefix h
step-AreNumbered prefix (Actions.start_thread o) c h =
    keep_either "thread/start" (start_thread-requests o c) prefix h
step-AreNumbered prefix (Actions.resume_thread id) c h =
    keep_either "thread/resume" (resume_thread-requests id c) prefix h
step-AreNumbered prefix (Actions.start_turn id inputs) c h =
    keep_either "turn/start" (start_turn-requests id inputs c) prefix h
step-AreNumbered prefix (Actions.steer_turn id t inputs) c h =
    keep_either "turn/steer" (steer_turn-requests id t inputs c) prefix h
step-AreNumbered prefix (Actions.interrupt_turn id t) c h =
    keep_either "turn/interrupt" (interrupt_turn-requests id t c) prefix h
step-AreNumbered prefix (Actions.start_turn_answered id r) c h =
    start_turn_answered-rule KeepsNumbers id r c (keep_same (start_turn_finally-requests id c))
      (λ f. keep_or_none (fail-requests f c))
      (λ t free. keep_same (start_turn_accepted-requests id t c)) prefix h
step-AreNumbered prefix (Actions.start_turn_rejected id) c h =
    keep_same (start_turn_finally-requests id c) prefix h
step-AreNumbered prefix (Actions.send_failed id f) c h =
    keep_or_removed id (send_failed-requests id f c) prefix h
step-AreNumbered prefix (Actions.transport_closed x y) c h =
    keep_or_none (handle_transport_closed-requests x y c) prefix h
step-AreNumbered prefix Actions.close c h = keep_or_none (close-requests c) prefix h
step-AreNumbered prefix Actions.close_done c h = keep_same (close_done-requests c) prefix h
step-AreNumbered prefix a c h = keep_same (quiet-requests a c (unfold IsQuiet in tt)) prefix h

pub steps-AreNumbered :
    (prefix : String) (actions : List Action) (c : Client)
    → AreNumbered prefix c
    → AreNumbered prefix (steps actions c)
unfolding steps
steps-AreNumbered prefix [] c h = h
steps-AreNumbered prefix (a ∷ actions) c h =
    steps-AreNumbered prefix actions (step a c) (step-AreNumbered prefix a c h)

-- After any steps of a new client, the id of the next request is not pending, so that no request
-- takes the place of another.
pub next_request-fresh :
    (prefix : String) (actions : List Action)
    → get
        (request_id prefix ((steps actions (new_client prefix)).next_request + 1))
        (steps actions (new_client prefix)).pending
      ≡ none
next_request-fresh prefix actions =
    request_id-fresh prefix _ _
      (steps-AreNumbered prefix actions (new_client prefix)
        (record { prefix_kept = refl; numbered = tt })).numbered
