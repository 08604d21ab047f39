-- ===== src/AppServer/Tests.antt =====
-- The theorems about the App Server client, applied to concrete clients, messages and streams.
use af_companion.Prelude.{
  String, eq_iff, ℕ, ◌+◌, ◌≤◌, ◌≡◌, ◌≢◌, refl, ◌⊎◌, Bool, true, false, not, Option, none, some,
  List, [], ◌∷◌, ◌++◌, length, get_elem?, arith,
}
use af_companion.Prelude.StringMap.{get, put, contains}
use af_companion.Prelude.Decimal.{decimal}
use af_companion.Json.{Json, null, str, num, obj, end, field}
use af_companion.AppServer.Types.{
  TurnCompletion, ThreadState, completed, initializing, ready, failed, active, local, idle,
  StartThreadOptions, text,
}
use af_companion.AppServer.Errors.{Failure, protocol_error, ok, throw, ◌+++◌}
use af_companion.AppServer.EventHub
use af_companion.AppServer.EventHub.{
  EventHub, Subscriber, Call, open_stream, call_close, call_next, call_return, call_emit, run,
  new_hub,
}
use af_companion.AppServer.EventHub.Invariant.{tickets, upto, run-in_order, run-closed}
use af_companion.AppServer.EventHub.Drain.{nexts, run-nexts}
use af_companion.AppServer.EventHub.Fifo.{values, HasDelivered, heard, stream-HasDelivered}
use af_companion.AppServer.Wire.{
  parse_turn_completed_notification, require_string, require_terminal_status, parse_turn_error,
}
use af_companion.AppServer.Wire.RoundTrip.{
  IsNamed, completion_json, parse_completion_json, parse_turn_completed_notification-IsNamed,
}
use af_companion.AppServer.Client.State.{
  Client, new_client, request, turn_key, request_id, fail, handle_transport_closed,
}
use af_companion.AppServer.Client.Turns.{active_turn, materialized_of, max_detailed_terminal_turns}
use af_companion.AppServer.Client.Notifications.{on_turn_completed}
use af_companion.AppServer.Client.Messages.{handle_response, read_message, handle_message}
use af_companion.AppServer.Client.Calls
use af_companion.AppServer.Client.TurnCalls
use af_companion.AppServer.Client.TurnCalls.{start_turn_answered}
use af_companion.AppServer.Client.Actions
use af_companion.AppServer.Client.Actions.{Action, step, steps}
use af_companion.AppServer.Client.History.Steps.{steps-kept, steps-bounded}
use af_companion.AppServer.Client.Threads.{state_of}
use af_companion.AppServer.Client.Threads.Steps.{step-materialized, step-active}
use af_companion.AppServer.Client.Requests.Steps.{next_request-fresh}
use af_companion.AppServer.Client.Failures.{
  IsDrained, Refuses, read_message-throw, not_ready, ready_after_close,
}
use af_companion.AppServer.Client.Requests.Guard.{step-requests}
use af_companion.AppServer.Client.Responses.{
  turn_key-collision, handle_response-unknown, on_turn_completed_idempotent,
  start_turn_answered_late,
}

abbrev done : TurnCompletion
done = record { thread_id = "a"; turn_id = "1"; status = completed; error = none }

abbrev done_message : Json
done_message =
    obj (field "method" (str "turn/completed") (field "params" (completion_json done) end))

-- a connected client with a running turn on one thread, and an ended one on another
abbrev working : Client
working = record (new_client "af") {
  state = ready;
  connected = true;
  reading = true;
  pending = ("af:1", "turn/start") ∷ [];
  next_request = 1;
  turn_waiters = "a:1" ∷ [];
  terminal_turns = ("b:7", record done { thread_id = "b"; turn_id = "7" }) ∷ [];
  thread_states = ("a", active "1" local true) ∷ ("b", idle true) ∷ [];
}

abbrev two_messages : List Action
two_messages = Actions.message done_message ∷ Actions.message null ∷ []

not_closed :
    (clean : Bool) (r : Option String)
    → Actions.message done_message ≢ Actions.transport_closed clean r
not_closed clean r e = cc

steps-kept_example :
    (get "b:7" (steps two_messages working).terminal_turns
      ≡ some (record done { thread_id = "b"; turn_id = "7" }))
    ⊎ (contains "b" (steps two_messages working).truncated ≡ true)
unfolding get
steps-kept_example =
    steps-kept two_messages working "b:7" (record done { thread_id = "b"; turn_id = "7" }) refl

few_turns : length working.terminal_turns ≤ max_detailed_terminal_turns
few_turns = ground arith

steps-bounded_example :
    length (steps two_messages working).terminal_turns ≤ max_detailed_terminal_turns
steps-bounded_example = steps-bounded two_messages working few_turns

step-active_example :
    (active_turn (state_of "a" (step (Actions.message done_message) working)) ≡ some "1")
    ⊎ ((r : TurnCompletion) × (get
            (turn_key "a" "1")
            (step (Actions.message done_message) working).terminal_turns
          ≡ some r)
        × (r.thread_id ≡ "a")
        × (r.turn_id ≡ "1"))
unfolding get
step-active_example = step-active (Actions.message done_message) working "a" "1" not_closed refl

step-materialized_example :
    materialized_of (state_of "a" (step (Actions.message done_message) working)) ≡ true
unfolding get
step-materialized_example =
    step-materialized (Actions.message done_message) working "a" not_closed refl

next_request-fresh_example :
    get
      (request_id "af"
        ((steps (Actions.initialize ∷ two_messages) (new_client "af")).next_request + 1))
      (steps (Actions.initialize ∷ two_messages) (new_client "af")).pending
    ≡ none
next_request-fresh_example = next_request-fresh "af" (Actions.initialize ∷ two_messages)

-- one promise is made before the first event, another waits for the end
abbrev calls : List (Call ℕ)
calls =
    call_next 0
    ∷ call_emit 3
    ∷ call_emit 4
    ∷ call_next 0
    ∷ call_next 0
    ∷ call_close
    ∷ call_emit 5
    ∷ []

stream-HasDelivered_example :
    HasDelivered
      (length {A = Subscriber ℕ} [])
      (run calls (EventHub.stream new_hub))
      (heard (length {A = Subscriber ℕ} []) (not false) calls)
stream-HasDelivered_example = stream-HasDelivered new_hub calls

abbrev first_stream : Subscriber ℕ
first_stream = record {
  queue = [];
  waiters = [];
  returned = false;
  subscribed = false;
  next_ticket = 3;
  settled = (0, EventHub.value 3) ∷ (1, EventHub.value 4) ∷ (2, EventHub.done) ∷ [];
}

first_stream_eq : get_elem? (run (open_stream ∷ calls) new_hub).subscribers 0 ≡ some first_stream
unfolding run EventHub.emit EventHub.close EventHub.next EventHub.stream EventHub.next_one
    EventHub.close_one EventHub.emit_one EventHub.at_handle
first_stream_eq = refl

hub_closed : (run (open_stream ∷ calls) new_hub).closed ≡ true
unfolding run EventHub.emit EventHub.close EventHub.next EventHub.stream
hub_closed = refl

run-in_order_example :
    (tickets first_stream.settled ++ first_stream.waiters ≡ upto first_stream.next_ticket)
    × ((first_stream.queue ≡ []) ⊎ (first_stream.waiters ≡ []))
run-in_order_example = run-in_order (open_stream ∷ calls) 0 first_stream first_stream_eq

run-closed_example : first_stream.waiters ≡ []
run-closed_example = run-closed (open_stream ∷ calls) 0 first_stream hub_closed first_stream_eq

-- two events are queued when the hub is closed
abbrev full_stream : Subscriber ℕ
full_stream = record first_stream { queue = 3 ∷ 4 ∷ []; next_ticket = 0; settled = [] }

abbrev closed_hub : EventHub ℕ
closed_hub = record { subscribers = full_stream ∷ []; closed = true }

run-nexts_example :
    (d : Subscriber ℕ) × (get_elem?
        (run (nexts 0 (length full_stream.queue)) closed_hub).subscribers
        0
      ≡ some d)
    × (values d.settled ≡ values full_stream.settled ++ full_stream.queue)
    × (d.queue ≡ [])
    × (d.waiters ≡ full_stream.waiters)
run-nexts_example = run-nexts 0 full_stream.queue closed_hub full_stream refl refl refl

abbrev answer : List (String × Json)
answer = ("id", str "af:1") ∷ ("result", null) ∷ []

abbrev both : List (String × Json)
both = ("id", str "af:1") ∷ ("result", null) ∷ ("error", null) ∷ []

abbrev opening : List Action
opening = Actions.initialize ∷ Actions.initialize_connected "n" none "1" ∷ []

abbrev opened : Client
opened = steps opening (new_client "af")

abbrev asking : Client
asking = (request "thread/start" (obj end) opened).1

first_asked :
    get "af:1" (step (Actions.initialize_connected "n" none "1") (new_client "af")).pending
    ≡ some "initialize"
unfolding step get Calls.initialize_connected put request_id decimal
first_asked = refl

step-requests_example :
    (get "af:1" (new_client "af").pending ≡ some "initialize")
    ⊎ (◌≡◌ {A = String} "initialize" "initialize")
step-requests_example =
    step-requests (Actions.initialize_connected "n" none "1") (new_client "af") "af:1" "initialize"
      refl first_asked

unknown_answer_kept :
    ((handle_response (num "9") "9" answer working).effects ≡ [])
    × ((handle_response (num "9") "9" answer working).pending ≡ working.pending)
unfolding get
unknown_answer_kept = handle_response-unknown (num "9") "9" answer working refl

abbrev not_an_object : Failure
not_an_object = protocol_error "App Server message must be an object"

null_throws : handle_message null working ≡ (throw not_an_object, working)
unfolding handle_message
null_throws = refl

read_message-throw_example :
    IsDrained not_an_object working (read_message null working)
    × ((read_message null working).state ≡ failed)
    × ((read_message null working).reading ≡ false)
read_message-throw_example =
    read_message-throw null working working not_an_object refl null_throws refl refl

done_taken : on_turn_completed done working ≡ (ok tt, (on_turn_completed done working).1)
unfolding on_turn_completed get turn_key
done_taken = refl

completion_taken_twice :
    on_turn_completed done (on_turn_completed done working).1
    ≡ (ok tt, (on_turn_completed done working).1)
completion_taken_twice =
    on_turn_completed_idempotent done working (on_turn_completed done working).1 done_taken

abbrev no_options : StartThreadOptions
no_options = record {
  cwd = none;
  model = none;
  approval_policy = none;
  sandbox = none;
  developer_instructions = none;
}

new_client-Refuses :
    Refuses (new_client "af") (Calls.start_thread no_options (new_client "af"))
    × Refuses (new_client "af") (Calls.resume_thread "a" (new_client "af"))
    × Refuses (new_client "af") (TurnCalls.start_turn "a" (text "go" ∷ []) (new_client "af"))
    × Refuses (new_client "af") (TurnCalls.steer_turn "a" "1" (text "go" ∷ []) (new_client "af"))
    × Refuses (new_client "af") (TurnCalls.interrupt_turn "a" "1" (new_client "af"))
new_client-Refuses = not_ready (new_client "af") no_options "a" "1" (text "go" ∷ []) refl

done-IsNamed : IsNamed done
done-IsNamed = record {
  thread = λ e. ground (arith, eq_iff "a" "");
  turn = λ e. ground (arith, eq_iff "1" "");
  message = λ e. cc;
}

parse_completion_json_example : parse_turn_completed_notification (completion_json done) ≡ ok done
parse_completion_json_example = parse_completion_json done done-IsNamed

done_parses : parse_turn_completed_notification (completion_json done) ≡ ok done
unfolding parse_turn_completed_notification require_string require_terminal_status parse_turn_error
done_parses = refl

parse_turn_completed_notification-IsNamed_example : IsNamed done
parse_turn_completed_notification-IsNamed_example =
    parse_turn_completed_notification-IsNamed (completion_json done) done done_parses

abbrev started : Json
started =
    obj (field "turn" (obj (field "id" (str "2") (field "status" (str "inProgress") end))) end)

abbrev cut_off : Client
cut_off = record working {
  state = failed;
  failure_handled = true;
  thread_states = ("a", ThreadState.detached "gone") ∷ [];
  starting = ("a", none) ∷ [];
}

started_2 : TurnCalls.started_turn started ≡ ok "2"
unfolding TurnCalls.started_turn
started_2 = refl

start_turn_answered_late_example :
    (d : Client) × (start_turn_answered "a" started cut_off ≡ (ok "2", d))
    × (get "a" d.thread_states ≡ some (active "2" local false))
    × (contains (turn_key "a" "2") d.turn_waiters ≡ true)
    × ((f : Failure) → fail f d ≡ d)
    × ((clean : Bool) (r : Option String) → handle_transport_closed clean r d ≡ d)
unfolding get turn_key
start_turn_answered_late_example =
    start_turn_answered_late "a" "2" "gone" started cut_off refl started_2 refl refl refl

abbrev connecting : Client
connecting = record (new_client "af") {
  state = initializing;
  connected = true;
  reading = true;
  initialize_started = true;
}

ready_after_close_example :
    ((step Actions.initialize_sent (step Actions.close_done (step Actions.close connecting))).state
      ≡ ready)
    × ((step Actions.initialize_sent
          (step Actions.close_done (step Actions.close connecting))).events.closed
        ≡ true)
    × ((id : String) × ((Calls.start_thread no_options (
            step Actions.initialize_sent
              (step Actions.close_done (step Actions.close connecting)))).0
          ≡ ok id))
ready_after_close_example = ready_after_close connecting no_options refl refl refl

colon_shared : turn_key ("a" +++ ":" +++ "b") "t" ≡ turn_key "a" ("b" +++ ":" +++ "t")
colon_shared = turn_key-collision "a" "b" "t"
