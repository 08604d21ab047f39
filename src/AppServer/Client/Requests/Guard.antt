-- ===== src/AppServer/Client/Requests/Guard.antt =====
-- What a client asks of the server while it is not ready.
use af_companion.Prelude.{
  ◌+◌, String, ◌≡◌, sym, ap, ◌∙◌, ◌⊎◌, inl, inr, false, some, none, [], arith, Bool-cases, ◌==◌,
}
use af_companion.Prelude.StringMap.{get, put, delete, get-put, get-delete}
use af_companion.AppServer.Types.{StartThreadOptions}
use af_companion.AppServer.Errors.{Result}
use af_companion.AppServer.Client.State.{Client, is_ready, request_id}
use af_companion.AppServer.Client.Rules.{HandlerRules, read_message-rule, start_turn_answered-rule}
use af_companion.AppServer.Client.Calls
use af_companion.AppServer.Client.Actions.{Action, step}
use af_companion.AppServer.Client.Actions
use af_companion.AppServer.Client.Failures.{Refuses, not_ready}
use af_companion.AppServer.Client.Requests.{SameRequests, AddedRequest, RemovedRequest, NoRequests}
use af_companion.AppServer.Client.Requests.Methods.{
  fail-requests, handle_server_request-requests, on_turn_started-requests,
  on_thread_started-requests, on_error-requests, on_agent_message_delta-requests,
  emit_event-requests, initialize_connected-requests, on_turn_completed-requests,
  start_turn_accepted-requests, start_turn_finally-requests, handle_response-requests,
  send_failed-requests, close-requests, handle_transport_closed-requests,
}
use af_companion.AppServer.Client.Requests.Steps.{IsQuiet, quiet-requests, close_done-requests}

-- every request that is pending after a step was pending before it, or is the one of `initialize`
abbrev AddsInitialize : Client → Client → Type 0
AddsInitialize c d =
    (id method : String)
    → get id d.pending ≡ some method
    → (get id c.pending ≡ some method) ⊎ (method ≡ "initialize")

keep_same : {c d : Client} → SameRequests c d → AddsInitialize c d
keep_same {c} s id method e = inl (ap (get id) (sym s.pending) ∙ e)

keep_removed : {c d : Client} (gone : String) → RemovedRequest gone c d → AddsInitialize c d
keep_removed {c} gone s id method e =
    let read : get id (delete gone c.pending) ≡ some method = ap (get id) (sym s.pending) ∙ e in
    inl (ground (arith, get-delete gone id c.pending))

keep_none : {c d : Client} → NoRequests c d → AddsInitialize c d
unfolding get
keep_none s id method e = let read : get id [] ≡ some method = ap (get id) (sym s.pending) ∙ e in cc

keep_initialize : {c d : Client} → AddedRequest "initialize" c d → AddsInitialize c d
keep_initialize {c} s id method e =
    let key = request_id c.request_prefix (c.next_request + 1) in
    let read : get id (put key "initialize" c.pending) ≡ some method =
      ap (get id) (sym s.pending) ∙ e in
    elim (Bool-cases (key == id)) [
      | inl same ↦ inr (ground (arith, get-put key id "initialize" c.pending))
      | inr other ↦ inl (ground (arith, get-put key id "initialize" c.pending))
    ]

either : {P Q R : Type 0} → (P → R) → (Q → R) → P ⊎ Q → R
either f g (inl p) = f p
either f g (inr q) = g q

request_rules : HandlerRules AddsInitialize
request_rules = record {
  same = λ c id method e. inl e;
  emitted = λ e c. keep_same (emit_event-requests c e);
  message_delta = λ p c. keep_same (on_agent_message_delta-requests c p);
  server_error = λ p c. keep_same (on_error-requests c p);
  thread_started = λ id c. keep_same (on_thread_started-requests c id);
  turn_started = λ ids c. keep_same (on_turn_started-requests c ids.0 ids.1);
  turn_completed = λ t c. keep_same (on_turn_completed-requests t c);
  response = λ raw id message c.
      either keep_same (keep_removed id) (handle_response-requests raw id message c);
  server_request = λ raw method c. keep_same (handle_server_request-requests c raw method);
  failed = λ f c d r id method e.
      elim (either keep_same keep_none (fail-requests f (record d { reading = false })) id method
        e) [ inl kept ↦ r id method kept | inr first ↦ inr first ];
}

-- a call that is refused asks for nothing
refused-AddsInitialize :
    {A : Type 0} {c : Client} {r : Result A × Client} → Refuses c r → AddsInitialize c r.1
refused-AddsInitialize {A = A} {c} e id method there =
    inl (ap (λ (x : Result A × Client). get id x.1.pending) (sym e) ∙ there)

some_options : StartThreadOptions
some_options = record {
  cwd = none;
  model = none;
  approval_policy = none;
  sandbox = none;
  developer_instructions = none;
}

step-AddsInitialize :
    (a : Action) (c : Client) → is_ready c.state ≡ false → AddsInitialize c (step a c)
unfolding step Calls.initialize_failed
step-AddsInitialize (Actions.message v) c u = read_message-rule AddsInitialize request_rules v c
step-AddsInitialize (Actions.initialize_connected n t v) c u =
    either keep_same keep_initialize (initialize_connected-requests n t v c)
step-AddsInitialize (Actions.initialize_failed f) c u =
    either keep_same keep_none (fail-requests f c)
step-AddsInitialize (Actions.start_thread o) c u =
    refused-AddsInitialize (not_ready c o "" "" [] u).0
step-AddsInitialize (Actions.resume_thread id) c u =
    refused-AddsInitialize (not_ready c some_options id "" [] u).1
step-AddsInitialize (Actions.start_turn id inputs) c u =
    refused-AddsInitialize (not_ready c some_options id "" inputs u).2
step-AddsInitialize (Actions.steer_turn id t inputs) c u =
    refused-AddsInitialize (not_ready c some_options id t inputs u).3
step-AddsInitialize (Actions.interrupt_turn id t) c u =
    refused-AddsInitialize (not_ready c some_options id t [] u).4
step-AddsInitialize (Actions.start_turn_answered id r) c u =
    start_turn_answered-rule AddsInitialize id r c (keep_same (start_turn_finally-requests id c))
      (λ f. either keep_same keep_none (fail-requests f c))
      (λ t free. keep_same (start_turn_accepted-requests id t c))
step-AddsInitialize (Actions.start_turn_rejected id) c u =
    keep_same (start_turn_finally-requests id c)
step-AddsInitialize (Actions.send_failed id f) c u =
    either keep_same (keep_removed id) (send_failed-requests id f c)
step-AddsInitialize (Actions.transport_closed x y) c u =
    either keep_same keep_none (handle_transport_closed-requests x y c)
step-AddsInitialize Actions.close c u = either keep_same keep_none (close-requests c)
step-AddsInitialize Actions.close_done c u = keep_same (close_done-requests c)
step-AddsInitialize a c u = keep_same (quiet-requests a c (unfold IsQuiet in tt))

-- While a client is not ready, no step makes it ask for anything but its own initialization: every
-- request that is pending after the step was pending under the same id before it, or is that of
-- `initialize`.
pub step-requests :
    (a : Action) (c : Client) (id method : String)
    → is_ready c.state ≡ false
    → get id (step a c).pending ≡ some method
    → (get id c.pending ≡ some method) ⊎ (method ≡ "initialize")
step-requests a c id method unready e = step-AddsInitialize a c unready id method e
