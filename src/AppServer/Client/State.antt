-- ===== src/AppServer/Client/State.antt =====
-- The fields of `DefaultAppServerClient`, and its private helpers on requests, failures and events.
-- `Promise`s are kept by their keys: what settles them is recorded in `effects`, with what is sent.
use af_companion.Prelude.{
  ℕ, ◌+◌, String, Bool, true, false, ◌||◌, Option, none, some, List, [], ◌∷◌, ◌++◌, map,
  if◌then◌else◌,
}
use af_companion.Prelude.StringMap
use af_companion.Prelude.Decimal.{decimal}
use af_companion.Json.{Json, str, obj, end, field}
use af_companion.AppServer.Types.{
  ClientState, new, initializing, ready, closing, closed, failed, TerminalTurnStatus, completed,
  interrupted, TurnCompletion, ThreadState, detached, AppServerEvent, protocol_error,
  transport_closed,
}
use af_companion.AppServer.Errors.{
  Failure, client_state_error, transport_closed_error, transport_error, request_error,
  materialization_error, Result, ok, throw, ◌+++◌,
}
use af_companion.AppServer.EventHub
use af_companion.AppServer.EventHub.{EventHub}

-- What a method does outside the client's own fields.
pub data Effect : Type 0 where
  sent : Json → Effect
  resolved : String → Json → Effect
  rejected : String → Failure → Effect
  turn_resolved : String → TurnCompletion → Effect
  turn_rejected : String → Failure → Effect
  connection_closed : Effect

-- `pending` has the method of each request; `starting` has `observedTurnId` of each turn/start in
-- flight; `reading` says that the loop of `#readIncoming` has not ended.
pub record Client : Type 0 where
  pub request_prefix : String
  pub state : ClientState
  pub connected : Bool
  pub reading : Bool
  pub initialize_started : Bool
  pub close_started : Bool
  pub failure_handled : Bool
  pub next_request : ℕ
  pub pending : List (String × String)
  pub turn_waiters : List String
  pub terminal_turns : List (String × TurnCompletion)
  pub truncated : List String
  pub thread_states : List (String × ThreadState)
  pub starting : List (String × Option String)
  pub events : EventHub AppServerEvent
  pub effects : List Effect

abbrev pub new_client : String → Client
new_client prefix = record {
  request_prefix = prefix;
  state = new;
  connected = false;
  reading = false;
  initialize_started = false;
  close_started = false;
  failure_handled = false;
  next_request = 0;
  pending = [];
  turn_waiters = [];
  terminal_turns = [];
  truncated = [];
  thread_states = [];
  starting = [];
  events = EventHub.new_hub;
  effects = [];
}

-- A method may throw, and keeps what it has written before.
abbrev pub Exec : Type 0 → Type 0
Exec A = Client → Result A × Client

abbrev pub pure : {A : Type 0} → A → Exec A
pure a c = (ok a, c)

abbrev pub raise : {A : Type 0} → Failure → Exec A
raise f c = (throw f, c)

-- a step that cannot throw
abbrev pub modify : (Client → Client) → Exec (Unit {0})
modify f c = (ok tt, f c)

-- the value of a pure function that may throw
abbrev pub lift : {A : Type 0} → Result A → Exec A
lift r c = (r, c)

abbrev continue : {A B : Type 0} → Result A → (A → Exec B) → Exec B
continue (ok a) k c = k a c
continue (throw f) k c = (throw f, c)

infixl 5 ◌>>=◌ ◌>>◌
abbrev pub ◌>>=◌ : {A B : Type 0} → Exec A → (A → Exec B) → Exec B
◌>>=◌ m k c = let (r, c') = m c in continue r k c'

abbrev pub ◌>>◌ : {B : Type 0} → Exec (Unit {0}) → Exec B → Exec B
m >> n = m >>= λ _. n

unfoldable pub emit_event : AppServerEvent → Client → Client
emit_event e c = record c { events = EventHub.emit e c.events }

unfoldable pub perform : List Effect → Client → Client
perform es c = record c { effects = c.effects ++ es }

abbrev pub state_text : ClientState → String
state_text new = "new"
state_text initializing = "initializing"
state_text ready = "ready"
state_text closing = "closing"
state_text closed = "closed"
state_text failed = "failed"

abbrev pub is_ready : ClientState → Bool
is_ready ready = true
is_ready _ = false

abbrev pub is_new : ClientState → Bool
is_new new = true
is_new _ = false

abbrev pub is_closed : ClientState → Bool
is_closed closed = true
is_closed _ = false

abbrev pub is_closing : ClientState → Bool
is_closing closing = true
is_closing _ = false

unfoldable pub assert_ready : Exec (Unit {0})
assert_ready c = if is_ready c.state then (ok tt, c) else (
  throw (client_state_error ("client is not ready (state: " +++ state_text c.state +++ ")")),
  c,
)

unfoldable pub turn_key : String → String → String
turn_key thread_id turn_id = thread_id +++ ":" +++ turn_id

unfoldable pub request_id : String → ℕ → String
request_id prefix n = prefix +++ ":" +++ decimal n

abbrev request_message : String → String → Json → Json
request_message method id params =
    obj (field "method" (str method) (field "id" (str id) (field "params" params end)))

-- `#request`: the id under which the promise is pending
unfoldable pub request : String → Json → Exec String
request method params c =
    let id = request_id c.request_prefix (c.next_request + 1) in
    if c.connected
    then (
      ok id,
      record c {
        next_request = c.next_request + 1;
        pending = StringMap.put id method c.pending;
        effects = c.effects ++ sent (request_message method id params) ∷ [];
      },
    )
    else (throw (client_state_error "transport is not connected"), c)

unfoldable pub reject_requests : Failure → List (String × String) → List Effect
reject_requests f [] = []
reject_requests f ((id, method) ∷ pending) = rejected id f ∷ reject_requests f pending

unfoldable pub reject_turns : Failure → List String → List Effect
reject_turns f [] = []
reject_turns f (key ∷ keys) = turn_rejected key f ∷ reject_turns f keys

unfoldable pub reject_outstanding : Failure → Client → Client
unfolding reject_requests reject_turns
reject_outstanding f c = record c {
  pending = [];
  turn_waiters = [];
  effects = c.effects ++ (reject_requests f c.pending ++ reject_turns f c.turn_waiters);
}

abbrev pub status_text : TerminalTurnStatus → String
status_text completed = "completed"
status_text interrupted = "interrupted"
status_text TerminalTurnStatus.failed = "failed"

-- `error.message`
unfoldable pub failure_message : Failure → String
failure_message (client_state_error m) = m
failure_message (Failure.protocol_error m) = m
failure_message (transport_closed_error m) = m
failure_message (transport_error m) = m
failure_message (request_error method code m _) = method +++ " failed (" +++ code +++ "): " +++ m
failure_message (materialization_error t) =
    "Thread "
    +++ t.thread_id
    +++ " was not materialized: first turn "
    +++ t.turn_id
    +++ " ended with "
    +++ status_text t.status

abbrev pub closing_or_closed : ClientState → Bool
closing_or_closed closing = true
closing_or_closed closed = true
closing_or_closed _ = false

-- `#connection?.close()`
abbrev pub close_effect : Bool → List Effect
close_effect true = connection_closed ∷ []
close_effect false = []

-- `#fail`
unfoldable pub fail : Failure → Client → Client
unfolding reject_outstanding emit_event failure_message perform
fail f c =
    if c.failure_handled || closing_or_closed c.state
    then c
    else let c1 = reject_outstanding f (record c { failure_handled = true; state = failed }) in
      let c2 = emit_event (protocol_error (failure_message f)) c1 in
      perform (close_effect c.connected) (record c2 { events = EventHub.close c2.events })

abbrev detach : String → String × ThreadState → String × ThreadState
detach reason (id, s) = (id, detached reason)

abbrev or_default : Option String → String
or_default (some reason) = reason
or_default none = "App Server transport closed"

-- `#handleTransportClosed`, given `close.clean` and `close.reason`
unfoldable pub handle_transport_closed : Bool → Option String → Client → Client
unfolding reject_outstanding emit_event
handle_transport_closed clean reason c =
    if closing_or_closed c.state || c.failure_handled
    then c
    else let c1 = record c {
      failure_handled = true;
      thread_states = map (detach (or_default reason)) c.thread_states;
      state = failed;
    } in
      let c2 = reject_outstanding (transport_closed_error (or_default reason)) c1 in
      let c3 = emit_event (transport_closed clean reason) c2 in
      record c3 { events = EventHub.close c3.events }
