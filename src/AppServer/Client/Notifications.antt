-- ===== src/AppServer/Client/Notifications.antt =====
-- `#handleNotification`: the end of a turn, message deltas, server errors, and the dispatch.
use af_companion.Prelude.{
  String, Bool, true, false, not, ◌&&◌, ◌||◌, Option, none, some, ◌==◌, if◌then◌else◌,
}
use af_companion.Prelude.StringMap
use af_companion.Json.{Json, bool, str, read}
use af_companion.AppServer.Types.{
  TerminalTurnStatus, completed, interrupted, TurnCompletion, ThreadState, unmaterialized, idle,
  turn_completed, agent_message_delta, server_error, unknown_notification,
}
use af_companion.AppServer.Errors.{protocol_error, Result, ok, throw, ◌+++◌}
use af_companion.AppServer.Wire.{
  require_record, require_string, parse_thread_started_notification,
  parse_turn_started_notification, parse_turn_completed_notification,
}
use af_companion.AppServer.Client.State.{Exec, modify, lift, ◌>>=◌, emit_event, turn_key}
use af_companion.AppServer.Client.Turns.{
  materialized_of, active_turn, conflicting, observe_in_flight_turn, remember_completion,
  on_thread_started, on_turn_started, conflict_failure, after,
}

abbrev same_status : TerminalTurnStatus → TerminalTurnStatus → Bool
same_status completed completed = true
same_status interrupted interrupted = true
same_status TerminalTurnStatus.failed TerminalTurnStatus.failed = true
same_status _ _ = false

abbrev same_error : Option String → Option String → Bool
same_error none none = true
same_error (some a) (some b) = a == b
same_error _ _ = false

-- `recorded.status === completion.status && recorded.error === completion.error`
abbrev pub same_outcome : TurnCompletion → TurnCompletion → Bool
same_outcome a b = same_status a.status b.status && same_error a.error b.error

-- the state of a thread whose turn has ended
abbrev pub settled_state : TurnCompletion → Option ThreadState → ThreadState
settled_state t previous =
    if same_status t.status completed || materialized_of previous then idle true else unmaterialized

-- past the checks
completion_observed : TurnCompletion → Exec (Unit {0})
unfolding observe_in_flight_turn remember_completion emit_event
completion_observed t c =
    let previous = StringMap.get t.thread_id c.thread_states in
    after (observe_in_flight_turn t.thread_id t.turn_id c) λ c1.
      let c2 = remember_completion t c1 in
      emit_event (turn_completed t) (record c2 {
        thread_states = StringMap.put t.thread_id (settled_state t previous) c2.thread_states;
      })

abbrev is_active : Option String → Bool
is_active none = false
is_active (some turn_id) = true

completion_unless : Option String → TurnCompletion → Exec (Unit {0})
unfolding completion_observed
completion_unless (some other) t c =
    (throw (conflict_failure "turn/completed" t.turn_id other t.thread_id), c)
completion_unless none t c =
    if not (is_active (active_turn (StringMap.get t.thread_id c.thread_states)))
      && StringMap.contains t.thread_id c.truncated
    then (
      throw (
          protocol_error (
            "turn/completed for " +++ t.turn_id +++ " on thread " +++ t.thread_id
            +++ " is ambiguous because terminal history is truncated")),
      c,
    )
    else completion_observed t c

completion_after : Option TurnCompletion → TurnCompletion → Exec (Unit {0})
unfolding completion_unless
completion_after (some recorded) t c = if same_outcome recorded t then (ok tt, c) else (
  throw (
      protocol_error (
        "turn/completed for " +++ t.turn_id +++ " on thread " +++ t.thread_id
        +++ " contradicts recorded terminal completion")),
  c,
)
completion_after none t c =
    completion_unless (conflicting (StringMap.get t.thread_id c.thread_states) t.turn_id) t c

-- "turn/completed"
unfoldable pub on_turn_completed : TurnCompletion → Exec (Unit {0})
unfolding completion_after
on_turn_completed t c =
    completion_after (StringMap.get (turn_key t.thread_id t.turn_id) c.terminal_turns) t c

abbrev require_text : Json → Result String
require_text (str s) = ok s
require_text _ = throw (protocol_error "item/agentMessage/delta params.delta must be a string")

abbrev require_boolean : Json → Result Bool
require_boolean (bool b) = ok b
require_boolean _ = throw (protocol_error "error params.willRetry must be a boolean")

-- "item/agentMessage/delta"
unfoldable pub on_agent_message_delta : Json → Exec (Unit {0})
unfolding require_record require_string read emit_event
on_agent_message_delta params = do
  value ← lift (require_record params "item/agentMessage/delta params")
  thread_id ←
      lift (require_string (read "threadId" value) "item/agentMessage/delta params.threadId")
  turn_id ← lift (require_string (read "turnId" value) "item/agentMessage/delta params.turnId")
  item_id ← lift (require_string (read "itemId" value) "item/agentMessage/delta params.itemId")
  delta ← lift (require_text (read "delta" value))
  modify (emit_event (agent_message_delta thread_id turn_id item_id delta))

-- "error"
unfoldable pub on_error : Json → Exec (Unit {0})
unfolding require_record require_string read emit_event
on_error params = do
  value ← lift (require_record params "error params")
  error ← lift (require_record (read "error" value) "error params.error")
  will_retry ← lift (require_boolean (read "willRetry" value))
  thread_id ← lift (require_string (read "threadId" value) "error params.threadId")
  turn_id ← lift (require_string (read "turnId" value) "error params.turnId")
  message ← lift (require_string (read "message" error) "error params.error.message")
  modify (emit_event (server_error thread_id turn_id message will_retry))

unfoldable pub handle_notification : String → Json → Exec (Unit {0})
handle_notification method params =
    if method == "thread/started"
    then (lift (parse_thread_started_notification params) >>= on_thread_started)
    else if method == "turn/started"
    then (lift (parse_turn_started_notification params) >>= on_turn_started)
    else if method == "turn/completed"
    then (lift (parse_turn_completed_notification params) >>= on_turn_completed)
    else if method == "item/agentMessage/delta"
    then on_agent_message_delta params
    else if method == "error"
    then on_error params
    else modify (emit_event (unknown_notification method params))
