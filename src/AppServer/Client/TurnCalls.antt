-- ===== src/AppServer/Client/TurnCalls.antt =====
-- The public methods of the client about turns, and `close`.
use af_companion.Prelude.{
  String, Bool, true, false, Option, none, some, List, [], ◌∷◌, ◌==◌, if◌then◌else◌,
}
use af_companion.Prelude.StringMap
use af_companion.Prelude.StringMap.{has}
use af_companion.Json.{Json, str, obj, end, field}
use af_companion.AppServer.Types.{closing, closed, StableUserInput, local, active}
use af_companion.AppServer.Errors.{
  Failure, client_state_error, protocol_error, transport_closed_error, Result, ok, throw, ◌+++◌,
}
use af_companion.AppServer.Errors
use af_companion.AppServer.Wire.{
  require_record, require_string, parse_turn, parse_steer_result, serialize_inputs,
}
use af_companion.AppServer.EventHub
use af_companion.AppServer.Client.State.{
  Client, Effect, connection_closed, rejected, Exec, modify, lift, ◌>>=◌, ◌>>◌, perform, is_closed,
  assert_ready, turn_key, request, reject_outstanding, fail,
}
use af_companion.AppServer.Client.Turns.{materialized_of, active_turn, conflicting, wait_for_turn}

require_no_turn : Option String → String → Result (Unit {0})
require_no_turn none thread_id = ok tt
require_no_turn (some turn_id) thread_id =
    throw (client_state_error ("thread " +++ thread_id +++ " already has active turn " +++ turn_id))

-- the guards of `startTurn`
unfoldable pub start_turn_allowed : String → Exec (Unit {0})
unfolding assert_ready require_string require_no_turn
start_turn_allowed thread_id c =
    (do
      assert_ready
      id ← lift (require_string (str thread_id) "threadId")
      lift (
          if has thread_id c.starting
          then throw (
              client_state_error
                ("thread " +++ thread_id +++ " already has a turn/start request in flight"))
          else ok tt)
      lift (require_no_turn (active_turn (StringMap.get thread_id c.thread_states)) thread_id))
      c

-- `finally`
unfoldable pub start_turn_finally : String → Client → Client
start_turn_finally thread_id c = record c { starting = StringMap.delete thread_id c.starting }

abbrev pub finally_on_throw : {A : Type 0} → String → Result A × Client → Result A × Client
finally_on_throw thread_id (ok a, c) = (ok a, c)
finally_on_throw thread_id (throw f, c) =
    (throw f, record c { starting = StringMap.delete thread_id c.starting })

-- `startTurn`, up to the answer
unfoldable pub start_turn : String → List StableUserInput → Exec String
unfolding start_turn_allowed request serialize_inputs
start_turn thread_id inputs = do
  start_turn_allowed thread_id
  modify (λ c. record c { starting = StringMap.put thread_id none c.starting })
  λ c. finally_on_throw thread_id (
      (do
        input ← lift (serialize_inputs inputs)
        request "turn/start" (obj (field "threadId" (str thread_id) (field "input" input end))))
        c)

abbrev expect_in_progress : String × String → Result String
expect_in_progress (id, status) =
    if status == "inProgress"
    then ok id
    else throw (protocol_error "turn/start result.turn.status must be inProgress")

-- `inFlight.observedTurnId`, where it is another turn than the one that was started
abbrev pub other_observed : Option (Option String) → String → Option String
other_observed (some (some seen)) turn_id = if seen == turn_id then none else some seen
other_observed _ turn_id = none

-- the checks of the answer failed: the client is failed, and the call throws once the connection is
-- closed, which `start_turn_finally` then follows as a step of its own
abbrev fail_start : Failure → Exec String
fail_start f c = (throw f, fail f c)

-- the answer is accepted
unfoldable pub start_turn_accepted : String → String → Client → Client
unfolding wait_for_turn
start_turn_accepted thread_id turn_id c =
    let previous = StringMap.get thread_id c.thread_states in
    wait_for_turn thread_id turn_id (
      if has (turn_key thread_id turn_id) c.terminal_turns then c else record c {
        thread_states =
            StringMap.put thread_id (active turn_id local (materialized_of previous))
              c.thread_states;
      })

unfoldable pub start_turn_checked : Option String → Option String → String → String → Exec String
unfolding start_turn_accepted start_turn_finally
start_turn_checked (some seen) conflict thread_id turn_id = fail_start (
    protocol_error (
      "turn/start returned " +++ turn_id +++ " after observing " +++ seen +++ " for thread "
      +++ thread_id))
start_turn_checked none (some other) thread_id turn_id = fail_start (
    protocol_error (
      "turn/start returned " +++ turn_id +++ " while thread " +++ thread_id +++ " has active turn "
      +++ other))
start_turn_checked none none thread_id turn_id =
    λ c. (ok turn_id, start_turn_finally thread_id (start_turn_accepted thread_id turn_id c))

-- the turn of a well-formed answer
unfoldable pub started_turn : Json → Result String
unfolding parse_turn
started_turn result = Errors.◌>>=◌ (parse_turn result "turn/start result") expect_in_progress

unfoldable pub start_turn_after : Result String → String → Exec String
unfolding start_turn_checked start_turn_finally
start_turn_after (throw f) thread_id c = (throw f, start_turn_finally thread_id c)
start_turn_after (ok turn_id) thread_id c =
    start_turn_checked (other_observed (StringMap.get thread_id c.starting) turn_id)
      (conflicting (StringMap.get thread_id c.thread_states) turn_id) thread_id turn_id c

-- `startTurn`, after the answer, up to the next `await`: the turn whose completion is waited for
unfoldable pub start_turn_answered : String → Json → Exec String
unfolding start_turn_after
start_turn_answered thread_id result c = start_turn_after (started_turn result) thread_id c

require_turn : Option String → String → String → Result (Unit {0})
require_turn none thread_id expected =
    throw (client_state_error ("thread " +++ thread_id +++ " has no observed active turn"))
require_turn (some turn_id) thread_id expected =
    if turn_id == expected
    then ok tt
    else throw (client_state_error ("active turn is " +++ turn_id +++ ", not " +++ expected))

unfoldable pub steer_turn : String → String → List StableUserInput → Exec String
unfolding assert_ready require_turn serialize_inputs request
steer_turn thread_id expected inputs = do
  assert_ready
  λ c. (require_turn (active_turn (StringMap.get thread_id c.thread_states)) thread_id expected, c)
  input ← lift (serialize_inputs inputs)
  request "turn/steer" (
      obj (
        field "threadId" (str thread_id)
          (field "expectedTurnId" (str expected) (field "input" input end))))

abbrev expect_steered : String → String → Result String
expect_steered expected turn_id =
    if turn_id == expected
    then ok turn_id
    else throw (protocol_error ("turn/steer returned " +++ turn_id +++ ", expected " +++ expected))

unfoldable pub steer_turn_answered : String → Json → Result String
unfolding parse_steer_result
steer_turn_answered expected result =
    Errors.◌>>=◌ (parse_steer_result result) (expect_steered expected)

abbrev not_active : String → String → Failure
not_active thread_id turn_id =
    client_state_error
      ("turn " +++ turn_id +++ " is not the observed active turn for " +++ thread_id)

abbrev require_active : Option String → String → String → Result (Unit {0})
require_active none thread_id turn_id = throw (not_active thread_id turn_id)
require_active (some t) thread_id turn_id =
    if t == turn_id then ok tt else throw (not_active thread_id turn_id)

unfoldable pub interrupt_turn : String → String → Exec String
unfolding assert_ready wait_for_turn request
interrupt_turn thread_id turn_id = do
  assert_ready
  λ c. (require_active (active_turn (StringMap.get thread_id c.thread_states)) thread_id turn_id, c)
  modify (wait_for_turn thread_id turn_id)
  request "turn/interrupt"
      (obj (field "threadId" (str thread_id) (field "turnId" (str turn_id) end)))

-- the answer only has to be an object; the completion is then awaited
unfoldable pub interrupt_turn_answered : Json → Result (List (String × Json))
unfolding require_record
interrupt_turn_answered result = require_record result "turn/interrupt result"

-- the `catch` on `connection.send` in `#request`
unfoldable pub send_failed : String → Failure → Client → Client
unfolding perform
send_failed id f c =
    if has id c.pending
    then perform (rejected id f ∷ []) (record c { pending = StringMap.delete id c.pending })
    else c

abbrev closing_effect : Bool → List Effect
closing_effect true = connection_closed ∷ []
closing_effect false = []

-- `close()`, up to the closing of the connection; a second call returns the first promise
unfoldable pub close : Client → Client
unfolding reject_outstanding perform
close c =
    if c.close_started
    then c
    else if is_closed c.state
    then record c { close_started = true }
    else perform (closing_effect c.connected) (
        reject_outstanding (transport_closed_error "App Server client closed")
          (record c { close_started = true; state = closing }))

-- the connection is closed, or its closing failed
unfoldable pub close_done : Client → Client
close_done c = record c { state = closed; events = EventHub.close c.events }
