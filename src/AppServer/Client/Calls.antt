-- ===== src/AppServer/Client/Calls.antt =====
-- The public methods of the client about its connection and its threads. The part before an `await` has the method's name; the part
-- after it is named for what was awaited. A value that a method returns after an `await` is the
-- value of that part.
use af_companion.Prelude.{
  String, Bool, true, false, Option, none, some, [], ◌∷◌, ◌==◌, if◌then◌else◌,
}
use af_companion.Json.{Json, null, bool, str, obj, Fields, end, field}
use af_companion.AppServer.Types.{
  initializing, ready, ServerIdentity, completed, TerminalTurnStatus, TurnCompletion,
  StartThreadOptions,
}
use af_companion.AppServer.Errors.{
  Failure, client_state_error, protocol_error, materialization_error, Result, ok, throw, ◌+++◌,
}
use af_companion.AppServer.Wire.{require_string, parse_server_identity, parse_thread_id}
use af_companion.AppServer.Client.State.{
  Client, sent, Exec, pure, modify, lift, ◌>>=◌, ◌>>◌, perform, state_text, is_new, assert_ready,
  request, fail,
}
use af_companion.AppServer.Client.Turns.{mark_thread_materialized}

-- `initialize()`, up to `transport.connect()`; a second call returns the first promise
unfoldable pub initialize : Exec (Unit {0})
initialize c =
    if c.initialize_started
    then (ok tt, c)
    else if is_new c.state
    then (ok tt, record c { initialize_started = true; state = initializing })
    else (
      throw
          (client_state_error ("cannot initialize client in " +++ state_text c.state +++ " state")),
      c,
    )

abbrev title_json : Option String → Json
title_json none = null
title_json (some t) = str t

abbrev client_info : String → Option String → String → Json
client_info name title version = obj (
    field "clientInfo"
      (obj (
        field "name" (str name)
          (field "title" (title_json title) (field "version" (str version) end))))
      (field "capabilities"
        (obj (field "experimentalApi" (bool false) (field "requestAttestation" (bool false) end)))
        end))

-- the connection is there: the reading begins, and the first request is sent
unfoldable pub initialize_connected : String → Option String → String → Exec String
unfolding request
initialize_connected name title version c =
    request "initialize" (client_info name title version)
      (record c { connected = true; reading = true })

-- the server's answer, up to the sending of "initialized"
unfoldable pub initialize_answered : Json → Exec ServerIdentity
unfolding parse_server_identity perform
initialize_answered result = do
  identity ← lift (parse_server_identity result)
  modify (
      perform (sent (obj (field "method" (str "initialized") (field "params" (obj end) end))) ∷ []))
  pure identity

-- "initialized" is sent
unfoldable pub initialize_sent : Client → Client
initialize_sent c = record c { state = ready }

-- the `catch` of `#doInitialize`
unfoldable pub initialize_failed : Failure → Exec ServerIdentity
unfolding fail
initialize_failed f c = (throw f, fail f c)

abbrev option_field : String → Option String → Fields → Fields
option_field key none rest = rest
option_field key (some v) rest = field key (str v) rest

thread_params : StartThreadOptions → Json
thread_params o = obj (
    field "ephemeral" (bool false) (
      option_field "cwd" o.cwd (
        option_field "model" o.model (
          option_field "approvalPolicy" o.approval_policy (
            option_field "sandbox" o.sandbox
              (option_field "developerInstructions" o.developer_instructions end))))))

unfoldable pub start_thread : StartThreadOptions → Exec String
unfolding assert_ready request thread_params
start_thread options = do assert_ready; request "thread/start" (thread_params options)

unfoldable pub start_thread_answered : Json → Exec String
start_thread_answered result = do
  thread_id ← lift (parse_thread_id result "thread/start result")
  modify (mark_thread_materialized thread_id false)
  pure thread_id

unfoldable pub resume_thread : String → Exec String
unfolding assert_ready request require_string
resume_thread thread_id = do
  assert_ready
  id ← lift (require_string (str thread_id) "threadId")
  request "thread/resume" (obj (field "threadId" (str id) end))

unfoldable pub expect_thread : String → String → Result String
expect_thread thread_id resumed =
    if resumed == thread_id
    then ok resumed
    else throw
        (protocol_error ("thread/resume returned " +++ resumed +++ ", expected " +++ thread_id))

unfoldable pub resume_thread_answered : String → Json → Exec String
resume_thread_answered thread_id result = do
  resumed ← lift (parse_thread_id result "thread/resume result")
  id ← lift (expect_thread thread_id resumed)
  modify (mark_thread_materialized thread_id true)
  pure thread_id

abbrev pub is_completed : TerminalTurnStatus → Bool
is_completed completed = true
is_completed _ = false

-- `materialize`, after the completion of its first turn
unfoldable pub materialize_completed : String → TurnCompletion → Exec TurnCompletion
materialize_completed thread_id t c =
    if is_completed t.status
    then (ok t, mark_thread_materialized thread_id true c)
    else (throw (materialization_error t), c)
