-- ===== src/AppServer/Wire.antt =====
-- wire.ts: what is read from, and written to, the messages of the App Server.
pub mod RoundTrip
use af_companion.Prelude.{
  String, Bool, true, false, Option, none, some, List, [], ◌∷◌, map, ◌==◌, if◌then◌else◌,
}
use af_companion.Json.{
  Json, undefined, null, bool, num, str, arr, obj, nil, end, field, fields, to_items, read,
}
use af_companion.AppServer.Types.{
  ServerIdentity, StableUserInput, text, image, local_image, TerminalTurnStatus, completed,
  interrupted, TurnCompletion,
}
use af_companion.AppServer.Types
use af_companion.AppServer.Errors.{Failure, protocol_error, Result, ok, throw, ◌>>=◌, ◌+++◌}

abbrev pub is_record : Json → Bool
is_record (obj fs) = true
is_record _ = false

unfoldable pub require_record : Json → String → Result (List (String × Json))
require_record (obj fs) label = ok (fields fs)
require_record _ label = throw (protocol_error (label +++ " must be an object"))

unfoldable pub require_string : Json → String → Result String
require_string (str s) label =
    if s == "" then throw (protocol_error (label +++ " must be a non-empty string")) else ok s
require_string _ label = throw (protocol_error (label +++ " must be a non-empty string"))

unfoldable pub parse_server_identity : Json → Result ServerIdentity
unfolding require_record require_string read
parse_server_identity value = do
  result ← require_record value "initialize result"
  user_agent ← require_string (read "userAgent" result) "initialize result.userAgent"
  codex_home ← require_string (read "codexHome" result) "initialize result.codexHome"
  family ← require_string (read "platformFamily" result) "initialize result.platformFamily"
  os ← require_string (read "platformOs" result) "initialize result.platformOs"
  ok (record {
    user_agent = user_agent;
    codex_home = codex_home;
    platform_family = family;
    platform_os = os;
  })

unfoldable pub parse_thread_id : Json → String → Result String
unfolding require_record require_string read
parse_thread_id value label = do
  result ← require_record value label
  thread ← require_record (read "thread" result) (label +++ ".thread")
  require_string (read "id" thread) (label +++ ".thread.id")

-- a turn's id and its status
unfoldable pub parse_turn : Json → String → Result (String × String)
unfolding require_record require_string read
parse_turn value label = do
  result ← require_record value label
  turn ← require_record (read "turn" result) (label +++ ".turn")
  id ← require_string (read "id" turn) (label +++ ".turn.id")
  status ← require_string (read "status" turn) (label +++ ".turn.status")
  ok (id, status)

unfoldable pub parse_steer_result : Json → Result String
unfolding require_record require_string read
parse_steer_result value = do
  result ← require_record value "turn/steer result"
  require_string (read "turnId" result) "turn/steer result.turnId"

serialize_input : StableUserInput → Json
serialize_input (text s) =
    obj (field "type" (str "text") (field "text" (str s) (field "text_elements" (arr nil) end)))
serialize_input (image url) = obj (field "type" (str "image") (field "url" (str url) end))
serialize_input (local_image path) =
    obj (field "type" (str "localImage") (field "path" (str path) end))

unfoldable pub serialize_inputs : List StableUserInput → Result Json
unfolding serialize_input
serialize_inputs [] = throw (protocol_error "turn input must not be empty")
serialize_inputs (i ∷ inputs) = ok (arr (to_items (map serialize_input (i ∷ inputs))))

abbrev in_progress : Json → Bool
in_progress (str s) = s == "inProgress"
in_progress _ = false

abbrev require_in_progress : Json → String × String → Result (String × String)
require_in_progress status ids =
    if in_progress status
    then ok ids
    else throw (protocol_error "turn/started params.turn.status must be inProgress")

-- the thread and the turn
unfoldable pub parse_turn_started_notification : Json → Result (String × String)
unfolding require_record require_string read
parse_turn_started_notification value = do
  params ← require_record value "turn/started params"
  thread_id ← require_string (read "threadId" params) "turn/started params.threadId"
  turn ← require_record (read "turn" params) "turn/started params.turn"
  turn_id ← require_string (read "id" turn) "turn/started params.turn.id"
  require_in_progress (read "status" turn) (thread_id, turn_id)

abbrev pub terminal_status_of : String → Option TerminalTurnStatus
terminal_status_of s =
    if s == "completed"
    then some completed
    else if s == "interrupted"
    then some interrupted
    else if s == "failed"
    then some TerminalTurnStatus.failed
    else none

abbrev pub as_terminal : Option TerminalTurnStatus → Result TerminalTurnStatus
as_terminal (some s) = ok s
as_terminal none = throw (protocol_error "turn/completed params.turn.status must be terminal")

unfoldable pub require_terminal_status : Json → Result TerminalTurnStatus
require_terminal_status (str s) = as_terminal (terminal_status_of s)
require_terminal_status _ = as_terminal none

-- `turn.error`, which may be null or absent
unfoldable pub parse_turn_error : Json → Result (Option String)
unfolding require_record read
parse_turn_error null = ok none
parse_turn_error undefined = ok none
parse_turn_error error = do
  turn_error ← require_record error "turn/completed params.turn.error"
  message ← require_string (read "message" turn_error) "turn/completed params.turn.error.message"
  ok (some message)

unfoldable pub parse_turn_completed_notification : Json → Result TurnCompletion
unfolding require_record read
parse_turn_completed_notification value = do
  params ← require_record value "turn/completed params"
  thread_id ← require_string (read "threadId" params) "turn/completed params.threadId"
  turn ← require_record (read "turn" params) "turn/completed params.turn"
  turn_id ← require_string (read "id" turn) "turn/completed params.turn.id"
  status ← require_terminal_status (read "status" turn)
  error ← parse_turn_error (read "error" turn)
  ok (record { thread_id = thread_id; turn_id = turn_id; status = status; error = error })

unfoldable pub parse_thread_started_notification : Json → Result String
unfolding require_record require_string read
parse_thread_started_notification value = do
  params ← require_record value "thread/started params"
  thread ← require_record (read "thread" params) "thread/started params.thread"
  require_string (read "id" thread) "thread/started params.thread.id"
