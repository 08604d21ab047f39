-- ===== src/AppServer/Wire/RoundTrip.antt =====
-- The notification of a turn's end, written and read.
use af_companion.Prelude.{String, ◌≡◌, ◌≢◌, refl, ap, Option, none, some, arith, eq_iff}
use af_companion.Json.{Json, undefined, null, str, obj, end, field, fields, read}
use af_companion.AppServer.Types.{TerminalTurnStatus, completed, interrupted, TurnCompletion}
use af_companion.AppServer.Errors.{ok, >>=-eq-ok}
use af_companion.AppServer.Wire.{
  require_record, require_string, require_terminal_status, parse_turn_error,
  parse_turn_completed_notification,
}

abbrev pub status_name : TerminalTurnStatus → String
status_name completed = "completed"
status_name interrupted = "interrupted"
status_name TerminalTurnStatus.failed = "failed"

abbrev pub error_json : Option String → Json
error_json none = null
error_json (some m) = obj (field "message" (str m) end)

-- the parameters of the notification that a server sends for a completion
abbrev pub completion_json : TurnCompletion → Json
completion_json t = obj (
    field "threadId" (str t.thread_id) (
      field "turn"
        (obj (
          field "id" (str t.turn_id)
            (field "status" (str (status_name t.status)) (field "error" (error_json t.error) end))))
        end))

-- The ids and the message of the error are not empty.
pub record IsNamed (t : TurnCompletion) : Type 0 where
  pub thread : t.thread_id ≢ ""
  pub turn : t.turn_id ≢ ""
  pub message : t.error ≢ some ""

require_string_of_ne : (s label : String) → s ≢ "" → require_string (str s) label ≡ ok s
unfolding require_string
require_string_of_ne s label h = ground (arith, eq_iff s "")

require_terminal_status-name :
    (s : TerminalTurnStatus) → require_terminal_status (str (status_name s)) ≡ ok s
unfolding require_terminal_status
require_terminal_status-name completed = refl
require_terminal_status-name interrupted = refl
require_terminal_status-name TerminalTurnStatus.failed = refl

parse_turn_error-json : (e : Option String) → e ≢ some "" → parse_turn_error (error_json e) ≡ ok e
unfolding parse_turn_error
parse_turn_error-json none h = refl
parse_turn_error-json (some m) h = rw (require_string_of_ne m _ (λ e. h (ap some e)))

-- A completion whose ids and error message are not empty is read back from the parameters of its
-- notification as it was.
pub parse_completion_json :
    (t : TurnCompletion) → IsNamed t → parse_turn_completed_notification (completion_json t) ≡ ok t
unfolding parse_turn_completed_notification
parse_completion_json t h = rw (
  require_string_of_ne t.thread_id _ h.thread,
  require_string_of_ne t.turn_id _ h.turn,
  require_terminal_status-name t.status,
  parse_turn_error-json t.error h.message,
)

require_string-ne : (v : Json) (label s : String) → require_string v label ≡ ok s → s ≢ ""
unfolding require_string
require_string-ne (str x) label s h = ground (arith, eq_iff x "")
require_string-ne _ label s h = cc

parse_turn_error-ne : (v : Json) (e : Option String) → parse_turn_error v ≡ ok e → e ≢ some ""
unfolding parse_turn_error
parse_turn_error-ne null e h = cc
parse_turn_error-ne undefined e h = cc
parse_turn_error-ne (obj fs) e h =
    let (m, read_it, same) = >>=-eq-ok (require_string (read "message" (fields fs)) _) _ h in
    λ empty. require_string-ne _ _ m read_it (cc)
parse_turn_error-ne _ e h = cc

-- What is read from any message has ids and an error message that are not empty.
pub parse_turn_completed_notification-IsNamed :
    (value : Json) (t : TurnCompletion) → parse_turn_completed_notification value ≡ ok t → IsNamed t
unfolding parse_turn_completed_notification
parse_turn_completed_notification-IsNamed value t e =
    let (params, e1, f1) = >>=-eq-ok (require_record value "turn/completed params") _ e in
    let (thread_id, e2, f2) =
      >>=-eq-ok (require_string (read "threadId" params) "turn/completed params.threadId") _ f1 in
    let (turn, e3, f3) =
      >>=-eq-ok (require_record (read "turn" params) "turn/completed params.turn") _ f2 in
    let (turn_id, e4, f4) =
      >>=-eq-ok (require_string (read "id" turn) "turn/completed params.turn.id") _ f3 in
    let (status, e5, f5) = >>=-eq-ok (require_terminal_status (read "status" turn)) _ f4 in
    let (error, e6, f6) = >>=-eq-ok (parse_turn_error (read "error" turn)) _ f5 in
    record {
      thread = λ x. require_string-ne _ _ thread_id e2 (cc);
      turn = λ x. require_string-ne _ _ turn_id e4 (cc);
      message = λ x. parse_turn_error-ne _ error e6 (cc);
    }
