-- ===== src/AppServer/Client/Messages.antt =====
-- `#handleMessage`, `#handleResponse`, `#handleServerRequest` and the loop of `#readIncoming`.
use af_companion.Prelude.{
  String, Bool, true, false, Option, none, some, List, [], ◌∷◌, if◌then◌else◌,
}
use af_companion.Prelude.StringMap
use af_companion.Prelude.StringMap.{has}
use af_companion.Json.{Json, num, str, obj, end, field, read}
use af_companion.AppServer.Types.{unknown_response, unsupported_server_request}
use af_companion.AppServer.Errors.{Failure, protocol_error, request_error, Result, ok, throw, ◌+++◌}
use af_companion.AppServer.Errors
use af_companion.AppServer.Wire.{require_record, require_string}
use af_companion.AppServer.Client.State.{
  Client, Effect, sent, resolved, rejected, Exec, emit_event, perform, fail,
}
use af_companion.AppServer.Client.Notifications.{handle_notification}

-- `String(message.id)`, where the id is a string or a number
abbrev pub id_text : Json → Option String
id_text (str s) = some s
id_text (num s) = some s
id_text _ = none

abbrev pub method_text : Json → Option String
method_text (str s) = some s
method_text _ = none

abbrev require_number : Json → String → Result String
require_number (num code) label = ok code
require_number _ label = throw (protocol_error (label +++ " must be a number"))

-- what is caught is the reason too
abbrev collapse : Result Failure → Failure
collapse (ok f) = f
collapse (throw f) = f

-- the reason with which a request is rejected, when its response has an `error`
unfoldable pub response_failure : String → Json → Failure
unfolding require_record require_string read
response_failure method value = collapse (
    Errors.◌>>=◌ (require_record value (method +++ " error")) λ error.
      Errors.◌>>=◌ (require_number (read "code" error) (method +++ " error.code")) λ code.
        Errors.◌>>=◌ (require_string (read "message" error) (method +++ " error.message"))
          λ message. ok (request_error method code message (read "data" error)))

abbrev pub exactly_one : String → Failure
exactly_one m =
    protocol_error ("response for " +++ m +++ " must contain exactly one of result or error")

-- what settles a request, from the fields of its response
unfoldable pub response_effect : String → String → List (String × Json) → Effect
unfolding response_failure
response_effect id method message =
    if has "result" message
    then (if has "error" message
        then rejected id (exactly_one method)
        else resolved id (read "result" message))
    else if has "error" message
    then rejected id (response_failure method (read "error" message))
    else rejected id (exactly_one method)

respond : Option String → Json → String → List (String × Json) → Client → Client
unfolding response_effect perform emit_event
respond none raw id message c = emit_event (unknown_response raw) c
respond (some method) raw id message c =
    perform (response_effect id method message ∷ [])
      (record c { pending = StringMap.delete id c.pending })

-- `#handleResponse`, with the id as it came and as a text
unfoldable pub handle_response : Json → String → List (String × Json) → Client → Client
unfolding respond
handle_response raw id message c = respond (StringMap.get id c.pending) raw id message c

abbrev reply_effect : Bool → Json → String → List Effect
reply_effect false raw method = []
reply_effect true raw method =
    sent (
      obj (
        field "id" raw (
          field "error"
            (obj (
              field "code" (num "-32601") (
                field "message" (str ("Client does not support server request: " +++ method)) end)))
            end)))
    ∷ []

unfoldable pub handle_server_request : Json → String → Client → Client
unfolding emit_event perform
handle_server_request raw method c =
    perform (reply_effect c.connected raw method) (emit_event (unsupported_server_request method) c)

unfoldable pub dispatch : Option String → Option String → List (String × Json) → Exec (Unit {0})
unfolding read
dispatch (some method) (some id) message c =
    (ok tt, handle_server_request (read "id" message) method c)
dispatch (some method) none message c = handle_notification method (read "params" message) c
dispatch none (some id) message c = (ok tt, handle_response (read "id" message) id message c)
dispatch none none message c =
    (throw (protocol_error "App Server message must be a request, response, or notification"), c)

abbrev pub handle_fields : Result (List (String × Json)) → Exec (Unit {0})
handle_fields (throw f) c = (throw f, c)
handle_fields (ok message) c =
    dispatch (method_text (read "method" message)) (id_text (read "id" message)) message c

unfoldable pub handle_message : Json → Exec (Unit {0})
unfolding dispatch require_record
handle_message value c = handle_fields (require_record value "App Server message") c

abbrev pub caught : Result (Unit {0}) × Client → Client
caught (ok _, c) = c
caught (throw f, c) = fail f (record c { reading = false })

-- One round of the loop: what the handler throws ends the loop and fails the client.
unfoldable pub read_message : Json → Client → Client
read_message value c = if c.reading then caught (handle_message value c) else c
