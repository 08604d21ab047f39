-- ===== src/AppServer/Client/Requests/Methods.antt =====
-- What each method does to the pending requests.
use af_companion.Prelude.{String, ◌⊎◌, Bool, Option, List, arith}
use af_companion.Json.{Json}
use af_companion.AppServer.Types.{
  AppServerEvent, StableUserInput, StartThreadOptions, TurnCompletion,
}
use af_companion.AppServer.Errors.{Failure}
use af_companion.AppServer.Client.State.{Client, emit_event, fail, handle_transport_closed}
use af_companion.AppServer.Client.Turns.{observe_in_flight_turn, on_thread_started, on_turn_started}
use af_companion.AppServer.Client.Notifications.{
  on_turn_completed, on_agent_message_delta, on_error,
}
use af_companion.AppServer.Client.Messages.{handle_response, handle_server_request}
use af_companion.AppServer.Client.Calls
use af_companion.AppServer.Client.TurnCalls
use af_companion.AppServer.Client.Requests.{SameRequests, AddedRequest, RemovedRequest, NoRequests}

pub fail-requests : (f : Failure) (c : Client) → SameRequests c (fail f c) ⊎ NoRequests c (fail f c)
unfolding fail
fail-requests f c = ground arith

pub start_turn-requests :
    (id : String) (inputs : List StableUserInput) (c : Client)
    → SameRequests c (TurnCalls.start_turn id inputs c).1
      ⊎ AddedRequest "turn/start" c (TurnCalls.start_turn id inputs c).1
unfolding TurnCalls.start_turn
start_turn-requests id inputs c = ground arith

pub steer_turn-requests :
    (id expected : String) (inputs : List StableUserInput) (c : Client)
    → SameRequests c (TurnCalls.steer_turn id expected inputs c).1
      ⊎ AddedRequest "turn/steer" c (TurnCalls.steer_turn id expected inputs c).1
unfolding TurnCalls.steer_turn
steer_turn-requests id expected inputs c = ground arith

pub interrupt_turn-requests :
    (id turn_id : String) (c : Client)
    → SameRequests c (TurnCalls.interrupt_turn id turn_id c).1
      ⊎ AddedRequest "turn/interrupt" c (TurnCalls.interrupt_turn id turn_id c).1
unfolding TurnCalls.interrupt_turn
interrupt_turn-requests id turn_id c = ground arith

pub start_thread-requests :
    (o : StartThreadOptions) (c : Client)
    → SameRequests c (Calls.start_thread o c).1
      ⊎ AddedRequest "thread/start" c (Calls.start_thread o c).1
unfolding Calls.start_thread
start_thread-requests o c = ground arith

pub resume_thread-requests :
    (id : String) (c : Client)
    → SameRequests c (Calls.resume_thread id c).1
      ⊎ AddedRequest "thread/resume" c (Calls.resume_thread id c).1
unfolding Calls.resume_thread
resume_thread-requests id c = ground arith

pub initialize_connected-requests :
    (n : String) (t : Option String) (v : String) (c : Client)
    → SameRequests c (Calls.initialize_connected n t v c).1
      ⊎ AddedRequest "initialize" c (Calls.initialize_connected n t v c).1
unfolding Calls.initialize_connected
initialize_connected-requests n t v c = ground arith

pub on_turn_completed-requests :
    (t : TurnCompletion) (c : Client) → SameRequests c (on_turn_completed t c).1
unfolding on_turn_completed
on_turn_completed-requests t c = ground arith

pub start_turn_accepted-requests :
    (id t : String) (c : Client)
    → SameRequests c (TurnCalls.start_turn_finally id (TurnCalls.start_turn_accepted id t c))
unfolding TurnCalls.start_turn_accepted TurnCalls.start_turn_finally
start_turn_accepted-requests id t c = ground arith

pub start_turn_finally-requests :
    (id : String) (c : Client) → SameRequests c (TurnCalls.start_turn_finally id c)
unfolding TurnCalls.start_turn_finally
start_turn_finally-requests id c = ground arith

pub handle_response-requests :
    (raw : Json) (id : String) (message : List (String × Json)) (c : Client)
    → SameRequests c (handle_response raw id message c)
      ⊎ RemovedRequest id c (handle_response raw id message c)
unfolding handle_response
handle_response-requests raw id message c = ground arith

pub send_failed-requests :
    (id : String) (f : Failure) (c : Client)
    → SameRequests c (TurnCalls.send_failed id f c)
      ⊎ RemovedRequest id c (TurnCalls.send_failed id f c)
unfolding TurnCalls.send_failed
send_failed-requests id f c = ground arith

pub close-requests :
    (c : Client) → SameRequests c (TurnCalls.close c) ⊎ NoRequests c (TurnCalls.close c)
unfolding TurnCalls.close
close-requests c = ground arith

pub handle_transport_closed-requests :
    (clean : Bool) (reason : Option String) (c : Client)
    → SameRequests c (handle_transport_closed clean reason c)
      ⊎ NoRequests c (handle_transport_closed clean reason c)
unfolding handle_transport_closed
handle_transport_closed-requests clean reason c = ground arith

module _ (c : Client) where
  pub emit_event-requests : (e : AppServerEvent) → SameRequests c (emit_event e c)
  unfolding emit_event
  emit_event-requests e = ground arith

  pub on_agent_message_delta-requests : (p : Json) → SameRequests c (on_agent_message_delta p c).1
  unfolding on_agent_message_delta
  on_agent_message_delta-requests p = ground arith

  pub on_error-requests : (p : Json) → SameRequests c (on_error p c).1
  unfolding on_error
  on_error-requests p = ground arith

  pub on_thread_started-requests : (id : String) → SameRequests c (on_thread_started id c).1
  unfolding on_thread_started
  on_thread_started-requests id = ground arith

  pub on_turn_started-requests : (id t : String) → SameRequests c (on_turn_started (id, t) c).1
  unfolding on_turn_started observe_in_flight_turn
  on_turn_started-requests id t = ground arith

  pub handle_server_request-requests :
      (raw : Json) (method : String) → SameRequests c (handle_server_request raw method c)
  unfolding handle_server_request
  handle_server_request-requests raw method = ground arith
