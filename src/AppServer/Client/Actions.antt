-- ===== src/AppServer/Client/Actions.antt =====
-- Everything that can happen to a client, as steps that may come in any order: the calls of its
-- user, the continuations of the calls that await, and what the transport reports.
use af_companion.Prelude.{String, Bool, false, Option, List, [], ◌∷◌}
use af_companion.Json.{Json}
use af_companion.AppServer.Types.{StableUserInput, StartThreadOptions, TurnCompletion}
use af_companion.AppServer.Errors.{Failure}
use af_companion.AppServer.Client.State.{Client, handle_transport_closed}
use af_companion.AppServer.Client.Messages.{read_message}
use af_companion.AppServer.Client.Calls
use af_companion.AppServer.Client.TurnCalls

-- `start_turn_rejected` is the `finally` of `startTurn` where the request was rejected, or where the
-- client was failed and its connection is now closed.
pub data Action : Type 0 where
  initialize initialize_sent : Action
  initialize_connected : String → Option String → String → Action
  initialize_answered : Json → Action
  initialize_failed : Failure → Action
  start_thread : StartThreadOptions → Action
  start_thread_answered : Json → Action
  resume_thread : String → Action
  resume_thread_answered : String → Json → Action
  materialize_completed : String → TurnCompletion → Action
  start_turn : String → List StableUserInput → Action
  start_turn_answered : String → Json → Action
  start_turn_rejected : String → Action
  steer_turn : String → String → List StableUserInput → Action
  interrupt_turn : String → String → Action
  send_failed : String → Failure → Action
  message : Json → Action
  incoming_ended : Action
  transport_closed : Bool → Option String → Action
  close close_done : Action

-- the end of the loop of `#readIncoming`
abbrev end_reading : Client → Client
end_reading c = record c { reading = false }

unfoldable pub step : Action → Client → Client
step initialize c = (Calls.initialize c).1
step initialize_sent c = Calls.initialize_sent c
step (initialize_connected n t v) c = (Calls.initialize_connected n t v c).1
step (initialize_answered r) c = (Calls.initialize_answered r c).1
step (initialize_failed f) c = (Calls.initialize_failed f c).1
step (start_thread o) c = (Calls.start_thread o c).1
step (start_thread_answered r) c = (Calls.start_thread_answered r c).1
step (resume_thread id) c = (Calls.resume_thread id c).1
step (resume_thread_answered id r) c = (Calls.resume_thread_answered id r c).1
step (materialize_completed id t) c = (Calls.materialize_completed id t c).1
step (start_turn id inputs) c = (TurnCalls.start_turn id inputs c).1
step (start_turn_answered id r) c = (TurnCalls.start_turn_answered id r c).1
step (start_turn_rejected id) c = TurnCalls.start_turn_finally id c
step (steer_turn id expected inputs) c = (TurnCalls.steer_turn id expected inputs c).1
step (interrupt_turn id turn_id) c = (TurnCalls.interrupt_turn id turn_id c).1
step (send_failed id f) c = TurnCalls.send_failed id f c
step (message value) c = read_message value c
step incoming_ended c = end_reading c
step (transport_closed clean reason) c = handle_transport_closed clean reason c
step close c = TurnCalls.close c
step close_done c = TurnCalls.close_done c

unfoldable pub steps : List Action → Client → Client
steps [] c = c
steps (a ∷ actions) c = steps actions (step a c)
