-- ===== src/AppServer/Client/History.antt =====
-- The record of ended turns, and what the eviction of the oldest does to it.
pub mod Completion
pub mod Steps
use af_companion.Prelude.{
  ◌≤◌, String, ◌≡◌, ◌≢◌, refl, ◌⊎◌, inl, inr, ap, Bool, true, false, Option, none, some, List, [],
  ◌∷◌, length, arith, eq_iff, eq_refl,
}
use af_companion.Prelude.StringMap
use af_companion.Prelude.StringMap.{get, put, contains, contains-add, get-put}
use af_companion.Json.{Json}
use af_companion.AppServer.Types.{TurnCompletion, AppServerEvent}
use af_companion.AppServer.Errors.{Failure}
use af_companion.AppServer.Wire.{parse_thread_id}
use af_companion.AppServer.Client.State.{
  Client, turn_key, emit_event, fail, handle_transport_closed,
}
use af_companion.AppServer.Client.Turns.{
  max_detailed_terminal_turns, conflicting, evict, remember_completion, wait_for_turn,
  mark_thread_materialized, observe_in_flight_turn, on_thread_started, on_turn_started,
}
use af_companion.AppServer.Client.Notifications.{
  settled_state, on_turn_completed, on_agent_message_delta, on_error,
}
use af_companion.AppServer.Client.Messages.{handle_response, handle_server_request}
use af_companion.AppServer.Client.Rules.{HandlerRules, read_message-rule, start_turn_answered-rule}
use af_companion.AppServer.Client.Calls
use af_companion.AppServer.Client.TurnCalls
use af_companion.AppServer.Client.Actions.{Action, step, steps}
use af_companion.AppServer.Client.Actions

-- Neither the record of ended turns nor the set of threads with gaps has changed.
pub record SameHistory (c d : Client) : Type 0 where
  pub turns : d.terminal_turns ≡ c.terminal_turns
  pub gaps : d.truncated ≡ c.truncated

pub fail-SameHistory : (f : Failure) (c : Client) → SameHistory c (fail f c)
unfolding fail
fail-SameHistory f c = ground arith

handle_transport_closed-SameHistory :
    (clean : Bool) (reason : Option String) (c : Client)
    → SameHistory c (handle_transport_closed clean reason c)
unfolding handle_transport_closed
handle_transport_closed-SameHistory clean reason c = ground arith

pub on_thread_started-SameHistory :
    (id : String) (c : Client) → SameHistory c (on_thread_started id c).1
unfolding on_thread_started
on_thread_started-SameHistory id c = ground arith

pub on_turn_started-SameHistory :
    (id turn_id : String) (c : Client) → SameHistory c (on_turn_started (id, turn_id) c).1
unfolding on_turn_started observe_in_flight_turn
on_turn_started-SameHistory id turn_id c = ground arith

pub on_agent_message_delta-SameHistory :
    (p : Json) (c : Client) → SameHistory c (on_agent_message_delta p c).1
unfolding on_agent_message_delta
on_agent_message_delta-SameHistory p c = ground arith

pub on_error-SameHistory : (p : Json) (c : Client) → SameHistory c (on_error p c).1
unfolding on_error
on_error-SameHistory p c = ground arith

wait_for_turn-SameHistory :
    (id turn_id : String) (c : Client) → SameHistory c (wait_for_turn id turn_id c)
unfolding wait_for_turn
wait_for_turn-SameHistory id turn_id c = ground arith

mark_thread_materialized-SameHistory :
    (id : String) (m : Bool) (c : Client) → SameHistory c (mark_thread_materialized id m c)
unfolding mark_thread_materialized
mark_thread_materialized-SameHistory id m c = ground arith

pub length-evict :
    (turns : List (String × TurnCompletion)) (gaps : List String)
    → length (evict turns gaps).0 ≤ max_detailed_terminal_turns
unfolding evict
length-evict [] gaps = omega arith
length-evict ((key, t) ∷ turns) gaps =
    ground (arith, length-evict turns (StringMap.add t.thread_id gaps))

pub evict-gaps :
    (id : String) (turns : List (String × TurnCompletion)) (gaps : List String)
    → contains id gaps ≡ true
    → contains id (evict turns gaps).1 ≡ true
unfolding evict
evict-gaps id [] gaps h = h
evict-gaps id ((key, t) ∷ turns) gaps h =
    ground (
      arith,
      contains-add t.thread_id id gaps,
      evict-gaps id turns (StringMap.add t.thread_id gaps),
    )

-- What is evicted leaves its thread in the set.
pub evict-kept :
    (k : String) (t : TurnCompletion) (turns : List (String × TurnCompletion)) (gaps : List String)
    → get k turns ≡ some t
    → (get k (evict turns gaps).0 ≡ some t) ⊎ (contains t.thread_id (evict turns gaps).1 ≡ true)
unfolding evict get
evict-kept k t [] gaps h = inl h
evict-kept k t ((key, u) ∷ turns) gaps h = ground (
  arith,
  contains-add u.thread_id u.thread_id gaps,
  eq_refl u.thread_id,
  evict-gaps u.thread_id turns (StringMap.add u.thread_id gaps),
  evict-kept k t turns (StringMap.add u.thread_id gaps),
)

-- The completion that was just put in last survives.
pub evict-put :
    (k : String) (t : TurnCompletion) (turns : List (String × TurnCompletion)) (gaps : List String)
    → get k turns ≡ none
    → get k (evict (put k t turns) gaps).0 ≡ some t
unfolding evict get put
evict-put k t [] gaps h = ground (arith, eq_refl k)
evict-put k t ((key, u) ∷ turns) gaps h =
    ground
      (arith, evict-put k t turns (StringMap.add u.thread_id gaps), get-put k k t turns, eq_refl k)
