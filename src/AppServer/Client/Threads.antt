-- ===== src/AppServer/Client/Threads.antt =====
-- The states of the threads, and what a step keeps of them.
pub mod Steps
use af_companion.Prelude.{
  String, ◌≡◌, ◌≢◌, refl, ◌⊎◌, inl, inr, Bool, true, false, Option, none, some, List, arith, eq_iff,
  Bool-cases, ap, ◌==◌,
}
use af_companion.Prelude.StringMap.{get, get-put}
use af_companion.Json.{Json}
use af_companion.AppServer.Types.{AppServerEvent, TurnCompletion, ThreadState, unmaterialized}
use af_companion.AppServer.Errors.{Failure, Result-cases}
use af_companion.AppServer.Wire.{parse_thread_id}
use af_companion.AppServer.Client.State.{Client, turn_key, emit_event, fail}
use af_companion.AppServer.Client.Turns.{
  materialized_of, active_turn, conflicting, wait_for_turn, mark_thread_materialized,
  observe_in_flight_turn, on_thread_started, on_turn_started,
}
use af_companion.AppServer.Client.Notifications.{
  on_turn_completed, on_agent_message_delta, on_error,
}
use af_companion.AppServer.Client.Messages.{handle_response, handle_server_request}
use af_companion.AppServer.Client.Rules.{HandlerRules, read_message-rule, start_turn_answered-rule}
use af_companion.AppServer.Client.History.{evict-put}
use af_companion.AppServer.Client.History.Completion.{IsRecorded, on_turn_completed-cases}
use af_companion.AppServer.Client.Calls
use af_companion.AppServer.Client.TurnCalls
use af_companion.AppServer.Client.Actions.{Action, step, steps}
use af_companion.AppServer.Client.Actions

-- what is known of a thread
abbrev pub state_of : String → Client → Option ThreadState
state_of id c = get id c.thread_states

abbrev pub SameThreads : Client → Client → Type 0
SameThreads c d = d.thread_states ≡ c.thread_states

pub fail-SameThreads : (f : Failure) (c : Client) → (fail f c).thread_states ≡ c.thread_states
unfolding fail
fail-SameThreads f c = ground arith

-- A thread that is materialized stays materialized, and its active turn stays active until its own
-- completion is recorded.
pub record KeepsThreads (c d : Client) : Type 0 where
  pub materialized :
      (id : String)
      → materialized_of (state_of id c) ≡ true
      → materialized_of (state_of id d) ≡ true
  pub active :
      (id t : String)
      → active_turn (state_of id c) ≡ some t
      → (active_turn (state_of id d) ≡ some t)
        ⊎ ((r : TurnCompletion) × (get (turn_key id t) d.terminal_turns ≡ some r)
            × (r.thread_id ≡ id)
            × (r.turn_id ≡ t))

pub KeepsThreads-same : {c d : Client} → d.thread_states ≡ c.thread_states → KeepsThreads c d
KeepsThreads-same {c} {d} e = record {
  materialized = λ id h. rw e h;
  active = λ id t h. inl (rw e h);
}

pub on_thread_started-KeepsThreads :
    (id : String) (c : Client) → KeepsThreads c (on_thread_started id c).1
unfolding on_thread_started emit_event
on_thread_started-KeepsThreads id c = record {
  materialized = λ j h. ground (arith, get-put id j unmaterialized c.thread_states, eq_iff id j);
  active = λ j t h. inl (ground (arith, get-put id j unmaterialized c.thread_states, eq_iff id j));
}

pub on_turn_started-KeepsThreads :
    (id turn_id : String) (c : Client) → KeepsThreads c (on_turn_started (id, turn_id) c).1
unfolding on_turn_started observe_in_flight_turn
on_turn_started-KeepsThreads id turn_id c = record {
  materialized = λ j h. grind (arith, get-put, eq_iff);
  active = λ j t h. inl (grind (arith, get-put, eq_iff));
}

recorded-active :
    (t : TurnCompletion) (c d : Client) (j u : String)
    → IsRecorded t c d
    → active_turn (state_of j c) ≡ some u
    → (active_turn (state_of j d) ≡ some u)
      ⊎ ((r : TurnCompletion) × (get (turn_key j u) d.terminal_turns ≡ some r)
          × (r.thread_id ≡ j)
          × (r.turn_id ≡ u))
recorded-active t c d j u r h = elim (Bool-cases (t.thread_id == j)) [
  | inl same ↦
      let here : t.thread_id ≡ j = (eq_iff _ _).0 same in
      let ended : t.turn_id ≡ u =
        ground (arith, r.free, ap (λ k. get k c.thread_states) here, eq_iff u t.turn_id) in
      inr (
        t,
        rw (r.turns, ← here, ← ended) (evict-put _ t c.terminal_turns c.truncated r.fresh),
        here,
        ended,
      )
  | inr other ↦ inl (rw (r.threads, get-put, other) h)
]

pub on_turn_completed-KeepsThreads :
    (t : TurnCompletion) (c : Client) → KeepsThreads c (on_turn_completed t c).1
on_turn_completed-KeepsThreads t c = elim (on_turn_completed-cases t c) [
  | inl same ↦ KeepsThreads-same (ap (λ (d : Client). d.thread_states) same)
  | inr r ↦ record {
    materialized = λ j h. rw (r.threads, get-put) (ground (arith, eq_iff t.thread_id j));
    active = λ j u h. recorded-active t c _ j u r h;
  }
]

pub mark_thread_materialized-KeepsThreads :
    (id : String) (m : Bool) (c : Client) → KeepsThreads c (mark_thread_materialized id m c)
unfolding mark_thread_materialized
mark_thread_materialized-KeepsThreads id m c = record {
  materialized = λ j h. grind (arith, get-put, eq_iff);
  active = λ j t h. inl (grind (arith, get-put, eq_iff));
}

pub start_turn_accepted-KeepsThreads :
    (id t : String) (c : Client)
    → conflicting (state_of id c) t ≡ none
    → KeepsThreads c (TurnCalls.start_turn_finally id (TurnCalls.start_turn_accepted id t c))
unfolding TurnCalls.start_turn_accepted TurnCalls.start_turn_finally wait_for_turn
start_turn_accepted-KeepsThreads id t c free = record {
  materialized = λ j h. grind (arith, get-put, eq_iff);
  active = λ j u h. inl (grind (arith, get-put, eq_iff));
}
