-- ===== src/AppServer/Client/Turns.antt =====
-- What the client does on each notification of the App Server about threads and turns.
use af_companion.Prelude.{
  ℕ, ◌+◌, String, Bool, true, false, not, ◌&&◌, Option, none, some, List, [], ◌∷◌, ltb, length,
  ◌==◌, if◌then◌else◌,
}
use af_companion.Prelude.StringMap
use af_companion.Prelude.StringMap.{has}
use af_companion.AppServer.Types.{
  TurnCompletion, Owner, external, unknown, ThreadState, unmaterialized, idle, active,
  thread_started, turn_started,
}
use af_companion.AppServer.Errors.{Failure, protocol_error, Result, ok, throw, ◌+++◌}
use af_companion.AppServer.Client.State.{Client, turn_resolved, Exec, emit_event, perform, turn_key}

abbrev pub max_detailed_terminal_turns : ℕ
max_detailed_terminal_turns = 64

-- `state.materialized` of an idle or an active thread, and false of any other
abbrev pub materialized_of : Option ThreadState → Bool
materialized_of (some (idle m)) = m
materialized_of (some (active t o m)) = m
materialized_of _ = false

-- the turn of an active thread
abbrev pub active_turn : Option ThreadState → Option String
active_turn (some (active t o m)) = some t
active_turn _ = none

-- `previous?.type === "active" && previous.turnId !== turnId`: the turn that is in the way
abbrev pub conflicting : Option ThreadState → String → Option String
conflicting (some (active t o m)) turn_id = if t == turn_id then none else some t
conflicting _ turn_id = none

unfoldable pub remove : String → List String → List String
remove k [] = []
remove k (j ∷ s) = let rest = remove k s in if j == k then rest else j ∷ rest

-- `#waitForTurn`: no deferred is made for a turn that has ended, nor a second one for one key
unfoldable pub wait_for_turn : String → String → Client → Client
wait_for_turn thread_id turn_id c =
    let key = turn_key thread_id turn_id in
    if has key c.terminal_turns
    then c
    else record c { turn_waiters = StringMap.add key c.turn_waiters }

mark : Option ThreadState → Bool → String → Client → Client
mark (some (active t o m)) materialized id c =
    if materialized && not m
    then record c { thread_states = StringMap.put id (active t o true) c.thread_states }
    else c
mark (some (idle m)) materialized id c =
    if materialized && not m
    then record c { thread_states = StringMap.put id (idle true) c.thread_states }
    else c
mark (some (ThreadState.detached r)) materialized id c = c
mark _ materialized id c = record c {
  thread_states =
      StringMap.put id (if materialized then idle true else unmaterialized) c.thread_states;
}

-- `#markThreadMaterialized`
unfoldable pub mark_thread_materialized : String → Bool → Client → Client
unfolding mark
mark_thread_materialized id materialized c =
    mark (StringMap.get id c.thread_states) materialized id c

-- `#observeInFlightTurn`: the entry of `starting` is the object that the caller passes
observe : Option (Option String) → String → String → Exec (Unit {0})
observe none thread_id turn_id c = (ok tt, c)
observe (some none) thread_id turn_id c =
    (ok tt, record c { starting = StringMap.put thread_id (some turn_id) c.starting })
observe (some (some seen)) thread_id turn_id c =
    if seen == turn_id
    then (ok tt, record c { starting = StringMap.put thread_id (some turn_id) c.starting })
    else (
      throw (
          protocol_error (
            "observed turn " +++ turn_id +++ " after " +++ seen +++ " during turn/start for thread "
            +++ thread_id)),
      c,
    )

unfoldable pub observe_in_flight_turn : String → String → Exec (Unit {0})
unfolding observe
observe_in_flight_turn thread_id turn_id c =
    observe (StringMap.get thread_id c.starting) thread_id turn_id c

-- The loop of `#rememberCompletion`. Keys are distinct, so to delete the oldest is to take the tail.
unfoldable pub evict :
    List (String × TurnCompletion) → List String → List (String × TurnCompletion) × List String
evict [] truncated = ([], truncated)
evict ((key, t) ∷ turns) truncated =
    let rest = evict turns (StringMap.add t.thread_id truncated) in
    if ltb max_detailed_terminal_turns (length turns + 1)
    then rest
    else ((key, t) ∷ turns, truncated)

abbrev resolve_waiter : Bool → String → TurnCompletion → Client → Client
resolve_waiter true key t c =
    perform (turn_resolved key t ∷ []) (record c { turn_waiters = remove key c.turn_waiters })
resolve_waiter false key t c = c

unfoldable pub remember_completion : TurnCompletion → Client → Client
unfolding evict perform remove
remember_completion t c =
    let key = turn_key t.thread_id t.turn_id in
    let (turns, truncated) = evict (StringMap.put key t c.terminal_turns) c.truncated in
    resolve_waiter (StringMap.contains key c.turn_waiters) key t
      (record c { terminal_turns = turns; truncated = truncated })

-- "thread/started"
unfoldable pub on_thread_started : String → Exec (Unit {0})
unfolding emit_event
on_thread_started id c =
    let c1 =
      if has id c.thread_states
      then c
      else record c { thread_states = StringMap.put id unmaterialized c.thread_states } in
    (ok tt, emit_event (thread_started id) c1)

abbrev owner_of : Option ThreadState → Bool → Owner
owner_of (some (active t o m)) in_flight = o
owner_of _ in_flight = if in_flight then unknown else external

abbrev pub conflict_failure : String → String → String → String → Failure
conflict_failure what turn_id other thread_id = protocol_error (
    what +++ " for " +++ turn_id +++ " conflicts with active turn " +++ other +++ " on thread "
    +++ thread_id)

abbrev pub after : {A : Type 0} → Result A × Client → (Client → Client) → Result A × Client
after (ok a, c) f = (ok a, f c)
after (throw e, c) f = (throw e, c)

-- "turn/started", past its two checks
start_observed : String → String → Exec (Unit {0})
unfolding emit_event observe_in_flight_turn
start_observed thread_id turn_id c =
    let previous = StringMap.get thread_id c.thread_states in
    let owner = owner_of previous (has thread_id c.starting) in
    after (observe_in_flight_turn thread_id turn_id c) λ c1.
      emit_event (turn_started thread_id turn_id owner) (record c1 {
        thread_states =
            StringMap.put thread_id (active turn_id owner (materialized_of previous))
              c1.thread_states;
      })

start_unless : Option String → String → String → Exec (Unit {0})
unfolding start_observed
start_unless (some other) thread_id turn_id c =
    (throw (conflict_failure "turn/started" turn_id other thread_id), c)
start_unless none thread_id turn_id c = start_observed thread_id turn_id c

unfoldable pub on_turn_started : String × String → Exec (Unit {0})
unfolding start_unless
on_turn_started (thread_id, turn_id) c =
    if has (turn_key thread_id turn_id) c.terminal_turns
    then (
      throw (
          protocol_error
            ("turn/started observed terminal turn " +++ turn_id +++ " for thread " +++ thread_id)),
      c,
    )
    else start_unless (conflicting (StringMap.get thread_id c.thread_states) turn_id) thread_id
        turn_id c
