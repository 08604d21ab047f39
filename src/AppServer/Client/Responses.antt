-- ===== src/AppServer/Client/Responses.antt =====
-- Responses, the requests that they answer, and completions that come again.
use text.Mathlib.TextLemmas
use af_companion.Prelude.{
  String, ◌≡◌, sym, ap, subst, ◌∙◌, inl, inr, Bool, true, false, Option, none, some, List, arith,
  eq_refl,
}
use af_companion.Prelude.StringMap.{get, contains, has, get-put, contains-add}
use af_companion.Json.{Json}
use af_companion.AppServer.Types.{TurnCompletion, ThreadState, active, local}
use af_companion.AppServer.Errors.{Failure, Result, ok, ◌+++◌}
use af_companion.AppServer.Client.State.{Client, turn_key, fail, handle_transport_closed}
use af_companion.AppServer.Client.Turns.{wait_for_turn}
use af_companion.AppServer.Client.Notifications.{same_outcome, on_turn_completed}
use af_companion.AppServer.Client.Messages.{handle_response}
use af_companion.AppServer.Client.History.{evict-put}
use af_companion.AppServer.Client.History.Completion.{on_turn_completed-cases}
use af_companion.AppServer.Client.TurnCalls.{
  started_turn, other_observed, start_turn_answered, start_turn_after, start_turn_checked,
  start_turn_accepted, start_turn_finally,
}

-- The key of a turn is not injective where an id holds a colon: two turns of two threads share it.
pub turn_key-collision :
    (a b t : String) → turn_key (a +++ ":" +++ b) t ≡ turn_key a (b +++ ":" +++ t)
unfolding turn_key
turn_key-collision a b t =
    TextLemmas.append_assoc a (":" +++ b) (":" +++ t)
    ∙ ap (λ s. a +++ s) (TextLemmas.append_assoc ":" b (":" +++ t))

-- A response to no pending request settles nothing, and leaves the pending requests as they are.
pub handle_response-unknown :
    (raw : Json) (id : String) (message : List (String × Json)) (c : Client)
    → get id c.pending ≡ none
    → ((handle_response raw id message c).effects ≡ c.effects)
      × ((handle_response raw id message c).pending ≡ c.pending)
unfolding handle_response
handle_response-unknown raw id message c e = (ground arith, ground arith)

same_outcome_refl : (t : TurnCompletion) → same_outcome t t ≡ true
same_outcome_refl t =
    elim t.error as (λ x. same_outcome (record t { error = x }) (record t { error = x }) ≡ true) [
      | none ↦ ground arith
      | some m ↦ ground (arith, eq_refl m)
    ]

on_turn_completed-recorded :
    (r t : TurnCompletion) (c : Client)
    → get (turn_key t.thread_id t.turn_id) c.terminal_turns ≡ some r
    → same_outcome r t ≡ true
    → on_turn_completed t c ≡ (ok tt, c)
unfolding on_turn_completed
on_turn_completed-recorded r t c e same = ground arith

-- A completion that the client has taken once changes nothing when it comes again.
pub on_turn_completed_idempotent :
    (t : TurnCompletion) (c d : Client)
    → on_turn_completed t c ≡ (ok tt, d)
    → on_turn_completed t d ≡ (ok tt, d)
on_turn_completed_idempotent t c d e =
    let after : (on_turn_completed t c).1 ≡ d = ap (λ (r : Result (Unit {0}) × Client). r.1) e in
    elim (on_turn_completed-cases t c) [
      | inl same ↦
          subst (λ x. on_turn_completed t x ≡ (ok tt, x)) after
            (rw same (
              e
              ∙ ap (λ (x : Client). let y : Result (Unit {0}) × Client = (ok tt, x) in y)
                  (sym after ∙ same)))
      | inr r ↦
          subst (λ x. on_turn_completed t x ≡ (ok tt, x)) after
            (on_turn_completed-recorded t t (on_turn_completed t c).1
              (rw r.turns (evict-put _ t c.terminal_turns c.truncated r.fresh))
              (same_outcome_refl t))
    ]

fail-handled : (f : Failure) (c : Client) → c.failure_handled ≡ true → fail f c ≡ c
unfolding fail
fail-handled f c h = ground arith

handle_transport_closed-handled :
    (clean : Bool) (r : Option String) (c : Client)
    → c.failure_handled ≡ true
    → handle_transport_closed clean r c ≡ c
unfolding handle_transport_closed
handle_transport_closed-handled clean r c h = ground arith

-- A good answer to turn/start may be acted on after a failure was handled, where the thread is
-- detached, no other turn was observed, and the turn has not ended: the call then succeeds, marks
-- the turn as active, and waits for it, and neither a failure nor the closing of the transport that
-- comes after does anything to reject the waiter.
pub start_turn_answered_late :
    (id turn_id reason : String) (result : Json) (c : Client)
    → c.failure_handled ≡ true
    → started_turn result ≡ ok turn_id
    → other_observed (get id c.starting) turn_id ≡ none
    → get id c.thread_states ≡ some (ThreadState.detached reason)
    → has (turn_key id turn_id) c.terminal_turns ≡ false
    → (d : Client) × (start_turn_answered id result c ≡ (ok turn_id, d))
      × (get id d.thread_states ≡ some (active turn_id local false))
      × (contains (turn_key id turn_id) d.turn_waiters ≡ true)
      × ((f : Failure) → fail f d ≡ d)
      × ((clean : Bool) (r : Option String) → handle_transport_closed clean r d ≡ d)
unfolding start_turn_answered start_turn_after start_turn_checked start_turn_accepted
    start_turn_finally wait_for_turn
start_turn_answered_late id turn_id reason result c handled answer free gone new = (
  start_turn_finally id (start_turn_accepted id turn_id c),
  ground arith,
  ground (arith, get-put id id (active turn_id local false) c.thread_states, eq_refl id),
  ground (
    arith,
    contains-add (turn_key id turn_id) (turn_key id turn_id) c.turn_waiters,
    eq_refl (turn_key id turn_id),
  ),
  λ f. fail-handled f _ (ground arith),
  λ clean r. handle_transport_closed-handled clean r _ (ground arith),
)
