-- ===== src/AppServer/Client/History/Completion.antt =====
-- What a completion does to the record of ended turns.
use af_companion.Prelude.{
  ◌≤◌, String, ◌≡◌, ◌⊎◌, inl, inr, ap, true, none, some, List, length, arith, eq_iff,
}
use af_companion.Prelude.StringMap.{get, put, contains, get-put}
use af_companion.AppServer.Types.{TurnCompletion}
use af_companion.AppServer.Client.State.{Client, turn_key}
use af_companion.AppServer.Client.Turns.{
  max_detailed_terminal_turns, conflicting, evict, remember_completion,
}
use af_companion.AppServer.Client.Notifications.{settled_state, on_turn_completed}
use af_companion.AppServer.Client.History.{SameHistory, length-evict, evict-gaps, evict-kept}

-- What a step keeps of the history.
pub record Remembers (c d : Client) : Type 0 where
  pub bounded :
      length c.terminal_turns ≤ max_detailed_terminal_turns
      → length d.terminal_turns ≤ max_detailed_terminal_turns
  pub kept :
      (key : String) (t : TurnCompletion)
      → get key c.terminal_turns ≡ some t
      → (get key d.terminal_turns ≡ some t) ⊎ (contains t.thread_id d.truncated ≡ true)
  pub gaps : (id : String) → contains id c.truncated ≡ true → contains id d.truncated ≡ true

pub Remembers-same : {c d : Client} → SameHistory c d → Remembers c d
Remembers-same {c} {d} s = record {
  bounded = λ h. rw s.turns h;
  kept = λ key t h. inl (rw s.turns h);
  gaps = λ id h. rw s.gaps h;
}

pub Remembers-then : {c d e : Client} → Remembers c d → SameHistory d e → Remembers c e
Remembers-then {c} {d} {e} r s = record {
  bounded = λ h. rw s.turns (r.bounded h);
  kept = λ key t h. rw (s.turns, s.gaps) (r.kept key t h);
  gaps = λ id h. rw s.gaps (r.gaps id h);
}

remember_completion-turns :
    (t : TurnCompletion) (c : Client)
    → ((remember_completion t c).terminal_turns
        ≡ (evict (put (turn_key t.thread_id t.turn_id) t c.terminal_turns) c.truncated).0)
      × ((remember_completion t c).truncated
          ≡ (evict (put (turn_key t.thread_id t.turn_id) t c.terminal_turns) c.truncated).1)
unfolding remember_completion
remember_completion-turns t c = ground arith

-- The client after a completion that was not seen before.
pub record IsRecorded (t : TurnCompletion) (c d : Client) : Type 0 where
  pub fresh : get (turn_key t.thread_id t.turn_id) c.terminal_turns ≡ none
  pub free : conflicting (get t.thread_id c.thread_states) t.turn_id ≡ none
  pub turns :
      d.terminal_turns
      ≡ (evict (put (turn_key t.thread_id t.turn_id) t c.terminal_turns) c.truncated).0
  pub gaps :
      d.truncated ≡ (evict (put (turn_key t.thread_id t.turn_id) t c.terminal_turns) c.truncated).1
  pub threads :
      d.thread_states
      ≡ put t.thread_id (settled_state t (get t.thread_id c.thread_states)) c.thread_states

-- A completion changes nothing, or is recorded for the first time.
pub on_turn_completed-cases :
    (t : TurnCompletion) (c : Client)
    → ((on_turn_completed t c).1 ≡ c) ⊎ IsRecorded t c (on_turn_completed t c).1
unfolding on_turn_completed
on_turn_completed-cases t c = ground arith

recorded-kept :
    (key : String) (t : TurnCompletion) (k : String) (u : TurnCompletion)
    (turns : List (String × TurnCompletion)) (gaps : List String)
    → get key turns ≡ none
    → get k turns ≡ some u
    → (get k (evict (put key t turns) gaps).0 ≡ some u)
      ⊎ (contains u.thread_id (evict (put key t turns) gaps).1 ≡ true)
recorded-kept key t k u turns gaps fresh h =
    evict-kept k u (put key t turns) gaps (ground (arith, get-put key k t turns, eq_iff key k))

pub on_turn_completed-Remembers :
    (t : TurnCompletion) (c : Client) → Remembers c (on_turn_completed t c).1
on_turn_completed-Remembers t c = elim (on_turn_completed-cases t c) [
  | inl same ↦ Remembers-same (record {
    turns = ap (λ (d : Client). d.terminal_turns) same;
    gaps = ap (λ (d : Client). d.truncated) same;
  })
  | inr r ↦ record {
    bounded = λ h. rw r.turns (length-evict _ c.truncated);
    kept = λ k u h.
        rw (r.turns, r.gaps) (recorded-kept _ t k u c.terminal_turns c.truncated r.fresh h);
    gaps = λ id h. rw r.gaps (evict-gaps id _ c.truncated h);
  }
]
