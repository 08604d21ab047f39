-- ===== src/Bridge/Rollback.antt =====
-- How long the lists of records can grow through a mutation, also where it is rolled back.
use af_companion.Prelude.{◌-◌, ◌≤◌, arith, List, length, length-drop, inl, inr, Bool-cases}
use af_companion.Bridge.Results.{Result, ok, throw}
use af_companion.Bridge.State.{State, Bridge}
use af_companion.Bridge.Platform.{Config, Env}
use af_companion.Bridge.Housekeeping.{housekeeping}
use af_companion.Bridge.Mutate.{max_records, trim, trim_state, Mutation, commit, mutate}

-- the prompt receipts and the activities are at most 512 each
abbrev pub IsBounded : State → Type 0
IsBounded s = (length s.prompt_receipts ≤ max_records) × (length s.activities ≤ max_records)

trim-length-le : {A : Type 0} (xs : List A) → length (trim max_records xs) ≤ max_records
unfolding trim
trim-length-le xs = omega (arith, length-drop (length xs - max_records) xs)

commit-IsBounded :
    {A : Type 0} (env : Env) (previous : State) (b : Bridge) (r : Result (A × Bridge))
    → IsBounded previous
    → IsBounded (commit env previous b r).1.state
unfolding commit trim_state
commit-IsBounded env previous b (throw f) h = h
commit-IsBounded env previous b (ok (a, c)) h = elim (Bool-cases env.written) [
  | inl w ↦ rw w (trim-length-le c.state.prompt_receipts, trim-length-le c.state.activities)
  | inr w ↦ rw w h
]

pub mutate-IsBounded :
    {A : Type 0} (env : Env) (config : Config) (body : Mutation A) (b : Bridge)
    → IsBounded b.state
    → IsBounded (mutate env config body b).1.state
unfolding mutate
mutate-IsBounded env config body b h =
    let started = housekeeping env config b in commit-IsBounded env b.state started (body started) h
