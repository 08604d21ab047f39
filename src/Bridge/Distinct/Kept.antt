-- ===== src/Bridge/Distinct/Kept.antt =====
-- Mutations and hooks keep the ids of sessions distinct.
use af_companion.Prelude.{arith, String, Option, none, some, inl, inr, Bool-cases}
use af_companion.Bridge.Results.{Result, ok, throw, Holds, Result-cases}
use af_companion.Bridge.State.{State, Bridge}
use af_companion.Bridge.Platform.{Capsule, Config, Env}
use af_companion.Bridge.Housekeeping.{housekeeping}
use af_companion.Bridge.Mutate.{Mutation, trim_state, commit, mutate}
use af_companion.Bridge.Hooks.{Proof, no_proof, lease, activation, HookInput}
use af_companion.Bridge.Consumption.{record_leased_hook}
use af_companion.Bridge.Tickets.{count_invalid}
use af_companion.Bridge.Entry.{
  is_rejected, activation_body, activate_parsed, activate, proves, handle_contained, handle_hook,
}
use af_companion.Bridge.Moves.Entry.{clean_lease-state}
use af_companion.Bridge.Distinct.Ids.{session_ids, HasDistinctSessions, Adds-IsDistinct}
use af_companion.Bridge.Distinct.Untouched.{SameSessions}
use af_companion.Bridge.Distinct.Changed.{SameIds, housekeeping-ids, record_leased_hook-ids}
use af_companion.Bridge.Distinct.Added.{AddsOne}
use af_companion.Bridge.Distinct.Claims.{activation_body-AddsOne}

-- what a body keeps distinct
abbrev pub Keeps : {A : Type 0} → Mutation A → Type 0
Keeps body =
    (b : Bridge) → HasDistinctSessions b.state → Holds (λ r. HasDistinctSessions r.1.state) (body b)

commit-sessions :
    {A : Type 0} (env : Env) (previous : State) (b : Bridge) (r : Result (A × Bridge))
    → HasDistinctSessions previous
    → Holds (λ x. HasDistinctSessions x.1.state) r
    → HasDistinctSessions (commit env previous b r).1.state
unfolding commit trim_state
commit-sessions env previous b (throw f) h k = h
commit-sessions env previous b (ok (a, c)) h k = elim (Bool-cases env.written) [
  | inl w ↦ rw w k
  | inr w ↦ rw w h
]

pub mutate-sessions :
    {A : Type 0} (env : Env) (config : Config) (body : Mutation A) (b : Bridge)
    → Keeps body
    → HasDistinctSessions b.state
    → HasDistinctSessions (mutate env config body b).1.state
unfolding mutate
mutate-sessions env config body b keeps h =
    let started = housekeeping env config b in
    commit-sessions env b.state started (body started) h
      (keeps started (rw (housekeeping-ids env config b) h))

adding :
    {A : Type 0} (b : Bridge) (r : Result (A × Bridge))
    → HasDistinctSessions b.state
    → Holds (AddsOne b) r
    → Holds (λ x. HasDistinctSessions x.1.state) r
adding b (throw f) h k = tt
adding b (ok x) h k = Adds-IsDistinct (session_ids b.state) (session_ids x.1.state) k h

keeping :
    {A : Type 0} (b : Bridge) (r : Result (A × Bridge))
    → HasDistinctSessions b.state
    → Holds (SameIds b) r
    → Holds (λ x. HasDistinctSessions x.1.state) r
keeping b (throw f) h k = tt
keeping b (ok x) h k = rw k h

untouched :
    {A : Type 0} (b : Bridge) (r : Result (A × Bridge))
    → HasDistinctSessions b.state
    → Holds (SameSessions b) r
    → Holds (λ x. HasDistinctSessions x.1.state) r
untouched b (throw f) h k = tt
untouched b (ok x) h k = rw k h

-- A body that leaves the sessions, or their ids, or adds a new one, in a mutation of the store.
pub untouched-mutate :
    {A : Type 0} (env : Env) (config : Config) (body : Mutation A) (b : Bridge)
    → ((c : Bridge) → Holds (SameSessions c) (body c))
    → HasDistinctSessions b.state
    → HasDistinctSessions (mutate env config body b).1.state
untouched-mutate env config body b same h =
    mutate-sessions env config body b (λ c d. untouched c (body c) d (same c)) h

pub keeping-mutate :
    {A : Type 0} (env : Env) (config : Config) (body : Mutation A) (b : Bridge)
    → ((c : Bridge) → Holds (SameIds c) (body c))
    → HasDistinctSessions b.state
    → HasDistinctSessions (mutate env config body b).1.state
keeping-mutate env config body b same h =
    mutate-sessions env config body b (λ c d. keeping c (body c) d (same c)) h

activate_parsed-sessions :
    (env : Env) (config : Config) (input : HookInput) (raw cwd : String) (capsule : Option Capsule)
    (b : Bridge)
    → HasDistinctSessions b.state
    → HasDistinctSessions (activate_parsed env config input raw cwd capsule b).1.state
unfolding activate_parsed count_invalid
activate_parsed-sessions env config input raw cwd none b h = h
activate_parsed-sessions env config input raw cwd (some capsule) b h =
    let body = activation_body env config input raw cwd capsule in
    let run = mutate env config body b in
    let state = clean_lease-state (env.sha256 input.session_id) b run.0 run.1 in
    let kept : HasDistinctSessions run.1.state =
      mutate-sessions env config body b
        (λ c d. adding c (body c) d (activation_body-AddsOne env config input raw cwd capsule c))
        h in
    elim (Bool-cases (is_rejected input.event capsule)) [
      | inl e ↦ rw e h
      | inr e ↦ rw (e, state) kept
    ]

handle_contained-sessions :
    (env : Env) (config : Config) (input : HookInput) (cwd : String) (proof : Proof) (b : Bridge)
    → HasDistinctSessions b.state
    → HasDistinctSessions (handle_contained env config input cwd proof b).1.state
unfolding handle_contained activate count_invalid
handle_contained-sessions env config input cwd no_proof b h = h
handle_contained-sessions env config input cwd (activation raw) b h =
    activate_parsed-sessions env config input raw cwd (env.parse_capsule raw) b h
handle_contained-sessions env config input cwd (lease id token) b h =
    elim (Bool-cases (proves env input cwd id token b)) [
      | inl e ↦ rw e (
          keeping-mutate env config (record_leased_hook env input.session_id input) b
            (record_leased_hook-ids env input.session_id input) h)
      | inr e ↦ rw e h
    ]

pub handle_hook-sessions :
    (env : Env) (config : Config) (input : HookInput) (b : Bridge)
    → HasDistinctSessions b.state
    → HasDistinctSessions (handle_hook env config input b).1.state
unfolding handle_hook
handle_hook-sessions env config input b h = elim (Result-cases (env.contained_cwd input.cwd)) [
  | inl (cwd, e) ↦
      let handled = handle_contained-sessions env config input cwd input.companion_proof b h in
      ground arith
  | inr (f, e) ↦ ground arith
]
