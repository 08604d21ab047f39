-- ===== src/Bridge/Moves/Entry.antt =====
-- `handleHook` and `createEnrollment`, as moves of the records.
use af_companion.Prelude.{
  arith, String, Option, none, some, ◌≡◌, refl, inl, inr, Bool-cases, Option-cases,
}
use af_companion.Bridge.Results.{Result, ok, throw, Holds, Result-cases}
use af_companion.Bridge.State.{Ticket, Bridge}
use af_companion.Bridge.Platform.{Capsule, Config, Env}
use af_companion.Bridge.Mutate.{mutate}
use af_companion.Bridge.Hooks.{Proof, no_proof, lease, activation, HookInput, prompt_turn}
use af_companion.Bridge.Consumption.{record_leased_hook}
use af_companion.Bridge.Enrollment.{
  CreateEnrollment, add_ticket, enrollment, push_ticket, create_enrollment,
}
use af_companion.Bridge.Tickets.{count_invalid}
use af_companion.Bridge.Entry.{
  is_rejected, activation_body, clean_lease, activate_parsed, activate, proves, handle_contained,
  handle_hook,
}
use af_companion.Bridge.Moves.{Moves, Moves-refl}
use af_companion.Bridge.Moves.Time.{Moved, mutate-Moves}
use af_companion.Bridge.Moves.Parts.{add_ticket_to-Moves}
use af_companion.Bridge.Moves.Prompts.{record_leased_hook-Moves}
use af_companion.Bridge.Moves.Activating.{activate_enrollment-Moves}
use af_companion.Bridge.Moves.Claiming.{activate_grant-Moves, activate_handoff-Moves}

activation_body-Moves :
    (env : Env) (config : Config) (input : HookInput) (raw cwd : String) (capsule : Capsule)
    (b : Bridge)
    → Holds (Moved b) (activation_body env config input raw cwd capsule b)
unfolding activation_body
activation_body-Moves env config input raw cwd (Capsule.enrollment parsed) b =
    activate_enrollment-Moves env config input cwd parsed b
activation_body-Moves env config input raw cwd (Capsule.materialization_grant parsed) b =
    elim (Option-cases (prompt_turn input.event)) [
      | inl n ↦ let same = Moves-refl b.state in ground arith
      | inr (turn, n) ↦
          let activated = activate_grant-Moves env config input cwd turn parsed b in ground arith
    ]
activation_body-Moves env config input raw cwd (Capsule.handoff parsed) b =
    elim (Option-cases (prompt_turn input.event)) [
      | inl n ↦ let same = Moves-refl b.state in ground arith
      | inr (turn, n) ↦
          let activated = activate_handoff-Moves env config input raw cwd turn parsed b in
          ground arith
    ]

pub clean_lease-state :
    {A : Type 0} (key : String) (before : Bridge) (r : Result A) (after : Bridge)
    → (clean_lease key before (r, after)).1.state ≡ after.state
unfolding clean_lease
clean_lease-state key before (ok a) after = refl
clean_lease-state key before (throw f) after = ground arith

activate_parsed-Moves :
    (env : Env) (config : Config) (input : HookInput) (raw cwd : String) (capsule : Option Capsule)
    (b : Bridge)
    → Moves b.state (activate_parsed env config input raw cwd capsule b).1.state
unfolding activate_parsed count_invalid
activate_parsed-Moves env config input raw cwd none b = Moves-refl b.state
activate_parsed-Moves env config input raw cwd (some capsule) b =
    let same = Moves-refl b.state in
    let body = activation_body env config input raw cwd capsule in
    let run = mutate env config body b in
    let state = clean_lease-state (env.sha256 input.session_id) b run.0 run.1 in
    let moved : Moves b.state run.1.state =
      mutate-Moves env config body b (activation_body-Moves env config input raw cwd capsule) in
    elim (Bool-cases (is_rejected input.event capsule)) [
      | inl e ↦ rw e same
      | inr e ↦ rw (e, state) moved
    ]

activate-Moves :
    (env : Env) (config : Config) (input : HookInput) (cwd raw : String) (b : Bridge)
    → Moves b.state (activate env config input cwd raw b).1.state
unfolding activate
activate-Moves env config input cwd raw b =
    activate_parsed-Moves env config input raw cwd (env.parse_capsule raw) b

handle_contained-Moves :
    (env : Env) (config : Config) (input : HookInput) (cwd : String) (proof : Proof) (b : Bridge)
    → Moves b.state (handle_contained env config input cwd proof b).1.state
unfolding handle_contained count_invalid
handle_contained-Moves env config input cwd no_proof b = Moves-refl b.state
handle_contained-Moves env config input cwd (activation raw) b =
    activate-Moves env config input cwd raw b
handle_contained-Moves env config input cwd (lease lease_id lease_token) b =
    elim (Bool-cases (proves env input cwd lease_id lease_token b)) [
      | inl e ↦ rw e (
          mutate-Moves env config (record_leased_hook env input.session_id input) b
            (record_leased_hook-Moves env input.session_id input))
      | inr e ↦ rw e (Moves-refl b.state)
    ]

pub handle_hook-Moves :
    (env : Env) (config : Config) (input : HookInput) (b : Bridge)
    → Moves b.state (handle_hook env config input b).1.state
unfolding handle_hook
handle_hook-Moves env config input b = elim (Result-cases (env.contained_cwd input.cwd)) [
  | inl (cwd, e) ↦
      let handled = handle_contained-Moves env config input cwd input.companion_proof b in
      ground arith
  | inr (f, e) ↦ let same = Moves-refl b.state in ground arith
]

pub add_ticket-Moves : (ticket : Ticket) (b : Bridge) → Holds (Moved b) (add_ticket ticket b)
unfolding add_ticket
add_ticket-Moves ticket b = add_ticket_to-Moves b.state ticket

push_ticket-Moves :
    (env : Env) (config : Config) (r : Result (Ticket × String)) (b : Bridge)
    → Moves b.state (push_ticket env config r b).1.state
unfolding push_ticket
push_ticket-Moves env config (throw f) b = Moves-refl b.state
push_ticket-Moves env config (ok (ticket, capsule)) b =
    let run = mutate env config (add_ticket ticket) b in
    let moved : Moves b.state run.1.state =
      mutate-Moves env config (add_ticket ticket) b (add_ticket-Moves ticket) in
    elim (Result-cases run.0) [ inl (u, e) ↦ ground arith | inr (f, e) ↦ ground arith ]

pub create_enrollment-Moves :
    (env : Env) (config : Config) (input : CreateEnrollment) (b : Bridge)
    → Moves b.state (create_enrollment env config input b).1.state
unfolding create_enrollment
create_enrollment-Moves env config input b =
    push_ticket-Moves env config (enrollment env config input) b
