-- ===== src/Bridge/Bounds.antt =====
-- The lists of prompt receipts and of activities, through every action of the store.
use af_companion.Prelude.{
  arith, String, Option, none, some, List, [], ◌∷◌, ◌≡◌, refl, inl, inr, Bool-cases,
}
use af_companion.Bridge.Results.{Result, ok, throw, Result-cases}
use af_companion.Bridge.State.{Bridge}
use af_companion.Bridge.Platform.{Capsule, Config, Env}
use af_companion.Bridge.Mutate.{mutate}
use af_companion.Bridge.Handoffs.{create_plan_handoff, create_plan_handoff_body}
use af_companion.Bridge.Transfers.{
  or_stale, continue_handoff, continue_handoff_body, attach_handoff, attach_handoff_body,
  cancel_handoff, cancel_handoff_body,
}
use af_companion.Bridge.Grants.{create_materialization_grant, create_grant_body}
use af_companion.Bridge.GrantOffers.{
  or_stale_grant, continue_materialization_grant, continue_grant_body,
}
use af_companion.Bridge.Hooks.{Proof, no_proof, lease, activation, HookInput}
use af_companion.Bridge.Consumption.{record_leased_hook}
use af_companion.Bridge.Enrollment.{add_ticket, enrollment, push_ticket, create_enrollment}
use af_companion.Bridge.Tickets.{count_invalid}
use af_companion.Bridge.Entry.{
  is_rejected, activation_body, activate_parsed, activate, proves, handle_contained, handle_hook,
}
use af_companion.Bridge.Sessions.{
  AttachSession, attach_hook, attach_proved, attach_session, revoke_session_body, revoke_session,
  update_alias_body, update_session_alias, reset_body, reset_state,
}
use af_companion.Bridge.Deliveries.{
  create_delivery_body, create_delivery, cancel_delivery_body, cancel_delivery, snapshot_body,
  snapshot, restarted, opened, no_change, restart,
}
use af_companion.Bridge.Actions.{Action, step, run}
use af_companion.Bridge.Actions
use af_companion.Bridge.Moves.Entry.{clean_lease-state}
use af_companion.Bridge.Rollback.{IsBounded, mutate-IsBounded}

pub or_stale-state :
    {A : Type 0} (id : String) (r : Result (Option A)) (b : Bridge) → (or_stale id (r, b)).1 ≡ b
unfolding or_stale
or_stale-state id (throw f) b = refl
or_stale-state id (ok (some a)) b = refl
or_stale-state id (ok none) b = refl

pub or_stale_grant-state :
    {A : Type 0} (id : String) (r : Result (Option A)) (b : Bridge)
    → (or_stale_grant id (r, b)).1 ≡ b
unfolding or_stale_grant
or_stale_grant-state id (throw f) b = refl
or_stale_grant-state id (ok (some a)) b = refl
or_stale_grant-state id (ok none) b = refl

activate_parsed-IsBounded :
    (env : Env) (config : Config) (input : HookInput) (raw cwd : String) (capsule : Option Capsule)
    (b : Bridge)
    → IsBounded b.state
    → IsBounded (activate_parsed env config input raw cwd capsule b).1.state
unfolding activate_parsed count_invalid
activate_parsed-IsBounded env config input raw cwd none b h = h
activate_parsed-IsBounded env config input raw cwd (some capsule) b h =
    let body = activation_body env config input raw cwd capsule in
    let run = mutate env config body b in
    let state = clean_lease-state (env.sha256 input.session_id) b run.0 run.1 in
    elim (Bool-cases (is_rejected input.event capsule)) [
      | inl e ↦ rw e h
      | inr e ↦ rw (e, state) (mutate-IsBounded env config body b h)
    ]

handle_contained-IsBounded :
    (env : Env) (config : Config) (input : HookInput) (cwd : String) (proof : Proof) (b : Bridge)
    → IsBounded b.state
    → IsBounded (handle_contained env config input cwd proof b).1.state
unfolding handle_contained activate count_invalid
handle_contained-IsBounded env config input cwd no_proof b h = h
handle_contained-IsBounded env config input cwd (activation raw) b h =
    activate_parsed-IsBounded env config input raw cwd (env.parse_capsule raw) b h
handle_contained-IsBounded env config input cwd (lease id token) b h =
    elim (Bool-cases (proves env input cwd id token b)) [
      | inl e ↦
          rw e (mutate-IsBounded env config (record_leased_hook env input.session_id input) b h)
      | inr e ↦ rw e h
    ]

handle_hook-IsBounded :
    (env : Env) (config : Config) (input : HookInput) (b : Bridge)
    → IsBounded b.state
    → IsBounded (handle_hook env config input b).1.state
unfolding handle_hook
handle_hook-IsBounded env config input b h = elim (Result-cases (env.contained_cwd input.cwd)) [
  | inl (cwd, e) ↦
      let handled = handle_contained-IsBounded env config input cwd input.companion_proof b h in
      ground arith
  | inr (f, e) ↦ ground arith
]

attach_proved-IsBounded :
    (env : Env) (config : Config) (input : AttachSession) (cwd : String) (proof : Proof)
    (b : Bridge)
    → IsBounded b.state
    → IsBounded (attach_proved env config input cwd proof b).1.state
unfolding attach_proved
attach_proved-IsBounded env config input cwd no_proof b h = h
attach_proved-IsBounded env config input cwd (lease id token) b h = h
attach_proved-IsBounded env config input cwd (activation raw) b h =
    let run = handle_hook env config (attach_hook input cwd) b in
    let handled : IsBounded run.1.state =
      handle_hook-IsBounded env config (attach_hook input cwd) b h in
    elim (Result-cases run.0) [ inl (c, e) ↦ ground arith | inr (f, e) ↦ ground arith ]

attach_session-IsBounded :
    (env : Env) (config : Config) (input : AttachSession) (b : Bridge)
    → IsBounded b.state
    → IsBounded (attach_session env config input b).1.state
unfolding attach_session
attach_session-IsBounded env config input b h = elim (Result-cases (env.contained_cwd input.cwd)) [
  | inl (cwd, e) ↦
      let attached = attach_proved-IsBounded env config input cwd input.companion_proof b h in
      ground arith
  | inr (f, e) ↦ ground arith
]

opened-IsBounded : (env : Env) (b : Bridge) → IsBounded b.state → IsBounded (opened env b).state
unfolding opened restarted
opened-IsBounded env b h = ground arith

step-IsBounded :
    (config : Config) (env : Env) (action : Action) (b : Bridge)
    → IsBounded b.state
    → IsBounded (step config env action b).state
unfolding step create_enrollment push_ticket create_materialization_grant
    continue_materialization_grant create_plan_handoff continue_handoff attach_handoff
    cancel_handoff revoke_session update_session_alias create_delivery cancel_delivery reset_state
    snapshot restart
step-IsBounded config env (Actions.enroll input) b h =
    elim (Result-cases (enrollment env config input)) [
      | inl ((ticket, capsule), e) ↦
          let run = mutate env config (add_ticket ticket) b in
          let bounded : IsBounded run.1.state =
            mutate-IsBounded env config (add_ticket ticket) b h in
          elim (Result-cases run.0) [ inl (u, d) ↦ ground arith | inr (f, d) ↦ ground arith ]
      | inr (f, e) ↦ ground arith
    ]
step-IsBounded config env (Actions.hook input) b h = handle_hook-IsBounded env config input b h
step-IsBounded config env (Actions.make_grant input) b h =
    mutate-IsBounded env config (create_grant_body env input) b h
step-IsBounded config env (Actions.continue_grant id) b h =
    let run = mutate env config (continue_grant_body env id) b in
    let state = or_stale_grant-state id run.0 run.1 in
    rw state (mutate-IsBounded env config (continue_grant_body env id) b h)
step-IsBounded config env (Actions.make_handoff input) b h =
    mutate-IsBounded env config (create_plan_handoff_body env input) b h
step-IsBounded config env (Actions.continue id) b h =
    let run = mutate env config (continue_handoff_body env id) b in
    let state = or_stale-state id run.0 run.1 in
    rw state (mutate-IsBounded env config (continue_handoff_body env id) b h)
step-IsBounded config env (Actions.attach id target) b h =
    let run = mutate env config (attach_handoff_body env id target) b in
    let state = or_stale-state id run.0 run.1 in
    rw state (mutate-IsBounded env config (attach_handoff_body env id target) b h)
step-IsBounded config env (Actions.cancel id) b h =
    mutate-IsBounded env config (cancel_handoff_body id) b h
step-IsBounded config env (Actions.attach_one input) b h =
    attach_session-IsBounded env config input b h
step-IsBounded config env (Actions.revoke id reason) b h =
    let run = mutate env config (revoke_session_body env id reason) b in
    let bounded : IsBounded run.1.state =
      mutate-IsBounded env config (revoke_session_body env id reason) b h in
    elim (Result-cases run.0) [ inl (u, d) ↦ ground arith | inr (f, d) ↦ ground arith ]
step-IsBounded config env (Actions.rename id alias) b h =
    mutate-IsBounded env config (update_alias_body id alias) b h
step-IsBounded config env (Actions.send input) b h =
    mutate-IsBounded env config (create_delivery_body env input) b h
step-IsBounded config env (Actions.cancel_one id) b h =
    mutate-IsBounded env config (cancel_delivery_body id) b h
step-IsBounded config env Actions.reset b h =
    let run = mutate env config reset_body b in
    let bounded : IsBounded run.1.state = mutate-IsBounded env config reset_body b h in
    elim (Result-cases run.0) [ inl (u, d) ↦ ground arith | inr (f, d) ↦ ground arith ]
step-IsBounded config env Actions.view b h = mutate-IsBounded env config (snapshot_body env) b h
step-IsBounded config env Actions.reopen b h =
    mutate-IsBounded env config no_change (opened env b) (opened-IsBounded env b h)
step-IsBounded config env (Actions.resume_hook input) b h =
    mutate-IsBounded env config (record_leased_hook env input.session_id input) b h
step-IsBounded config env (Actions.resume_enroll ticket) b h =
    mutate-IsBounded env config (add_ticket ticket) b h
step-IsBounded config env (Actions.drop_lease id) b h = h
step-IsBounded config env Actions.drop_leases b h = h

-- Where the state keeps at most 512 prompt receipts and 512 activities, it does so after any
-- actions.
pub run-IsBounded :
    (config : Config) (actions : List (Env × Action)) (b : Bridge)
    → IsBounded b.state
    → IsBounded (run config actions b).state
unfolding run
run-IsBounded config [] b h = h
run-IsBounded config ((env, action) ∷ rest) b h =
    run-IsBounded config rest (step config env action b) (step-IsBounded config env action b h)
