-- ===== src/Bridge/Distinct/Steps.antt =====
-- No action of the store gives two sessions the same id.
use af_companion.Prelude.{arith, String, List, [], ◌∷◌, inl, inr}
use af_companion.Bridge.Results.{Result, ok, throw, Result-cases}
use af_companion.Bridge.State.{Ticket, Bridge}
use af_companion.Bridge.Platform.{Config, Env}
use af_companion.Bridge.Mutate.{mutate}
use af_companion.Bridge.Handoffs.{create_plan_handoff, create_plan_handoff_body}
use af_companion.Bridge.Transfers.{
  continue_handoff, continue_handoff_body, attach_handoff, attach_handoff_body, cancel_handoff,
  cancel_handoff_body,
}
use af_companion.Bridge.Grants.{create_materialization_grant, create_grant_body}
use af_companion.Bridge.GrantOffers.{continue_materialization_grant, continue_grant_body}
use af_companion.Bridge.Hooks.{Proof, no_proof, lease, activation}
use af_companion.Bridge.Consumption.{record_leased_hook}
use af_companion.Bridge.Enrollment.{add_ticket, enrollment, push_ticket, create_enrollment}
use af_companion.Bridge.Entry.{handle_hook}
use af_companion.Bridge.Sessions.{
  AttachSession, attach_hook, attach_proved, attach_session, revoke_session_body, revoke_session,
  update_alias_body, update_session_alias, reset_body, reset_state,
}
use af_companion.Bridge.Deliveries.{
  create_delivery_body, create_delivery, cancel_delivery_body, cancel_delivery, snapshot_body,
  snapshot, opened, no_change, restart,
}
use af_companion.Bridge.Actions.{Action, step, run}
use af_companion.Bridge.Actions
use af_companion.Bridge.Bounds.{or_stale-state, or_stale_grant-state}
use af_companion.Bridge.Distinct.Ids.{HasDistinctSessions}
use af_companion.Bridge.Distinct.Untouched.{
  add_ticket-sessions, no_change-sessions, create_plan_handoff_body-sessions,
  continue_handoff_body-sessions, attach_handoff_body-sessions, cancel_handoff_body-sessions,
  create_grant_body-sessions, continue_grant_body-sessions, create_delivery_body-sessions,
  cancel_delivery_body-sessions, snapshot_body-sessions,
}
use af_companion.Bridge.Distinct.Changed.{
  opened-ids, revoke_session_body-ids, update_alias_body-ids, record_leased_hook-ids,
}
use af_companion.Bridge.Distinct.Kept.{
  Keeps, mutate-sessions, untouched-mutate, keeping-mutate, handle_hook-sessions,
}

attach_proved-sessions :
    (env : Env) (config : Config) (input : AttachSession) (cwd : String) (proof : Proof)
    (b : Bridge)
    → HasDistinctSessions b.state
    → HasDistinctSessions (attach_proved env config input cwd proof b).1.state
unfolding attach_proved
attach_proved-sessions env config input cwd no_proof b h = h
attach_proved-sessions env config input cwd (lease id token) b h = h
attach_proved-sessions env config input cwd (activation raw) b h =
    let run = handle_hook env config (attach_hook input cwd) b in
    let handled : HasDistinctSessions run.1.state =
      handle_hook-sessions env config (attach_hook input cwd) b h in
    elim (Result-cases run.0) [ inl (c, e) ↦ ground arith | inr (f, e) ↦ ground arith ]

attach_session-sessions :
    (env : Env) (config : Config) (input : AttachSession) (b : Bridge)
    → HasDistinctSessions b.state
    → HasDistinctSessions (attach_session env config input b).1.state
unfolding attach_session
attach_session-sessions env config input b h = elim (Result-cases (env.contained_cwd input.cwd)) [
  | inl (cwd, e) ↦
      let attached = attach_proved-sessions env config input cwd input.companion_proof b h in
      ground arith
  | inr (f, e) ↦ ground arith
]

reset_body-sessions : Keeps reset_body
unfolding reset_body
reset_body-sessions b h = tt

push_ticket-sessions :
    (env : Env) (config : Config) (r : Result (Ticket × String)) (b : Bridge)
    → HasDistinctSessions b.state
    → HasDistinctSessions (push_ticket env config r b).1.state
unfolding push_ticket
push_ticket-sessions env config (throw f) b h = h
push_ticket-sessions env config (ok (ticket, capsule)) b h =
    let run = mutate env config (add_ticket ticket) b in
    let kept : HasDistinctSessions run.1.state =
      untouched-mutate env config (add_ticket ticket) b (add_ticket-sessions ticket) h in
    elim (Result-cases run.0) [ inl (u, e) ↦ ground arith | inr (f, e) ↦ ground arith ]

step-HasDistinctSessions :
    (config : Config) (env : Env) (action : Action) (b : Bridge)
    → HasDistinctSessions b.state
    → HasDistinctSessions (step config env action b).state
unfolding step create_enrollment create_materialization_grant continue_materialization_grant
    create_plan_handoff continue_handoff attach_handoff cancel_handoff revoke_session
    update_session_alias create_delivery cancel_delivery reset_state snapshot restart
step-HasDistinctSessions config env (Actions.enroll input) b h =
    push_ticket-sessions env config (enrollment env config input) b h
step-HasDistinctSessions config env (Actions.hook input) b h =
    handle_hook-sessions env config input b h
step-HasDistinctSessions config env (Actions.make_grant input) b h =
    untouched-mutate env config (create_grant_body env input) b
      (create_grant_body-sessions env input) h
step-HasDistinctSessions config env (Actions.continue_grant id) b h =
    let run = mutate env config (continue_grant_body env id) b in
    rw (or_stale_grant-state id run.0 run.1) (
      untouched-mutate env config (continue_grant_body env id) b
        (continue_grant_body-sessions env id) h)
step-HasDistinctSessions config env (Actions.make_handoff input) b h =
    untouched-mutate env config (create_plan_handoff_body env input) b
      (create_plan_handoff_body-sessions env input) h
step-HasDistinctSessions config env (Actions.continue id) b h =
    let run = mutate env config (continue_handoff_body env id) b in
    rw (or_stale-state id run.0 run.1) (
      untouched-mutate env config (continue_handoff_body env id) b
        (continue_handoff_body-sessions env id) h)
step-HasDistinctSessions config env (Actions.attach id target) b h =
    let run = mutate env config (attach_handoff_body env id target) b in
    rw (or_stale-state id run.0 run.1) (
      untouched-mutate env config (attach_handoff_body env id target) b
        (attach_handoff_body-sessions env id target) h)
step-HasDistinctSessions config env (Actions.cancel id) b h =
    untouched-mutate env config (cancel_handoff_body id) b (cancel_handoff_body-sessions id) h
step-HasDistinctSessions config env (Actions.attach_one input) b h =
    attach_session-sessions env config input b h
step-HasDistinctSessions config env (Actions.revoke id reason) b h =
    let run = mutate env config (revoke_session_body env id reason) b in
    let kept : HasDistinctSessions run.1.state =
      keeping-mutate env config (revoke_session_body env id reason) b
        (revoke_session_body-ids env id reason) h in
    elim (Result-cases run.0) [ inl (u, d) ↦ ground arith | inr (f, d) ↦ ground arith ]
step-HasDistinctSessions config env (Actions.rename id alias) b h =
    keeping-mutate env config (update_alias_body id alias) b (update_alias_body-ids id alias) h
step-HasDistinctSessions config env (Actions.send input) b h =
    untouched-mutate env config (create_delivery_body env input) b
      (create_delivery_body-sessions env input) h
step-HasDistinctSessions config env (Actions.cancel_one id) b h =
    untouched-mutate env config (cancel_delivery_body id) b (cancel_delivery_body-sessions id) h
step-HasDistinctSessions config env Actions.reset b h =
    let run = mutate env config reset_body b in
    let kept : HasDistinctSessions run.1.state =
      mutate-sessions env config reset_body b reset_body-sessions h in
    elim (Result-cases run.0) [ inl (u, d) ↦ ground arith | inr (f, d) ↦ ground arith ]
step-HasDistinctSessions config env Actions.view b h =
    untouched-mutate env config (snapshot_body env) b (snapshot_body-sessions env) h
step-HasDistinctSessions config env Actions.reopen b h =
    untouched-mutate env config no_change (opened env b) no_change-sessions
      (rw (opened-ids env b) h)
step-HasDistinctSessions config env (Actions.resume_hook input) b h =
    keeping-mutate env config (record_leased_hook env input.session_id input) b
      (record_leased_hook-ids env input.session_id input) h
step-HasDistinctSessions config env (Actions.resume_enroll ticket) b h =
    untouched-mutate env config (add_ticket ticket) b (add_ticket-sessions ticket) h
step-HasDistinctSessions config env (Actions.drop_lease id) b h = h
step-HasDistinctSessions config env Actions.drop_leases b h = h

-- Where no two sessions of the state have the same id, the same is true after any actions.
pub run-HasDistinctSessions :
    (config : Config) (actions : List (Env × Action)) (b : Bridge)
    → HasDistinctSessions b.state
    → HasDistinctSessions (run config actions b).state
unfolding run
run-HasDistinctSessions config [] b h = h
run-HasDistinctSessions config ((env, action) ∷ rest) b h =
    run-HasDistinctSessions config rest (step config env action b)
      (step-HasDistinctSessions config env action b h)
