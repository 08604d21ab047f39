-- ===== src/Bridge/Settled.antt =====
-- What the store's actions leave as it is.
use af_companion.Prelude.{
  ℕ, ◌≤◌, arith, true, false, some, List, [], ◌∷◌, get_elem?, ◌≡◌, refl, ◌⊎◌,
}
use af_companion.Prelude.Evolution.{get_elem?-Evolves}
use af_companion.Bridge.Contract.{
  Session, GrantStatus, ticket_is_pending, is_queued, handoff_is_pending, grant_is_pending,
  grant_is_claimed,
}
use af_companion.Bridge.State.{Ticket, Handoff, Grant, Delivery, Bridge}
use af_companion.Bridge.Platform.{Config, Env}
use af_companion.Bridge.HandoffRecords.{canonical_of}
use af_companion.Bridge.Actions.{Action, is_reset, step, run, resets}
use af_companion.Bridge.Actions
use af_companion.Bridge.Moves.{
  AnyNew, TicketMove, SessionMove, DeliveryMove, HandoffMove, GrantMove, IsHandoffClean,
  IsGrantClean, Moves, Moves-refl, Moves-trans, rank, scope_of, handoff_claim, grant_claim,
}
use af_companion.Bridge.Moves.Transfer.{
  create_plan_handoff-Moves, continue_handoff-Moves, attach_handoff-Moves, cancel_handoff-Moves,
}
use af_companion.Bridge.Moves.Offers.{
  create_materialization_grant-Moves, continue_materialization_grant-Moves,
}
use af_companion.Bridge.Consumption.{record_leased_hook}
use af_companion.Bridge.Enrollment.{add_ticket}
use af_companion.Bridge.Moves.Time.{mutate-Moves}
use af_companion.Bridge.Moves.Prompts.{record_leased_hook-Moves}
use af_companion.Bridge.Moves.Entry.{add_ticket-Moves, handle_hook-Moves, create_enrollment-Moves}
use af_companion.Bridge.Moves.Standing.{
  attach_session-Moves, revoke_session-Moves, update_session_alias-Moves,
}
use af_companion.Bridge.Moves.Queue.{create_delivery-Moves, cancel_delivery-Moves}
use af_companion.Bridge.Moves.Review.{snapshot-Moves, restart-Moves}

pub step-Moves :
    (config : Config) (env : Env) (action : Action) (b : Bridge)
    → is_reset action ≡ false
    → Moves b.state (step config env action b).state
unfolding step
step-Moves config env (Actions.enroll input) b e = create_enrollment-Moves env config input b
step-Moves config env (Actions.hook input) b e = handle_hook-Moves env config input b
step-Moves config env (Actions.make_grant input) b e =
    create_materialization_grant-Moves env config input b
step-Moves config env (Actions.continue_grant id) b e =
    continue_materialization_grant-Moves env config id b
step-Moves config env (Actions.make_handoff input) b e =
    create_plan_handoff-Moves env config input b
step-Moves config env (Actions.continue id) b e = continue_handoff-Moves env config id b
step-Moves config env (Actions.attach id target) b e = attach_handoff-Moves env config id target b
step-Moves config env (Actions.cancel id) b e = cancel_handoff-Moves env config id b
step-Moves config env (Actions.attach_one input) b e = attach_session-Moves env config input b
step-Moves config env (Actions.revoke id reason) b e = revoke_session-Moves env config id reason b
step-Moves config env (Actions.rename id alias) b e =
    update_session_alias-Moves env config id alias b
step-Moves config env (Actions.send input) b e = create_delivery-Moves env config input b
step-Moves config env (Actions.cancel_one id) b e = cancel_delivery-Moves env config id b
step-Moves config env Actions.reset b e = cc
step-Moves config env Actions.view b e = snapshot-Moves env config b
step-Moves config env Actions.reopen b e = restart-Moves env config b
step-Moves config env (Actions.resume_hook input) b e =
    mutate-Moves env config (record_leased_hook env input.session_id input) b
      (record_leased_hook-Moves env input.session_id input)
step-Moves config env (Actions.resume_enroll ticket) b e =
    mutate-Moves env config (add_ticket ticket) b (add_ticket-Moves ticket)
step-Moves config env (Actions.drop_lease id) b e = Moves-refl b.state
step-Moves config env Actions.drop_leases b e = Moves-refl b.state

run-Moves :
    (config : Config) (actions : List (Env × Action)) (b : Bridge)
    → resets actions ≡ false
    → Moves b.state (run config actions b).state
unfolding run resets
run-Moves config [] b e = Moves-refl b.state
run-Moves config ((env, action) ∷ rest) b e =
    let next = step config env action b in
    let kept : is_reset action ≡ false = ground arith in
    let others : resets rest ≡ false = ground arith in
    Moves-trans b.state next.state (run config rest next).state
      (step-Moves config env action b kept) (run-Moves config rest next others)

-- A handoff that is neither ready nor waiting stays in its place through any actions without a
-- reset: it is never ready or waiting again, what it hands over stays the same, and so do the
-- session, the turn and the time that claimed it.
pub handoff_settled :
    (config : Config) (actions : List (Env × Action)) (b : Bridge) (i : ℕ) (h : Handoff)
    → resets actions ≡ false
    → get_elem? b.state.handoffs i ≡ some h
    → handoff_is_pending h.status ≡ false
    → (k : Handoff) × (get_elem? (run config actions b).state.handoffs i ≡ some k)
      × (handoff_is_pending k.status ≡ false)
      × (canonical_of k ≡ canonical_of h)
      × (handoff_claim k ≡ handoff_claim h)
handoff_settled config actions b i h e found settled =
    let moves = run-Moves config actions b e in
    let now = (run config actions b).state in
    let kept =
      get_elem?-Evolves HandoffMove IsHandoffClean b.state.handoffs now.handoffs i h moves.3
        found in
    (kept.0, kept.1, ground arith, kept.2.0, ground arith)

-- A materialization grant that is neither ready nor waiting stays in its place through any actions
-- without a reset, either as it is or, when it was claimed, finalized with the same claim.
pub grant_settled :
    (config : Config) (actions : List (Env × Action)) (b : Bridge) (i : ℕ) (g : Grant)
    → resets actions ≡ false
    → get_elem? b.state.materialization_grants i ≡ some g
    → grant_is_pending g.status ≡ false
    → (k : Grant) × (get_elem? (run config actions b).state.materialization_grants i ≡ some k)
      × ((k ≡ g)
          ⊎ ((grant_is_claimed g.status ≡ true)
              × (k.status ≡ GrantStatus.finalized)
              × (grant_claim k ≡ grant_claim g)))
grant_settled config actions b i g e found settled =
    let moves = run-Moves config actions b e in
    let now = (run config actions b).state in
    let kept =
      get_elem?-Evolves GrantMove IsGrantClean b.state.materialization_grants
        now.materialization_grants i g moves.4 found in
    (kept.0, kept.1, ground arith)

-- A delivery that is not queued stays as it is, in its place, through any actions without a reset.
pub delivery_settled :
    (config : Config) (actions : List (Env × Action)) (b : Bridge) (i : ℕ) (d : Delivery)
    → resets actions ≡ false
    → get_elem? b.state.deliveries i ≡ some d
    → is_queued d.status ≡ false
    → get_elem? (run config actions b).state.deliveries i ≡ some d
delivery_settled config actions b i d e found settled =
    let moves = run-Moves config actions b e in
    let now = (run config actions b).state in
    let kept =
      get_elem?-Evolves DeliveryMove AnyNew b.state.deliveries now.deliveries i d moves.2 found in
    let place = kept.1 in let same : kept.0 ≡ d = ground arith in rw (place, same) refl

-- An enrollment ticket that is not pending stays as it is, in its place, through any actions
-- without a reset.
pub ticket_settled :
    (config : Config) (actions : List (Env × Action)) (b : Bridge) (i : ℕ) (t : Ticket)
    → resets actions ≡ false
    → get_elem? b.state.enrollment_tickets i ≡ some t
    → ticket_is_pending t.status ≡ false
    → get_elem? (run config actions b).state.enrollment_tickets i ≡ some t
ticket_settled config actions b i t e found settled =
    let moves = run-Moves config actions b e in
    let now = (run config actions b).state in
    let kept =
      get_elem?-Evolves TicketMove AnyNew b.state.enrollment_tickets now.enrollment_tickets i t
        moves.0 found in
    let place = kept.1 in let same : kept.0 ≡ t = ground arith in rw (place, same) refl

-- Through any actions without a reset, a session stays in its place with its workspace, application,
-- work item, role, directory and lease, and its participation only goes on from active to expired
-- to revoked.
pub session_keeps_scope :
    (config : Config) (actions : List (Env × Action)) (b : Bridge) (i : ℕ) (s : Session)
    → resets actions ≡ false
    → get_elem? b.state.sessions i ≡ some s
    → (k : Session) × (get_elem? (run config actions b).state.sessions i ≡ some k)
      × (scope_of k ≡ scope_of s)
      × (rank s.participation ≤ rank k.participation)
session_keeps_scope config actions b i s e found =
    let moves = run-Moves config actions b e in
    let now = (run config actions b).state in
    let kept =
      get_elem?-Evolves SessionMove AnyNew b.state.sessions now.sessions i s moves.1 found in
    (kept.0, kept.1, kept.2.0, kept.2.1)
