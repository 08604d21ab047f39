-- ===== src/Bridge/Enrolling.antt =====
-- The way from `createEnrollment` to a session.
use af_companion.Prelude.{
  arith, String, true, false, none, some, [], ◌∷◌, ◌++◌, ◌≡◌, refl, ◌∙◌, eq_refl,
}
use af_companion.Prelude.StringMap.{has, put}
use af_companion.Prelude.Evolution.{find_first}
use af_companion.Bridge.Contract.{
  companion_active, Role, ActivationOrigin, Session, Lease, same_role, same_origin,
}
use af_companion.Bridge.Results.{ok, found}
use af_companion.Bridge.State.{Ticket, Bridge}
use af_companion.Bridge.Platform.{EnrollmentCapsule, WorkItem, Config, Env}
use af_companion.Bridge.Records.{is_past, session_of}
use af_companion.Bridge.Hooks.{
  HookInput, record_activity, record_prompt_receipt, add_activity, add_receipt,
}
use af_companion.Bridge.Enrollment.{
  CreateEnrollment, new_ticket, enrollment_payload, enrollment_expires_at,
}
use af_companion.Bridge.Leases.{new_lease, issue_lease, add_session, new_session}
use af_companion.Bridge.Tickets.{
  has_ticket_id, is_sha256, ticket_accepts, ticket_is_current, change_ticket, ticket_lease_scope,
  enroll, activate_ticket, activate_enrollment,
}

same_role_refl : (r : Role) → same_role r r ≡ true
same_role_refl Role.plan = refl
same_role_refl Role.materialization = refl

same_origin_refl : (o : ActivationOrigin) → same_origin o o ≡ true
same_origin_refl ActivationOrigin.af_cli_launch = refl
same_origin_refl ActivationOrigin.af_vscode_launch = refl
same_origin_refl ActivationOrigin.plan_handoff_capsule = refl
same_origin_refl ActivationOrigin.explicit_join_capsule = refl
same_origin_refl ActivationOrigin.manual_attach_confirmed = refl

-- the ticket that is made and the capsule that is given out fit, for a later clock with the same hash
ticket_accepts-new_ticket :
    (env later : Env) (config : Config) (input : CreateEnrollment) (item : WorkItem)
    → ((text : String) → later.sha256 text ≡ env.sha256 text)
    → is_past later (enrollment_expires_at env config input) ≡ false
    → ticket_accepts later
        (env.sha256 config.repo_root)
        (enrollment_payload env config input)
        (new_ticket env config input item)
      ≡ true
unfolding ticket_accepts new_ticket enrollment_payload
ticket_accepts-new_ticket env later config input item hash time =
    simp (hash, time, eq_refl, same_role_refl, same_origin_refl)

ticket_is_current-new_ticket :
    (env later : Env) (config : Config) (input : CreateEnrollment) (item : WorkItem)
    → later.work_item input.work_id ≡ found item
    → is_sha256 item.etag ≡ true
    → ticket_is_current later (new_ticket env config input item) ≡ true
unfolding ticket_is_current new_ticket
ticket_is_current-new_ticket env later config input item read etag =
    let same = eq_refl item.etag in ground arith

-- what an activated ticket leaves: the lease, the session and the claimed ticket
abbrev leased : Env → Config → HookInput → String → Ticket → Bridge → Bridge
leased env config input cwd t b =
    let scope = ticket_lease_scope input (env.sha256 cwd) t in
    record b { leases = put (env.sha256 scope.session_id) (new_lease env config b scope) b.leases }

activate_ticket-enrolls :
    (env : Env) (config : Config) (input : HookInput) (cwd id : String) (t : Ticket) (b : Bridge)
    → ticket_is_current env t ≡ true
    → has (env.sha256 input.session_id) b.leases ≡ false
    → env.lease_written ≡ true
    → activate_ticket env config input cwd id t b
      ≡ ok (
        none,
        enroll env input cwd id t
            (new_lease env config b (ticket_lease_scope input (env.sha256 cwd) t))
            (leased env config input cwd t b),
      )
unfolding activate_ticket issue_lease
activate_ticket-enrolls env config input cwd id t b current fresh writes =
    rw (current, fresh, writes) refl

enroll-sessions :
    (env : Env) (input : HookInput) (cwd id : String) (t : Ticket) (l : Lease) (b : Bridge)
    → (enroll env input cwd id t l b).state.sessions
      ≡ b.state.sessions ++ (new_session env input cwd t l t.activation_origin ∷ [])
unfolding enroll record_prompt_receipt add_receipt record_activity add_activity add_session
    change_ticket
enroll-sessions env input cwd id t l b = ground arith

activate_enrollment-accepted :
    (env : Env) (config : Config) (hook : HookInput) (cwd : String) (parsed : EnrollmentCapsule)
    (t : Ticket) (b : Bridge)
    → session_of b hook.session_id ≡ none
    → find_first (has_ticket_id parsed.ticket_id) b.state.enrollment_tickets ≡ some t
    → ticket_accepts env (env.sha256 cwd) parsed t ≡ true
    → activate_enrollment env config hook cwd parsed b
      ≡ activate_ticket env config hook cwd parsed.ticket_id t b
unfolding activate_enrollment
activate_enrollment-accepted env config hook cwd parsed t b fresh kept accepted =
    rw (fresh, kept, accepted) refl

-- What the part of `#activate` on an accepted enrollment capsule adds.
pub activate_enrollment-enrolls :
    (env later : Env) (config : Config) (input : CreateEnrollment) (item : WorkItem)
    (hook : HookInput) (cwd : String) (b : Bridge)
    → ((text : String) → later.sha256 text ≡ env.sha256 text)
    → is_past later (enrollment_expires_at env config input) ≡ false
    → env.sha256 cwd ≡ env.sha256 config.repo_root
    → find_first (has_ticket_id (env.random 2)) b.state.enrollment_tickets
      ≡ some (new_ticket env config input item)
    → session_of b hook.session_id ≡ none
    → has (later.sha256 hook.session_id) b.leases ≡ false
    → later.work_item input.work_id ≡ found item
    → is_sha256 item.etag ≡ true
    → later.lease_written ≡ true
    → (c : Bridge) × (s : Session) × (activate_enrollment later config hook cwd
          (enrollment_payload env config input)
          b
        ≡ ok (none, c))
      × (c.state.sessions ≡ b.state.sessions ++ (s ∷ []))
      × (s.session_id ≡ hook.session_id)
      × (s.participation ≡ companion_active)
      × (s.application_id ≡ input.application_id)
      × (s.work_id ≡ input.work_id)
      × (s.role ≡ input.requested_role)
unfolding enrollment_payload new_session new_ticket
activate_enrollment-enrolls env later config input item hook cwd b hash time root kept fresh free
      read etag writes =
    let t = new_ticket env config input item in
    let l = new_lease later config b (ticket_lease_scope hook (later.sha256 cwd) t) in
    let s = new_session later hook cwd t l t.activation_origin in
    let c = enroll later hook cwd (env.random 2) t l (leased later config hook cwd t b) in
    let digest : later.sha256 cwd ≡ env.sha256 config.repo_root = hash cwd ∙ root in
    let payload = enrollment_payload env config input in
    let accepted : ticket_accepts later (later.sha256 cwd) payload t ≡ true =
      rw digest (ticket_accepts-new_ticket env later config input item hash time) in
    let passed =
      activate_enrollment-accepted later config hook cwd payload t b fresh kept accepted in
    let enrolled =
      activate_ticket-enrolls later config hook cwd (env.random 2) t b
        (ticket_is_current-new_ticket env later config input item read etag) free writes in
    let added =
      enroll-sessions later hook cwd (env.random 2) t l (leased later config hook cwd t b) in
    (c, s, passed ∙ enrolled, added, refl, refl, refl, refl, refl)
