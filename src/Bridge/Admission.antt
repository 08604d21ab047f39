-- ===== src/Bridge/Admission.antt =====
-- The way from `createEnrollment` through `handleHook` to a session.
use af_companion.Prelude.{
  arith, String, Bool, true, false, none, some, List, [], ◌∷◌, ◌++◌, map, ap, ◌≡◌, refl, ◌∙◌,
}
use af_companion.Prelude.StringMap.{has}
use af_companion.Prelude.Evolution.{find_first}
use af_companion.Bridge.Contract.{companion_active, Session}
use af_companion.Bridge.Results.{ok, found}
use af_companion.Bridge.State.{Ticket, State, Bridge}
use af_companion.Bridge.Platform.{EnrollmentCapsule, Capsule, WorkItem, Config, Env}
use af_companion.Bridge.Records.{is_past, has_session_id, session_of}
use af_companion.Bridge.Housekeeping.{expire_ticket, age_session, housekeeping}
use af_companion.Bridge.Mutate.{Mutation, trim_state, remove_leases, commit, mutate}
use af_companion.Bridge.Hooks.{activation, HookInput}
use af_companion.Bridge.Enrollment.{
  CreateEnrollment, new_ticket, enrollment_payload, enrollment_expires_at,
}
use af_companion.Bridge.Tickets.{has_ticket_id, is_sha256, activate_enrollment}
use af_companion.Bridge.Entry.{
  has_agent, activation_body, clean_lease, activate_parsed, activate, handle_contained, handle_hook,
}
use af_companion.Bridge.Enrolling.{activate_enrollment-enrolls}

find_first-map-none :
    {A : Type 0} (p : A → Bool) (f : A → A)
    → ((x : A) → p (f x) ≡ p x)
    → (xs : List A) → find_first p xs ≡ none
    → find_first p (map f xs) ≡ none
unfolding find_first
find_first-map-none p f same [] e = refl
find_first-map-none p f same (x ∷ xs) e =
    let kept = same x in let rest = find_first-map-none p f same xs in ground arith

find_first-map-some :
    {A : Type 0} (p : A → Bool) (f : A → A)
    → ((x : A) → p (f x) ≡ p x)
    → (xs : List A) (x : A) → find_first p xs ≡ some x
    → find_first p (map f xs) ≡ some (f x)
unfolding find_first
find_first-map-some p f same [] x e = cc
find_first-map-some p f same (y ∷ ys) x e =
    let kept = same y in let rest = find_first-map-some p f same ys x in ground arith

session_of-housekeeping :
    (env : Env) (config : Config) (b : Bridge) (id : String)
    → session_of b id ≡ none
    → session_of (housekeeping env config b) id ≡ none
unfolding housekeeping age_session
session_of-housekeeping env config b id e =
    find_first-map-none (has_session_id id) (age_session env config) (λ s. refl) b.state.sessions e

has_ticket_id-expire_ticket :
    (env : Env) (id : String) (t : Ticket)
    → has_ticket_id id (expire_ticket env t) ≡ has_ticket_id id t
unfolding expire_ticket
has_ticket_id-expire_ticket env id t = ground arith

expire_ticket-standing :
    (env : Env) (t : Ticket) → is_past env t.expires_at ≡ false → expire_ticket env t ≡ t
unfolding expire_ticket
expire_ticket-standing env t e = ground arith

ticket-housekeeping :
    (env : Env) (config : Config) (b : Bridge) (id : String) (t : Ticket)
    → is_past env t.expires_at ≡ false
    → find_first (has_ticket_id id) b.state.enrollment_tickets ≡ some t
    → find_first (has_ticket_id id) (housekeeping env config b).state.enrollment_tickets ≡ some t
unfolding housekeeping
ticket-housekeeping env config b id t standing e =
    find_first-map-some (has_ticket_id id) (expire_ticket env) (has_ticket_id-expire_ticket env id)
      b.state.enrollment_tickets t e
    ∙ ap some (expire_ticket-standing env t standing)

housekeeping-leases :
    (env : Env) (config : Config) (b : Bridge) → (housekeeping env config b).leases ≡ b.leases
unfolding housekeeping
housekeeping-leases env config b = refl

housekeeping-sessions :
    (env : Env) (config : Config) (b : Bridge)
    → (housekeeping env config b).state.sessions ≡ map (age_session env config) b.state.sessions
unfolding housekeeping
housekeeping-sessions env config b = refl

-- what a mutation that returns leaves
abbrev written_bridge : Env → Bridge → Bridge
written_bridge env c = record c {
  state = trim_state c.state;
  leases = remove_leases env c.state.sessions c.leases;
}

mutate-ok :
    {A : Type 0} (env : Env) (config : Config) (body : Mutation A) (a : A) (b c : Bridge)
    → env.written ≡ true
    → body (housekeeping env config b) ≡ ok (a, c)
    → mutate env config body b ≡ (ok a, written_bridge env c)
unfolding mutate commit
mutate-ok env config body a b c written e =
    ap (commit env b.state (housekeeping env config b)) e ∙ rw written refl

trim_state-sessions : (s : State) → (trim_state s).sessions ≡ s.sessions
unfolding trim_state
trim_state-sessions s = refl

handle_hook-contained :
    (env : Env) (config : Config) (hook : HookInput) (cwd : String) (b : Bridge)
    → env.contained_cwd hook.cwd ≡ ok cwd
    → handle_hook env config hook b ≡ handle_contained env config hook cwd hook.companion_proof b
unfolding handle_hook
handle_hook-contained env config hook cwd b inside = ground arith

activate_parsed-enrollment :
    (env : Env) (config : Config) (hook : HookInput) (cwd raw : String) (parsed : EnrollmentCapsule)
    (b c : Bridge)
    → has_agent hook.event ≡ false
    → mutate env config (activate_enrollment env config hook cwd parsed) b ≡ (ok none, c)
    → activate_parsed env config hook raw cwd (some (Capsule.enrollment parsed)) b ≡ (ok none, c)
unfolding activate_parsed activation_body clean_lease
activate_parsed-enrollment env config hook cwd raw parsed b c prompt e = rw (prompt, e) refl

-- `handleHook` on an enrollment capsule that its guards let through is the mutation
handle_hook-enrollment :
    (env : Env) (config : Config) (hook : HookInput) (cwd raw : String) (parsed : EnrollmentCapsule)
    (b c : Bridge)
    → env.contained_cwd hook.cwd ≡ ok cwd
    → hook.companion_proof ≡ activation raw
    → env.parse_capsule raw ≡ some (Capsule.enrollment parsed)
    → has_agent hook.event ≡ false
    → mutate env config (activate_enrollment env config hook cwd parsed) b ≡ (ok none, c)
    → handle_hook env config hook b ≡ (ok none, c)
unfolding handle_contained activate
handle_hook-enrollment env config hook cwd raw parsed b c inside proof read prompt e =
    handle_hook-contained env config hook cwd b inside
    ∙ ap (λ p. handle_contained env config hook cwd p b) proof
    ∙ ap (λ capsule. activate_parsed env config hook raw cwd capsule b) read
    ∙ activate_parsed-enrollment env config hook cwd raw parsed b c prompt e

-- The capsule of `createEnrollment` enrolls a session through `handleHook`. Where a hook that is no prompt
-- of a subagent brings a text that is read as the capsule, from a directory inside the repository with
-- the digest of its root, the ticket that was made with the capsule is kept and is not over, the hash is
-- the same, the session is not enrolled and has no lease, the work item still has the ETag that the
-- ticket was made for, a SHA-256 text, and the lease and the state can be written, then the hook returns
-- no context, and the sessions are those from before, aged, with exactly one more at the end: an active
-- one with the hook's id and the application, the work item and the role of the enrollment.
pub handle_hook-enrolls :
    (env later : Env) (config : Config) (input : CreateEnrollment) (item : WorkItem)
    (hook : HookInput) (cwd raw : String) (b : Bridge)
    → later.contained_cwd hook.cwd ≡ ok cwd
    → hook.companion_proof ≡ activation raw
    → later.parse_capsule raw ≡ some (Capsule.enrollment (enrollment_payload env config input))
    → has_agent hook.event ≡ false
    → ((text : String) → later.sha256 text ≡ env.sha256 text)
    → is_past later (enrollment_expires_at env config input) ≡ false
    → env.sha256 cwd ≡ env.sha256 config.repo_root
    → find_first (has_ticket_id (env.random 2)) b.state.enrollment_tickets
      ≡ some (new_ticket env config input item)
    → session_of b hook.session_id ≡ none
    → has (later.sha256 hook.session_id) b.leases ≡ false
    → later.work_item input.work_id ≡ found item
    → is_sha256 item.etag ≡ true
    → later.lease_written ≡ true
    → later.written ≡ true
    → (c : Bridge) × (s : Session) × (handle_hook later config hook b ≡ (ok none, c))
      × (c.state.sessions ≡ map (age_session later config) b.state.sessions ++ (s ∷ []))
      × (s.session_id ≡ hook.session_id)
      × (s.participation ≡ companion_active)
      × (s.application_id ≡ input.application_id)
      × (s.work_id ≡ input.work_id)
      × (s.role ≡ input.requested_role)
unfolding new_ticket
handle_hook-enrolls env later config input item hook cwd raw b inside proof read prompt hash time
      root kept fresh free item_read etag writes written =
    let t = new_ticket env config input item in
    let payload = enrollment_payload env config input in
    let started = housekeeping later config b in
    let standing = ticket-housekeeping later config b (env.random 2) t time kept in
    let absent = session_of-housekeeping later config b hook.session_id fresh in
    let unleased : has (later.sha256 hook.session_id) started.leases ≡ false =
      rw (housekeeping-leases later config b) free in
    let (c, s, returned, added, id, active, application, work, role) =
      activate_enrollment-enrolls env later config input item hook cwd started hash time root
        standing absent unleased item_read etag writes in
    let committed =
      mutate-ok later config (activate_enrollment later config hook cwd payload) none b c written
        returned in
    (
      written_bridge later c,
      s,
      handle_hook-enrollment later config hook cwd raw payload b (written_bridge later c) inside
          proof read prompt committed,
      trim_state-sessions c.state
          ∙ added
          ∙ ap (λ sessions. sessions ++ (s ∷ [])) (housekeeping-sessions later config b),
      id,
      active,
      application,
      work,
      role,
    )
