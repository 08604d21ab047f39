-- ===== src/Bridge/Distinct/Added.antt =====
-- The activation of an enrollment, which adds a session whose id is not there.
use af_companion.Prelude.{
  arith, String, none, [], ◌∷◌, ◌++◌, map, ap, ◌≡◌, refl, ◌∙◌, inl, inr, Bool-cases, Option-cases,
  List,
}
use af_companion.Prelude.StringMap.{has}
use af_companion.Prelude.Evolution.{find_first}
use af_companion.Bridge.Contract.{Session, Lease}
use af_companion.Bridge.Results.{Result, ◌>>=◌, Holds}
use af_companion.Bridge.State.{Ticket, Bridge}
use af_companion.Bridge.Platform.{EnrollmentCapsule, Config, Env}
use af_companion.Bridge.Records.{session_of}
use af_companion.Bridge.Hooks.{HookInput, record_activity, record_prompt_receipt}
use af_companion.Bridge.Leases.{LeaseScope, issue_lease, add_session, new_session}
use af_companion.Bridge.Tickets.{
  has_ticket_id, change_ticket, claim_ticket, revoke_ticket, count_invalid, enroll,
  ticket_is_current, activate_ticket, activate_enrollment,
}
use af_companion.Bridge.Activation.{record_claimed}
use af_companion.Bridge.Distinct.Ids.{session_ids, Adds, session_of-contains, append-ids}
use af_companion.Bridge.Distinct.Changed.{recorded-sessions, record_claim-sessions}

abbrev pub AddsOne : {A : Type 0} → Bridge → A × Bridge → Type 0
AddsOne b r = Adds (session_ids b.state) (session_ids r.1.state)

pub add_session-ids :
    (s : Session) (b : Bridge)
    → session_ids (add_session s b).state ≡ session_ids b.state ++ s.session_id ∷ []
unfolding add_session
add_session-ids s b = append-ids s b.state.sessions

pub record_claimed-ids :
    (env : Env) (input : HookInput) (turn work id : String) (s : Session) (b : Bridge)
    → session_ids (record_claimed env input turn work id s b).state
      ≡ session_ids b.state ++ s.session_id ∷ []
unfolding record_claimed
record_claimed-ids env input turn work id s b =
    let added = add_session s b in
    let recorded =
      record_prompt_receipt env input (record_activity env (env.random 2) input added) in
    ap (map (λ x. x.session_id)) (
      record_claim-sessions env (env.random 3) input.session_id turn work id recorded
      ∙ recorded-sessions env (env.random 2) input added)
    ∙ add_session-ids s b

pub change_ticket-ids :
    (id : String) (f : Ticket → Ticket) (b : Bridge)
    → session_ids (change_ticket id f b).state ≡ session_ids b.state
unfolding change_ticket
change_ticket-ids id f b = refl

enroll-ids :
    (env : Env) (input : HookInput) (cwd id : String) (t : Ticket) (l : Lease) (b : Bridge)
    → session_ids (enroll env input cwd id t l b).state
      ≡ session_ids b.state ++ input.session_id ∷ []
unfolding enroll new_session
enroll-ids env input cwd id t l b =
    let claimed = change_ticket id (claim_ticket env input.session_id) b in
    let s = new_session env input cwd t l t.activation_origin in
    ap (map (λ x. x.session_id))
      (recorded-sessions env (env.random 2) input (add_session s claimed))
    ∙ add_session-ids s claimed
    ∙ ap (λ ids. ids ++ input.session_id ∷ [])
        (change_ticket-ids id (claim_ticket env input.session_id) b)

-- what comes after a lease, which leaves the sessions as they are
pub issue_lease-AddsOne :
    {A : Type 0} (env : Env) (config : Config) (scope : LeaseScope) (b : Bridge)
    (k : Lease × Bridge → Result (A × Bridge))
    → ((l : Lease) (leases : List (String × Lease))
        → Holds (AddsOne b) (k (l, record b { leases = leases })))
    → Holds (AddsOne b) (issue_lease env config scope b >>= k)
unfolding issue_lease
issue_lease-AddsOne env config scope b k h =
    elim (Bool-cases (has (env.sha256 scope.session_id) b.leases)) [
      | inl e ↦ rw e tt
      | inr e ↦ elim (Bool-cases env.lease_written) [
        | inl w ↦ rw (e, w) (h _ _)
        | inr w ↦ rw (e, w) tt
      ]
    ]

activate_ticket-AddsOne :
    (env : Env) (config : Config) (input : HookInput) (cwd id : String) (t : Ticket) (b : Bridge)
    → session_of b input.session_id ≡ none
    → Holds (AddsOne b) (activate_ticket env config input cwd id t b)
unfolding activate_ticket count_invalid
activate_ticket-AddsOne env config input cwd id t b fresh =
    elim (Bool-cases (ticket_is_current env t)) [
      | inl e ↦ rw e (
          issue_lease-AddsOne env config _ b _ λ l leases. inr (
            input.session_id,
            session_of-contains b input.session_id fresh,
            enroll-ids env input cwd id t l (record b { leases = leases }),
          ))
      | inr e ↦ rw e (inl (change_ticket-ids id revoke_ticket b))
    ]

pub activate_enrollment-AddsOne :
    (env : Env) (config : Config) (input : HookInput) (cwd : String) (parsed : EnrollmentCapsule)
    (b : Bridge)
    → Holds (AddsOne b) (activate_enrollment env config input cwd parsed b)
unfolding activate_enrollment
activate_enrollment-AddsOne env config input cwd parsed b =
    let same : Adds (session_ids b.state) (session_ids b.state) = inl refl in
    elim (Option-cases (session_of b input.session_id)) [
      | inr (s, e) ↦ ground arith
      | inl e ↦
          elim (Option-cases
            (find_first (has_ticket_id parsed.ticket_id) b.state.enrollment_tickets)) [
              | inl n ↦ ground arith
              | inr (t, n) ↦
                  let activated =
                    activate_ticket-AddsOne env config input cwd parsed.ticket_id t b e in
                  ground arith
            ]
    ]
