-- ===== src/Bridge/Moves/Activating.antt =====
-- `handleHook` and `createEnrollment`, as moves of the records. A handoff that an activation fails
-- need not be pending.
use af_companion.Prelude.{
  arith, String, true, some, List, ◌≡◌, refl, inl, inr, Bool-cases, Option-cases,
}
use af_companion.Prelude.StringMap.{has}
use af_companion.Prelude.Evolution.{find_first}
use af_companion.Bridge.Contract.{ticket_is_pending, Lease, Session}
use af_companion.Bridge.Results.{Result, ◌>>=◌, Holds}
use af_companion.Bridge.State.{Ticket, Bridge}
use af_companion.Bridge.Platform.{EnrollmentCapsule, Config, Env}
use af_companion.Bridge.Hooks.{HookInput, record_activity, record_prompt_receipt}
use af_companion.Bridge.Leases.{LeaseScope, issue_lease, add_session, new_session}
use af_companion.Bridge.Tickets.{
  has_ticket_id, change_ticket, ticket_accepts, claim_ticket, revoke_ticket, count_invalid, enroll,
  ticket_is_current, activate_ticket, activate_enrollment,
}
use af_companion.Bridge.Activation.{record_claimed}
use af_companion.Bridge.Moves.{TicketMove, Moves, Moves-refl, Moves-trans}
use af_companion.Bridge.Moves.Time.{Moved}
use af_companion.Bridge.Moves.Parts.{change_ticket-Moves, add_session-Moves}
use af_companion.Bridge.Moves.Prompts.{recorded-Moves, record_claim-Moves}

-- What comes after a lease: only the leases have changed.
pub issue_lease-Moves :
    {A : Type 0} (env : Env) (config : Config) (scope : LeaseScope) (b : Bridge)
    (k : Lease × Bridge → Result (A × Bridge))
    → ((l : Lease) (leases : List (String × Lease))
        → Holds (Moved b) (k (l, record b { leases = leases })))
    → Holds (Moved b) (issue_lease env config scope b >>= k)
unfolding issue_lease
issue_lease-Moves env config scope b k h =
    elim (Bool-cases (has (env.sha256 scope.session_id) b.leases)) [
      | inl e ↦ rw e tt
      | inr e ↦ elim (Bool-cases env.lease_written) [
        | inl w ↦ rw (e, w) (h _ _)
        | inr w ↦ rw (e, w) tt
      ]
    ]

-- an activated session is added, with what its hook records
added-Moves :
    (env : Env) (input : HookInput) (s : Session) (b : Bridge)
    → Moves b.state
        (record_prompt_receipt env input
          (record_activity env (env.random 2) input (add_session s b))).state
added-Moves env input s b =
    let added = add_session s b in
    Moves-trans b.state added.state
      (record_prompt_receipt env input (record_activity env (env.random 2) input added)).state
      (add_session-Moves s b) (recorded-Moves env (env.random 2) input added)

pub record_claimed-Moves :
    (env : Env) (input : HookInput) (turn work id : String) (s : Session) (b : Bridge)
    → Moves b.state (record_claimed env input turn work id s b).state
unfolding record_claimed
record_claimed-Moves env input turn work id s b =
    let added =
      record_prompt_receipt env input
        (record_activity env (env.random 2) input (add_session s b)) in
    Moves-trans b.state added.state (record_claimed env input turn work id s b).state
      (added-Moves env input s b)
      (record_claim-Moves env (env.random 3) input.session_id turn work id added)

enroll-Moves :
    (env : Env) (input : HookInput) (cwd id : String) (t : Ticket) (l : Lease) (b : Bridge)
    → find_first (has_ticket_id id) b.state.enrollment_tickets ≡ some t
    → TicketMove t (claim_ticket env input.session_id t)
    → Moves b.state (enroll env input cwd id t l b).state
unfolding enroll
enroll-Moves env input cwd id t l b found m =
    let claimed = change_ticket id (claim_ticket env input.session_id) b in
    Moves-trans b.state claimed.state (enroll env input cwd id t l b).state
      (change_ticket-Moves id (claim_ticket env input.session_id) b t found m)
      (added-Moves env input (new_session env input cwd t l t.activation_origin) claimed)

activate_ticket-Moves :
    (env : Env) (config : Config) (input : HookInput) (cwd id : String) (t : Ticket) (b : Bridge)
    → find_first (has_ticket_id id) b.state.enrollment_tickets ≡ some t
    → ticket_is_pending t.status ≡ true
    → Holds (Moved b) (activate_ticket env config input cwd id t b)
unfolding activate_ticket revoke_ticket claim_ticket count_invalid
activate_ticket-Moves env config input cwd id t b found p =
    elim (Bool-cases (ticket_is_current env t)) [
      | inl e ↦ rw e (
          issue_lease-Moves env config _ b _ λ l leases.
            enroll-Moves env input cwd id t l (record b { leases = leases }) found (refl, inl p))
      | inr e ↦ rw e (change_ticket-Moves id revoke_ticket b t found (refl, inl p))
    ]

pub activate_enrollment-Moves :
    (env : Env) (config : Config) (input : HookInput) (cwd : String) (parsed : EnrollmentCapsule)
    (b : Bridge)
    → Holds (Moved b) (activate_enrollment env config input cwd parsed b)
unfolding activate_enrollment ticket_accepts
activate_enrollment-Moves env config input cwd parsed b =
    let id = parsed.ticket_id in
    let same = Moves-refl b.state in
    elim (Option-cases (find_first (has_ticket_id id) b.state.enrollment_tickets)) [
      | inl e ↦ ground arith
      | inr (t, e) ↦ elim (Bool-cases (ticket_is_pending t.status)) [
        | inl p ↦
            let activated = activate_ticket-Moves env config input cwd id t b e p in ground arith
        | inr p ↦ ground arith
      ]
    ]
