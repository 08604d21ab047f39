-- ===== src/Bridge/Tickets.antt =====
-- `#activate` on an enrollment capsule.
use af_companion.Prelude.{
  ℕ, ◌+◌, String, Bool, true, false, not, ◌&&◌, ◌||◌, Option, none, some, [], ◌∷◌, ltb, eqb, ◌==◌,
  if◌then◌else◌,
}
use af_companion.Prelude.Evolution.{find_first, update_first}
use af_companion.Bridge.Contract.{
  TicketStatus, Lease, Session, same_role, same_origin, ticket_is_pending,
}
use af_companion.Bridge.Results.{found, invalid, broken, ◌>>=◌, pure}
use af_companion.Bridge.State.{Ticket, Bridge}
use af_companion.Bridge.Platform.{EnrollmentCapsule, Config, Env}
use af_companion.Bridge.Records.{now_text, is_past, session_of}
use af_companion.Bridge.Mutate.{Mutation}
use af_companion.Bridge.Hooks.{HookInput, HookContext, record_activity, record_prompt_receipt}
use Prim.Native.Char.{code}
use Prim.Native.String.{[], ◌∷◌, count}
use af_companion.Bridge.Leases.{LeaseScope, issue_lease, new_session, add_session}

abbrev pub has_ticket_id : String → Ticket → Bool
has_ticket_id id t = t.ticket_id == id

unfoldable pub change_ticket : String → (Ticket → Ticket) → Bridge → Bridge
change_ticket id f b = record b {
  state = record b.state {
    enrollment_tickets = update_first (has_ticket_id id) f b.state.enrollment_tickets;
  };
}

-- a character of `[a-f0-9]`
abbrev is_hex : ℕ → Bool
is_hex c = not (ltb c 48) && ltb c 58 || not (ltb c 97) && ltb c 103

unfoldable all_hex : String → Bool
all_hex [] = true
all_hex (c ∷ s) = is_hex (code c) && all_hex s

-- `SHA256_PATTERN.test(text)`
unfoldable pub is_sha256 : String → Bool
unfolding all_hex
is_sha256 text = eqb (count text) 64 && all_hex text

-- the guard on the ticket of an enrollment capsule
unfoldable pub ticket_accepts : Env → String → EnrollmentCapsule → Ticket → Bool
ticket_accepts env cwd_digest parsed ticket =
    ticket_is_pending ticket.status
    && not (is_past env ticket.expires_at)
    && parsed.workspace_id == ticket.workspace_id
    && parsed.application_id == ticket.application_id
    && parsed.work_id == ticket.work_id
    && same_role parsed.role ticket.requested_role
    && parsed.canonical_cwd_digest == ticket.canonical_cwd_digest
    && cwd_digest == ticket.canonical_cwd_digest
    && same_origin parsed.activation_origin ticket.activation_origin
    && parsed.expires_at == ticket.expires_at
    && env.sha256 parsed.nonce == ticket.nonce_digest
    && env.sha256 parsed.claim_token == ticket.claim_token_digest

-- the work item is the one that the ticket was made for
unfoldable pub ticket_is_current : Env → Ticket → Bool
unfolding is_sha256
ticket_is_current env ticket = elim (env.work_item ticket.work_id) [
  | found item ↦ is_sha256 ticket.work_item_etag && item.etag == ticket.work_item_etag
  | invalid f ↦ false
  | broken f ↦ false
]

unfoldable pub claim_ticket : Env → String → Ticket → Ticket
claim_ticket env session_id t = record t {
  status = TicketStatus.claimed;
  claimed_by_session_id = some session_id;
  claimed_at = some (now_text env);
}

unfoldable pub revoke_ticket : Ticket → Ticket
revoke_ticket t = record t { status = TicketStatus.revoked }

-- `this.#diagnostics.invalid_activation_attempts += 1`
unfoldable pub count_invalid : Bridge → Bridge
count_invalid b = record b {
  diagnostics = record b.diagnostics {
    invalid_activation_attempts = b.diagnostics.invalid_activation_attempts + 1;
  };
}

abbrev pub ticket_lease_scope : HookInput → String → Ticket → LeaseScope
ticket_lease_scope input cwd_digest ticket = record {
  session_id = input.session_id;
  canonical_cwd_digest = cwd_digest;
  workspace_id = ticket.workspace_id;
  application_id = ticket.application_id;
  work_id = ticket.work_id;
  role = ticket.requested_role;
  activation_origin = ticket.activation_origin;
}

-- the session of an accepted ticket, once its lease is issued
unfoldable pub enroll : Env → HookInput → String → String → Ticket → Lease → Bridge → Bridge
unfolding claim_ticket change_ticket add_session new_session record_activity record_prompt_receipt
enroll env input cwd id ticket lease b = record_prompt_receipt env input (
    record_activity env (env.random 2) input (
      add_session (new_session env input cwd ticket lease ticket.activation_origin)
        (change_ticket id (claim_ticket env input.session_id) b)))

-- the part of `#activate` on an accepted ticket
unfoldable pub activate_ticket :
    Env → Config → HookInput → String → String → Ticket → Mutation (Option HookContext)
unfolding issue_lease enroll
activate_ticket env config input cwd id ticket b =
    if not (ticket_is_current env ticket)
    then pure (none, count_invalid (change_ticket id revoke_ticket b))
    else do
      issued ← issue_lease env config (ticket_lease_scope input (env.sha256 cwd) ticket) b
      pure (none, enroll env input cwd id ticket issued.0 issued.1)

abbrev pub is_some_session : Option Session → Bool
is_some_session none = false
is_some_session (some s) = true

-- the part of `#activate` on an enrollment capsule
unfoldable pub activate_enrollment :
    Env → Config → HookInput → String → EnrollmentCapsule → Mutation (Option HookContext)
unfolding activate_ticket
activate_enrollment env config input cwd parsed b =
    if is_some_session (session_of b input.session_id)
    then pure (none, b)
    else elim (find_first (has_ticket_id parsed.ticket_id) b.state.enrollment_tickets) [
      | none ↦ pure (none, b)
      | some ticket ↦
          if ticket_accepts env (env.sha256 cwd) parsed ticket
          then activate_ticket env config input cwd parsed.ticket_id ticket b
          else pure (none, b)
    ]
