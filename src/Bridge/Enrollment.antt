-- ===== src/Bridge/Enrollment.antt =====
-- `createEnrollment`.
use af_companion.Prelude.{◌+◌, String, Option, none, some, [], ◌∷◌, ◌++◌, ltb}
use af_companion.Bridge.Contract.{Role, ActivationOrigin, HookMode, TicketStatus}
use af_companion.Bridge.Results.{Result, ok, throw, ◌>>=◌, ◌>>◌, pure, require, read, conflict}
use af_companion.Bridge.State.{Ticket, Bridge}
use af_companion.Bridge.Platform.{EnrollmentCapsule, Capsule, Config, Env, WorkItem}
use af_companion.Bridge.Records.{now_text}
use af_companion.Bridge.Mutate.{Mutation, mutate}
use Prim.Native.String.{[], ◌∷◌}

pub record CreateEnrollment : Type 0 where
  pub application_id : String
  pub work_id : String
  pub requested_role : Role
  pub activation_origin : ActivationOrigin
  pub hook_mode : HookMode
  pub expires_at : Option String

abbrev pub enrollment_expires_at : Env → Config → CreateEnrollment → String
enrollment_expires_at env config input = elim input.expires_at [
  | some at ↦ at
  | none ↦ env.iso (env.now + config.enrollment_ttl)
]

unfoldable pub new_ticket : Env → Config → CreateEnrollment → WorkItem → Ticket
new_ticket env config input item = record {
  ticket_id = env.random 2;
  workspace_id = config.workspace_id;
  application_id = input.application_id;
  work_id = input.work_id;
  requested_role = input.requested_role;
  activation_origin = input.activation_origin;
  canonical_cwd_digest = env.sha256 config.repo_root;
  issued_at = now_text env;
  expires_at = enrollment_expires_at env config input;
  status = TicketStatus.pending;
  claimed_by_session_id = none;
  claimed_at = none;
  nonce_digest = env.sha256 (env.random 0);
  claim_token_digest = env.sha256 (env.random 1);
  hook_mode = input.hook_mode;
  work_item_etag = item.etag;
}

unfoldable pub enrollment_payload : Env → Config → CreateEnrollment → EnrollmentCapsule
enrollment_payload env config input = record {
  ticket_id = env.random 2;
  nonce = env.random 0;
  claim_token = env.random 1;
  workspace_id = config.workspace_id;
  application_id = input.application_id;
  work_id = input.work_id;
  role = input.requested_role;
  canonical_cwd_digest = env.sha256 config.repo_root;
  activation_origin = input.activation_origin;
  expires_at = enrollment_expires_at env config input;
}

abbrev pub enrollment_capsule : Env → Config → CreateEnrollment → String
enrollment_capsule env config input =
    env.capsule (Capsule.enrollment (enrollment_payload env config input))

unfoldable pub add_ticket : Ticket → Mutation (Unit {0})
add_ticket t b = pure (
  tt,
  record b {
    state = record b.state { enrollment_tickets = b.state.enrollment_tickets ++ (t ∷ []) };
  },
)

-- the ticket and the capsule of an accepted enrollment
unfoldable pub enrollment : Env → Config → CreateEnrollment → Result (Ticket × String)
unfolding new_ticket
enrollment env config input = do
  item ← read (env.work_item input.work_id)
  require (ltb env.now (env.date_parse (enrollment_expires_at env config input)))
      (conflict "ticket_expired")
  pure (new_ticket env config input item, enrollment_capsule env config input)

unfoldable pub push_ticket :
    Env → Config → Result (Ticket × String) → Bridge → Result (Ticket × String) × Bridge
unfolding mutate add_ticket
push_ticket env config (throw f) b = (throw f, b)
push_ticket env config (ok (ticket, capsule)) b =
    let run = mutate env config (add_ticket ticket) b in
    elim run.0 [ ok u ↦ (ok (ticket, capsule), run.1) | throw f ↦ (throw f, run.1) ]

-- `createEnrollment`: the ticket and its activation capsule
unfoldable pub create_enrollment :
    Env → Config → CreateEnrollment → Bridge → Result (Ticket × String) × Bridge
unfolding enrollment push_ticket
create_enrollment env config input b = push_ticket env config (enrollment env config input) b
