-- ===== src/Bridge/Fixtures.antt =====
-- A bridge with one record of each kind.
use af_companion.Prelude.{true, none, some, List, [], ◌∷◌, if◌then◌else◌, ◌==◌}
use af_companion.Bridge.Contract.{
  companion_active, plan, af_cli_launch, side_effect_gated, active, session_start, client_dependent,
  HandoffStatus, GrantStatus, TicketStatus, DeliveryStatus, Session,
}
use af_companion.Bridge.Results.{ok, found}
use af_companion.Bridge.State.{Ticket, Handoff, Grant, Delivery, SourceRevision, Bridge}
use af_companion.Bridge.Enrollment.{CreateEnrollment}
use af_companion.Bridge.Hooks.{HookInput, start, no_proof}
use af_companion.Bridge.Platform.{Config, Env, WorkItem}
use af_companion.Bridge.Actions.{Action, run, resets}
use af_companion.Bridge.Actions

abbrev pub revision : SourceRevision
revision = record { head = some "abc"; dirty_hash = none; graph_etag = "etag" }

abbrev pub item : WorkItem
item = record {
  etag = "aaaaaaaaaaaaaaaaaaaaaaaaaaaaaaaaaaaaaaaaaaaaaaaaaaaaaaaaaaaaaaaa";
  discovery = none;
  decision = none;
  session_handoffs = [];
  pristine = true;
}

-- the clock shows 100, and a timestamp is "100" or a later time
abbrev pub env : Env
env = record {
  now = 100;
  date_parse = λ text. if text == "100" then 100 else 200;
  iso = λ n. "100";
  random = λ n. "random";
  sha256 = λ text. text;
  encrypt = λ body aad. record { ciphertext = body; iv = aad; auth_tag = "tag" };
  decrypt = λ sealed aad. some sealed.ciphertext;
  capsule = λ c. "capsule";
  parse_capsule = λ text. none;
  contained_cwd = λ cwd. ok cwd;
  work_item = λ id. found item;
  source_revision = λ id. found revision;
  lease_written = true;
  written = true;
}

abbrev pub config : Config
config = record {
  workspace_id = "w";
  repo_root = "/repo";
  session_ttl = 1000;
  enrollment_ttl = 1000;
  lease_ttl = 1000;
}

abbrev pub session : Session
session = record {
  session_id = "s";
  participation = companion_active;
  activation_origin = af_cli_launch;
  hook_mode = side_effect_gated;
  workspace_id = "w";
  application_id = "a";
  work_id = "work";
  role = plan;
  cwd = "/repo";
  canonical_cwd_digest = "/repo";
  model = "m";
  permission_mode = "plan";
  source = "startup";
  started_at = "100";
  last_seen_at = "100";
  last_event = session_start;
  last_turn_id = none;
  status = active;
  alias = none;
  lease_id = "l";
  lease_expires_at = "200";
  revoked_at = none;
  revoke_reason = none;
}

abbrev pub ticket : Ticket
ticket = record {
  ticket_id = "t";
  workspace_id = "w";
  application_id = "a";
  work_id = "work";
  requested_role = plan;
  activation_origin = af_cli_launch;
  canonical_cwd_digest = "/repo";
  issued_at = "100";
  expires_at = "200";
  status = TicketStatus.claimed;
  claimed_by_session_id = some "s";
  claimed_at = some "100";
  nonce_digest = "n";
  claim_token_digest = "c";
  hook_mode = side_effect_gated;
  work_item_etag = "etag";
}

abbrev pub handoff : Handoff
handoff = record {
  handoff_id = "h";
  workspace_id = "w";
  application_id = "a";
  work_id = "work";
  from_session_id = "s";
  from_turn_id = "turn";
  discovery_revision = "d1";
  decision_revision = "d2";
  plan_body_hash = "hash";
  marker_digest = "marker";
  capsule_digest = none;
  transport_capability = client_dependent;
  status = HandoffStatus.claimed;
  created_at = "100";
  expires_at = "200";
  claimed_by_session_id = some "other";
  claimed_by_turn_id = some "turn";
  claimed_at = some "100";
  target_session_id = none;
  failure_code = none;
  claim_token_digest = none;
  plan_body = none;
}

abbrev pub grant : Grant
grant = record {
  grant_id = "g";
  workspace_id = "w";
  application_id = "a";
  work_id = "work";
  from_session_id = "s";
  from_turn_id = "turn";
  bootstrap_work_item_etag = "etag";
  plan_body_hash = "hash";
  marker_digest = "marker";
  status = GrantStatus.claimed;
  created_at = "100";
  expires_at = "200";
  claimed_by_session_id = some "other";
  claimed_by_turn_id = some "turn";
  claimed_at = some "100";
  finalized_at = none;
  failure_code = none;
  claim_token_digest = none;
  plan_body = none;
}

abbrev pub queued : Delivery
queued = record {
  delivery_id = "d";
  selection_id = "sel";
  target_session_id = "s";
  status = DeliveryStatus.queued;
  created_at = "100";
  delivered_at = none;
  consumed_at = none;
  consumed_turn_id = none;
  error = none;
  bundle = record {
    selection_id = "sel";
    workspace_id = "w";
    artifact_root_id = "artifacts/af/work";
    graph_id = "graph";
    source_revision = revision;
    content = "content";
    created_at = "100";
    expires_at = "200";
  };
  scope = record {
    workspace_id = "w";
    application_id = "a";
    work_id = "work";
    allowed_roles = plan ∷ [];
  };
}

abbrev pub failed : Delivery
failed = record queued {
  delivery_id = "e";
  status = DeliveryStatus.failed;
  error = some "eligible";
}

abbrev pub bridge : Bridge
bridge = record {
  state = record {
    bridge_instance_id = "i";
    enrollment_tickets = ticket ∷ [];
    sessions = session ∷ [];
    deliveries = failed ∷ queued ∷ [];
    handoffs = handoff ∷ [];
    materialization_grants = grant ∷ [];
    prompt_receipts = [];
    activities = [];
  };
  leases = [];
  diagnostics = record {
    ignored_hook_invocations = 0;
    invalid_activation_attempts = 0;
    expired_tickets = 0;
  };
}

abbrev pub actions : List (Env × Action)
actions =
    (env, Actions.cancel "h")
    ∷ (env, Actions.view)
    ∷ (env, Actions.revoke "s" "done")
    ∷ (env, Actions.reopen)
    ∷ []

abbrev pub asked : CreateEnrollment
asked = record {
  application_id = "a";
  work_id = "work";
  requested_role = plan;
  activation_origin = af_cli_launch;
  hook_mode = side_effect_gated;
  expires_at = some "200";
}

-- the bridge with a ticket that nobody has claimed, which `new_ticket` makes
abbrev pub ticketed : Bridge
ticketed = record bridge {
  state = record bridge.state {
    enrollment_tickets =
        ticket
        ∷ record {
          ticket_id = "random";
          workspace_id = "w";
          application_id = "a";
          work_id = "work";
          requested_role = plan;
          activation_origin = af_cli_launch;
          canonical_cwd_digest = "/repo";
          issued_at = "100";
          expires_at = "200";
          status = TicketStatus.pending;
          claimed_by_session_id = none;
          claimed_at = none;
          nonce_digest = "random";
          claim_token_digest = "random";
          hook_mode = side_effect_gated;
          work_item_etag = item.etag;
        }
        ∷ [];
  };
}

abbrev pub starting : HookInput
starting = record {
  session_id = "new";
  cwd = "/repo";
  model = "m";
  permission_mode = "plan";
  event = start "startup";
  companion_proof = no_proof;
}
