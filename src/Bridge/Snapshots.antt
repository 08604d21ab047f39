-- ===== src/Bridge/Snapshots.antt =====
-- What `snapshot` answers after its mutation, as far as the journey of the companion reads it: the
-- other capabilities, the deliveries, handoffs, grants and activities are left out.
use af_companion.Prelude.{String, Bool, true, false, Option, List, [], map}
use af_companion.Bridge.Contract.{Role, ActivationOrigin, TicketStatus, Session, ticket_is_pending}
use af_companion.Bridge.State.{Ticket, Diagnostics, Bridge}
use af_companion.Bridge.Records.{filter}

-- a ticket without its secrets
pub record PublicTicket : Type 0 where
  pub ticket_id : String
  pub workspace_id : String
  pub application_id : String
  pub work_id : String
  pub requested_role : Role
  pub activation_origin : ActivationOrigin
  pub canonical_cwd_digest : String
  pub issued_at : String
  pub expires_at : String
  pub status : TicketStatus
  pub claimed_by_session_id : Option String
  pub claimed_at : Option String

pub record Snapshot : Type 0 where
  pub bridge_instance_id : String
  pub bridge_available : Bool
  pub enrollment_tickets : List PublicTicket
  pub sessions : List Session
  pub diagnostics : Diagnostics

-- `#publicTicket`
unfoldable pub public_ticket : Ticket → PublicTicket
public_ticket t = record {
  ticket_id = t.ticket_id;
  workspace_id = t.workspace_id;
  application_id = t.application_id;
  work_id = t.work_id;
  requested_role = t.requested_role;
  activation_origin = t.activation_origin;
  canonical_cwd_digest = t.canonical_cwd_digest;
  issued_at = t.issued_at;
  expires_at = t.expires_at;
  status = t.status;
  claimed_by_session_id = t.claimed_by_session_id;
  claimed_at = t.claimed_at;
}

abbrev pub is_pending_ticket : Ticket → Bool
is_pending_ticket t = ticket_is_pending t.status

-- the answer of `snapshot`
unfoldable pub read_snapshot : Bridge → Snapshot
unfolding public_ticket
read_snapshot b = record {
  bridge_instance_id = b.state.bridge_instance_id;
  bridge_available = true;
  enrollment_tickets = map public_ticket (filter is_pending_ticket b.state.enrollment_tickets);
  sessions = b.state.sessions;
  diagnostics = b.diagnostics;
}

-- `unavailableSnapshot` of codexCompanionApi.ts, which stands for a bridge that does not answer
abbrev pub unavailable_snapshot : Snapshot
unavailable_snapshot = record {
  bridge_instance_id = "unavailable";
  bridge_available = false;
  enrollment_tickets = [];
  sessions = [];
  diagnostics = record {
    ignored_hook_invocations = 0;
    invalid_activation_attempts = 0;
    expired_tickets = 0;
  };
}
