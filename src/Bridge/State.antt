-- ===== src/Bridge/State.antt =====
-- The records of `PersistedBridgeStateV2`, and what the store reads of the platform.
-- The three parts of an encrypted plan body are set and cleared together, so they are one field.
use af_companion.Prelude.{String, ℕ, Option, List, []}
use af_companion.Bridge.Contract.{
  Role, ActivationOrigin, HookMode, TicketStatus, TransportCapability, HandoffStatus, GrantStatus,
  DeliveryStatus, LastEvent, Lease, Session, DeliveryScope,
}

pub record Ticket : Type 0 where
  pub ticket_id : String
  pub workspace_id : String
  pub application_id : String
  pub work_id : String
  pub requested_role : Role
  pub activation_origin : ActivationOrigin
  pub canonical_cwd_digest : String
  pub issued_at : String
  pub expires_at : String
  pub status : TicketStatus
  pub claimed_by_session_id : Option String
  pub claimed_at : Option String
  pub nonce_digest : String
  pub claim_token_digest : String
  pub hook_mode : HookMode
  pub work_item_etag : String

pub record Sealed : Type 0 where
  pub ciphertext : String
  pub iv : String
  pub auth_tag : String

pub record Handoff : Type 0 where
  pub handoff_id : String
  pub workspace_id : String
  pub application_id : String
  pub work_id : String
  pub from_session_id : String
  pub from_turn_id : String
  pub discovery_revision : String
  pub decision_revision : String
  pub plan_body_hash : String
  pub marker_digest : String
  pub capsule_digest : Option String
  pub transport_capability : TransportCapability
  pub status : HandoffStatus
  pub created_at : String
  pub expires_at : String
  pub claimed_by_session_id : Option String
  pub claimed_by_turn_id : Option String
  pub claimed_at : Option String
  pub target_session_id : Option String
  pub failure_code : Option String
  pub claim_token_digest : Option String
  pub plan_body : Option Sealed

pub record Grant : Type 0 where
  pub grant_id : String
  pub workspace_id : String
  pub application_id : String
  pub work_id : String
  pub from_session_id : String
  pub from_turn_id : String
  pub bootstrap_work_item_etag : String
  pub plan_body_hash : String
  pub marker_digest : String
  pub status : GrantStatus
  pub created_at : String
  pub expires_at : String
  pub claimed_by_session_id : Option String
  pub claimed_by_turn_id : Option String
  pub claimed_at : Option String
  pub finalized_at : Option String
  pub failure_code : Option String
  pub claim_token_digest : Option String
  pub plan_body : Option String

pub record SourceRevision : Type 0 where
  pub head : Option String
  pub dirty_hash : Option String
  pub graph_etag : String

-- `content` is the text of the selected objects, the derived context and the user's intent, which
-- the store only passes on.
pub record Bundle : Type 0 where
  pub selection_id : String
  pub workspace_id : String
  pub artifact_root_id : String
  pub graph_id : String
  pub source_revision : SourceRevision
  pub content : String
  pub created_at : String
  pub expires_at : String

pub record Delivery : Type 0 where
  pub delivery_id : String
  pub selection_id : String
  pub target_session_id : String
  pub status : DeliveryStatus
  pub created_at : String
  pub delivered_at : Option String
  pub consumed_at : Option String
  pub consumed_turn_id : Option String
  pub error : Option String
  pub bundle : Bundle
  pub scope : DeliveryScope

pub record PromptReceipt : Type 0 where
  pub session_id : String
  pub turn_id : String
  pub received_at : String

pub record Activity : Type 0 where
  pub activity_id : String
  pub session_id : String
  pub turn_id : Option String
  pub event : LastEvent
  pub tool_name : Option String
  pub work_id : Option String
  pub handoff_id : Option String
  pub at : String

pub record State : Type 0 where
  pub bridge_instance_id : String
  pub enrollment_tickets : List Ticket
  pub sessions : List Session
  pub deliveries : List Delivery
  pub handoffs : List Handoff
  pub materialization_grants : List Grant
  pub prompt_receipts : List PromptReceipt
  pub activities : List Activity

pub record Diagnostics : Type 0 where
  pub ignored_hook_invocations : ℕ
  pub invalid_activation_attempts : ℕ
  pub expired_tickets : ℕ

-- `leases` are the files of the lease directory, by name.
pub record Bridge : Type 0 where
  pub state : State
  pub leases : List (String × Lease)
  pub diagnostics : Diagnostics

abbrev pub empty_state : State
empty_state = record {
  bridge_instance_id = "";
  enrollment_tickets = [];
  sessions = [];
  deliveries = [];
  handoffs = [];
  materialization_grants = [];
  prompt_receipts = [];
  activities = [];
}
