-- ===== src/Bridge/Platform.antt =====
-- What the store reads: its configuration, the work items, the capsules and the platform.
use af_companion.Prelude.{String, ℕ, Bool, Option, List}
use af_companion.Bridge.Results.{Result, Reading}
use af_companion.Bridge.Contract.{Role, ActivationOrigin}
use af_companion.Bridge.State.{Sealed, SourceRevision}

-- the store's own constants
pub record Config : Type 0 where
  pub workspace_id : String
  pub repo_root : String
  pub session_ttl : ℕ
  pub enrollment_ttl : ℕ
  pub lease_ttl : ℕ

-- A revision of a work item, by its digest and by the text that `JSON.stringify` gives for it.
pub record WorkRevision : Type 0 where
  pub digest : String
  pub text : String

-- an entry of `session_handoffs` of a work item
pub record WorkHandoff : Type 0 where
  pub handoff_id : String
  pub marker_digest : String
  pub work_id : String
  pub from_session_id : String
  pub from_turn_id : String
  pub discovery_revision : WorkRevision
  pub decision_revision : WorkRevision
  pub plan_hash : String
  pub target_skill : String
  pub status : String
  pub created_at : String
  pub expires_at : String
  pub claimed_by_session_id : Option String
  pub claimed_turn_id : Option String
  pub claimed_at : Option String
  pub superseded_by_handoff_id : Option String

-- What the store uses of a work item; `pristine` is the result of `isPristineWorkItem`.
pub record WorkItem : Type 0 where
  pub etag : String
  pub discovery : Option WorkRevision
  pub decision : Option WorkRevision
  pub session_handoffs : List WorkHandoff
  pub pristine : Bool

pub record EnrollmentCapsule : Type 0 where
  pub ticket_id : String
  pub nonce : String
  pub claim_token : String
  pub workspace_id : String
  pub application_id : String
  pub work_id : String
  pub role : Role
  pub canonical_cwd_digest : String
  pub activation_origin : ActivationOrigin
  pub expires_at : String

pub record HandoffCapsule : Type 0 where
  pub handoff_id : String
  pub claim_token : String
  pub workspace_id : String
  pub application_id : String
  pub work_id : String
  pub from_session_id : String
  pub from_turn_id : String
  pub discovery_revision : String
  pub decision_revision : String
  pub plan_body_hash : String
  pub marker_digest : String
  pub canonical_cwd_digest : String
  pub target_session_id : Option String
  pub expires_at : String

pub record GrantCapsule : Type 0 where
  pub grant_id : String
  pub claim_token : String
  pub workspace_id : String
  pub application_id : String
  pub work_id : String
  pub from_session_id : String
  pub from_turn_id : String
  pub bootstrap_work_item_etag : String
  pub plan_body_hash : String
  pub marker_digest : String
  pub canonical_cwd_digest : String
  pub expires_at : String

pub data Capsule : Type 0 where
  enrollment : EnrollmentCapsule → Capsule
  handoff : HandoffCapsule → Capsule
  materialization_grant : GrantCapsule → Capsule

-- What an operation reads of the platform while it runs: the clock, the random values in the order
-- in which they are drawn, the cryptography of Node, the texts of capsules, and the repository's
-- files. `lease_written` and `written` say whether the file of a lease and the state file could be written.
pub record Env : Type 0 where
  pub now : ℕ
  pub date_parse : String → ℕ
  pub iso : ℕ → String
  pub random : ℕ → String
  pub sha256 : String → String
  pub encrypt : String → String → Sealed
  pub decrypt : Sealed → String → Option String
  pub capsule : Capsule → String
  pub parse_capsule : String → Option Capsule
  pub contained_cwd : String → Result String
  pub work_item : String → Reading WorkItem
  pub source_revision : String → Reading SourceRevision
  pub lease_written : Bool
  pub written : Bool
