-- ===== src/Bridge/Contract.antt =====
-- web/src/companion/sessionContract.ts and the deliveries of web/src/companion/types.ts: what the
-- bridge keeps and exchanges. A timestamp is the ISO text that the source keeps. Fields with one
-- possible value (`schema_version`, `workspace_eligibility`, `target_skill`, `delivery_mode`,
-- `consume_policy`, `decision_input_mode`) are left out.
use af_companion.Prelude.{
  String, ℕ, Bool, true, false, ◌||◌, Option, List, [], ◌∷◌, if◌then◌else◌, not, ltb, ◌==◌,
}

pub data Participation : Type 0 where
  companion_active revoked expired : Participation

pub data Role : Type 0 where
  plan materialization : Role

pub data ActivationOrigin : Type 0 where
  af_cli_launch af_vscode_launch plan_handoff_capsule : ActivationOrigin
  explicit_join_capsule manual_attach_confirmed : ActivationOrigin

pub data HookMode : Type 0 where
  side_effect_gated strict_profile : HookMode

pub data SessionStatus : Type 0 where
  active stale : SessionStatus

pub data TicketStatus : Type 0 where
  pending claimed expired revoked : TicketStatus

pub data TransportCapability : Type 0 where
  preserved preserved_with_normalization stripped client_dependent unverified : TransportCapability

pub data HandoffStatus : Type 0 where
  ready waiting_for_fresh_session claimed expired superseded failed canceled : HandoffStatus

pub data GrantStatus : Type 0 where
  ready waiting_for_fresh_session claimed finalized expired superseded failed : GrantStatus

pub data DeliveryStatus : Type 0 where
  queued consumed expired canceled failed : DeliveryStatus

pub data LastEvent : Type 0 where
  session_start prompt_submit tool_start tool_end turn_stop session_handoff : LastEvent

pub record Lease : Type 0 where
  pub lease_id : String
  pub lease_token : String
  pub bridge_instance_id : String
  pub session_id : String
  pub canonical_cwd_digest : String
  pub workspace_id : String
  pub application_id : String
  pub work_id : String
  pub role : Role
  pub activation_origin : ActivationOrigin
  pub issued_at : String
  pub expires_at : String

pub record Session : Type 0 where
  pub session_id : String
  pub participation : Participation
  pub activation_origin : ActivationOrigin
  pub hook_mode : HookMode
  pub workspace_id : String
  pub application_id : String
  pub work_id : String
  pub role : Role
  pub cwd : String
  pub canonical_cwd_digest : String
  pub model : String
  pub permission_mode : String
  pub source : String
  pub started_at : String
  pub last_seen_at : String
  pub last_event : LastEvent
  pub last_turn_id : Option String
  pub status : SessionStatus
  pub alias : Option String
  pub lease_id : String
  pub lease_expires_at : String
  pub revoked_at : Option String
  pub revoke_reason : Option String

pub record DeliveryScope : Type 0 where
  pub workspace_id : String
  pub application_id : String
  pub work_id : String
  pub allowed_roles : List Role

pub data Ineligible : Type 0 where
  participation_inactive session_stale lease_expired workspace_mismatch : Ineligible
  application_mismatch work_mismatch role_not_allowed : Ineligible

abbrev pub is_companion_active : Participation → Bool
is_companion_active companion_active = true
is_companion_active _ = false

abbrev pub is_revoked : Participation → Bool
is_revoked revoked = true
is_revoked _ = false

abbrev pub session_is_active : SessionStatus → Bool
session_is_active active = true
session_is_active stale = false

abbrev pub same_role : Role → Role → Bool
same_role plan plan = true
same_role materialization materialization = true
same_role _ _ = false

abbrev pub is_plan : Role → Bool
is_plan r = same_role r plan

-- `roles.includes(role)`
unfoldable pub includes_role : List Role → Role → Bool
includes_role [] r = false
includes_role (x ∷ roles) r = same_role x r || includes_role roles r

-- `deliveryEligibility`, given the two times in milliseconds: `none` is eligible, and the reason
-- otherwise
unfoldable pub delivery_eligibility : Session → DeliveryScope → ℕ → ℕ → Option Ineligible
unfolding includes_role
delivery_eligibility session scope lease_expires now =
    if not (is_companion_active session.participation)
    then Option.some participation_inactive
    else if not (session_is_active session.status)
    then Option.some session_stale
    else if not (ltb now lease_expires)
    then Option.some lease_expired
    else if not (session.workspace_id == scope.workspace_id)
    then Option.some workspace_mismatch
    else if not (session.application_id == scope.application_id)
    then Option.some application_mismatch
    else if not (session.work_id == scope.work_id)
    then Option.some work_mismatch
    else if not (includes_role scope.allowed_roles session.role)
    then Option.some role_not_allowed
    else Option.none

abbrev pub is_queued : DeliveryStatus → Bool
is_queued queued = true
is_queued _ = false

abbrev pub ticket_is_pending : TicketStatus → Bool
ticket_is_pending pending = true
ticket_is_pending _ = false

-- `status === "ready" || status === "waiting_for_fresh_session"`
abbrev pub handoff_is_pending : HandoffStatus → Bool
handoff_is_pending HandoffStatus.ready = true
handoff_is_pending HandoffStatus.waiting_for_fresh_session = true
handoff_is_pending _ = false

abbrev pub handoff_is_waiting : HandoffStatus → Bool
handoff_is_waiting HandoffStatus.waiting_for_fresh_session = true
handoff_is_waiting _ = false

-- `status === "ready" || status === "waiting_for_fresh_session"`
abbrev pub grant_is_pending : GrantStatus → Bool
grant_is_pending GrantStatus.ready = true
grant_is_pending GrantStatus.waiting_for_fresh_session = true
grant_is_pending _ = false

abbrev pub grant_is_waiting : GrantStatus → Bool
grant_is_waiting GrantStatus.waiting_for_fresh_session = true
grant_is_waiting _ = false

abbrev pub grant_is_claimed : GrantStatus → Bool
grant_is_claimed GrantStatus.claimed = true
grant_is_claimed _ = false

abbrev pub same_origin : ActivationOrigin → ActivationOrigin → Bool
same_origin af_cli_launch af_cli_launch = true
same_origin af_vscode_launch af_vscode_launch = true
same_origin plan_handoff_capsule plan_handoff_capsule = true
same_origin explicit_join_capsule explicit_join_capsule = true
same_origin manual_attach_confirmed manual_attach_confirmed = true
same_origin _ _ = false
