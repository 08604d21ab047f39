-- ===== src/Journey/Recovery.antt =====
-- The decisions of packages/web/src/companion/journeyRecovery.ts. `Date.parse` is a parameter; `none`
-- stands for NaN, and a time is not before 1970. The texts that the screen shows are left out, and so
-- is what an error code finds that is the name of a property of `Object.prototype`.
use af_companion.Prelude.{
  String, ℕ, ◌+◌, Bool, true, false, not, ◌&&◌, ◌||◌, Option, none, some, List, [], ◌∷◌, ltb, ◌==◌,
  if◌then◌else◌,
}
use af_companion.Prelude.StringMap.{get, is_some}
use af_companion.Bridge.Contract.{
  ActivationOrigin, Session, is_plan, is_companion_active, ticket_is_pending,
}
use af_companion.Bridge.State.{Diagnostics}
use af_companion.Bridge.Records.{truthy}
use af_companion.Bridge.Snapshots.{PublicTicket, Snapshot}

pub data RecoveryState : Type 0 where
  bridge_down work_item_missing vscode_unavailable vscode_launch_failed : RecoveryState
  launch_cooldown enrollment_unclaimed enrollment_expired hook_not_observed : RecoveryState
  activation_rejected stale_revision mcp_export_failed : RecoveryState

pub record Observation : Type 0 where
  pub snapshot : Option Snapshot
  pub error_code : Option String
  pub work_id : Option String
  pub launched_at : Option String
  pub diagnostic_baseline : Option Diagnostics
  pub observed_pending_ticket : Bool

abbrev pub error_states : List (String × RecoveryState)
error_states =
    ("bridge_unavailable", bridge_down)
    ∷ ("invalid_bridge_endpoint", bridge_down)
    ∷ ("work_item_missing", work_item_missing)
    ∷ ("code_unavailable", vscode_unavailable)
    ∷ ("code_launch_failed", vscode_launch_failed)
    ∷ ("workspace_generation_failed", vscode_launch_failed)
    ∷ ("launch_cooldown", launch_cooldown)
    ∷ ("ticket_expired", enrollment_expired)
    ∷ ("invalid_activation", activation_rejected)
    ∷ ("stale_selection", stale_revision)
    ∷ ("stale_revision", stale_revision)
    ∷ ("etag_conflict", stale_revision)
    ∷ ("graph_revision_changed", stale_revision)
    ∷ ("canonical_handoff_stale", stale_revision)
    ∷ ("source_turn_stale", stale_revision)
    ∷ ("source_revision_unavailable", stale_revision)
    ∷ ("mcp_export_failed", mcp_export_failed)
    ∷ []

-- `recoveryStateFromErrorCode`
unfoldable pub recovery_state_from_error_code : Option String → Option RecoveryState
unfolding get
recovery_state_from_error_code code = elim (truthy code) [
  | none ↦ none
  | some text ↦ get text error_states
]

abbrev pub is_vscode_launch : ActivationOrigin → Bool
is_vscode_launch ActivationOrigin.af_vscode_launch = true
is_vscode_launch _ = false

-- `list.some(p)`
unfoldable pub some_of {ℓ} : {A : Type ℓ} → (A → Bool) → List A → Bool
some_of p [] = false
some_of p (x ∷ xs) = p x || some_of p xs

-- what the diagnostics tell that grew since the baseline
unfoldable pub classify_diagnostics : Diagnostics → Diagnostics → Option RecoveryState
classify_diagnostics baseline now =
    if ltb baseline.invalid_activation_attempts now.invalid_activation_attempts
    then some activation_rejected
    else if ltb baseline.expired_tickets now.expired_tickets
    then some enrollment_expired
    else if ltb baseline.ignored_hook_invocations now.ignored_hook_invocations
    then some hook_not_observed
    else none

module _ (date_parse : String → Option ℕ) where
  -- `Date.parse(at) >= Date.parse(launchedAt) - 5_000`, which is false where one of them is NaN
  unfoldable pub since_launch : String → String → Bool
  since_launch launched_at at = elim (date_parse at) [
    | none ↦ false
    | some time ↦ elim (date_parse launched_at) [
      | none ↦ false
      | some launched ↦ not (ltb (time + 5000) launched)
    ]
  ]

  -- a session of the launch
  unfoldable pub is_exact_session : String → String → Session → Bool
  unfolding since_launch
  is_exact_session work_id launched_at s =
      s.work_id == work_id
      && is_plan s.role
      && is_vscode_launch s.activation_origin
      && is_companion_active s.participation
      && since_launch launched_at s.started_at

  -- a ticket of the launch that is not claimed
  unfoldable pub is_pending_launch : String → String → PublicTicket → Bool
  unfolding since_launch
  is_pending_launch work_id launched_at t =
      t.work_id == work_id
      && is_plan t.requested_role
      && is_vscode_launch t.activation_origin
      && ticket_is_pending t.status
      && since_launch launched_at t.issued_at

  -- an exact session with `last_turn_id === null`
  unfoldable pub awaits_prompt : String → String → Session → Bool
  unfolding is_exact_session
  awaits_prompt work_id launched_at s =
      is_exact_session work_id launched_at s && not (is_some s.last_turn_id)

  -- the last two decisions
  unfoldable pub classify_sessions : Snapshot → String → String → Option RecoveryState
  unfolding is_exact_session is_pending_launch awaits_prompt some_of
  classify_sessions snapshot work_id launched_at =
      if some_of (awaits_prompt work_id launched_at) snapshot.sessions
      then some hook_not_observed
      else if some_of (is_pending_launch work_id launched_at) snapshot.enrollment_tickets
          && not (some_of (is_exact_session work_id launched_at) snapshot.sessions)
      then some enrollment_unclaimed
      else none

  -- the decisions for a work item that was launched
  unfoldable pub classify_launched : Observation → Snapshot → String → String → Option RecoveryState
  unfolding classify_diagnostics classify_sessions
  classify_launched o snapshot work_id launched_at = elim o.diagnostic_baseline [
    | none ↦ classify_sessions snapshot work_id launched_at
    | some baseline ↦
        if o.observed_pending_ticket
        then (elim (classify_diagnostics baseline snapshot.diagnostics) [
          | some state ↦ some state
          | none ↦ classify_sessions snapshot work_id launched_at
        ])
        else classify_sessions snapshot work_id launched_at
  ]

  -- the decisions on a snapshot
  unfoldable pub classify_snapshot : Observation → Snapshot → Option RecoveryState
  unfolding classify_launched
  classify_snapshot o snapshot =
      if not snapshot.bridge_available then some bridge_down else (elim (truthy o.work_id) [
        | none ↦ none
        | some work_id ↦ elim (truthy o.launched_at) [
          | none ↦ none
          | some launched_at ↦ classify_launched o snapshot work_id launched_at
        ]
      ])

  -- `classifyJourneyRecovery`
  unfoldable pub classify_journey_recovery : Observation → Option RecoveryState
  unfolding recovery_state_from_error_code classify_snapshot
  classify_journey_recovery o = elim (recovery_state_from_error_code o.error_code) [
    | some state ↦ some state
    | none ↦ elim o.snapshot [ none ↦ none | some snapshot ↦ classify_snapshot o snapshot ]
  ]
