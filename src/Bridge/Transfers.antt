-- ===== src/Bridge/Transfers.antt =====
-- The operations of the store that hand a pending handoff on: to a fresh session, to an enrolled
-- one, or to none.
use af_companion.Prelude.{String, Bool, not, ◌&&◌, Option, none, some, ◌==◌, if◌then◌else◌}
use af_companion.Prelude.StringMap.{is_some}
use af_companion.Prelude.Evolution.{find_first}
use af_companion.Bridge.Contract.{
  materialization, HandoffStatus, Session, is_companion_active, session_is_active, same_role,
  handoff_is_pending,
}
use af_companion.Bridge.Results.{
  Result, ok, throw, ◌>>=◌, ◌>>◌, pure, require, present, conflict, not_found,
}
use af_companion.Bridge.State.{Handoff, Bridge}
use af_companion.Bridge.Platform.{Capsule, Config, Env}
use af_companion.Bridge.Records.{
  is_text, is_past, session_of, is_active_plan, is_enrolled_plan, has_lease,
}
use af_companion.Bridge.HandoffRecords.{
  canonical_of, matches_canonical, fail_handoff, settle_handoff, handoff_context,
}
use af_companion.Bridge.Mutate.{Mutation, mutate}
use af_companion.Bridge.Handoffs.{handoff_of, change_handoff, public_handoff}

pub record HandoffContinueReceipt : Type 0 where
  pub handoff : Handoff
  pub activation_capsule : String

unfoldable pub handoff_capsule : Env → Session → Handoff → String
handoff_capsule env source h = env.capsule (
    Capsule.handoff record {
      handoff_id = h.handoff_id;
      claim_token = env.random 0;
      workspace_id = h.workspace_id;
      application_id = h.application_id;
      work_id = h.work_id;
      from_session_id = h.from_session_id;
      from_turn_id = h.from_turn_id;
      discovery_revision = h.discovery_revision;
      decision_revision = h.decision_revision;
      plan_body_hash = h.plan_body_hash;
      marker_digest = h.marker_digest;
      canonical_cwd_digest = source.canonical_cwd_digest;
      target_session_id = none;
      expires_at = h.expires_at;
    })

-- a handoff that waits for the session that its capsule is given to
unfoldable pub offer_handoff : Env → String → Handoff → Handoff
offer_handoff env activation_capsule h = record h {
  status = HandoffStatus.waiting_for_fresh_session;
  target_session_id = none;
  failure_code = none;
  claim_token_digest = some (env.sha256 (env.random 0));
  capsule_digest = some (env.sha256 activation_capsule);
}

-- the handoff fails, the operation returns null, and the state is written
unfoldable pub fail_with : {A : Type 0} → String → String → Bridge → Result (Option A × Bridge)
fail_with id failure_code b = pure (none, change_handoff id (fail_handoff failure_code) b)

unfoldable pub continue_handoff_body : Env → String → Mutation (Option HandoffContinueReceipt)
continue_handoff_body env id b = do
  handoff ← present (handoff_of b id) (not_found "handoff_not_found")
  require (handoff_is_pending handoff.status) (conflict "handoff_not_ready")
  require (not (is_past env handoff.expires_at)) (conflict "handoff_expired")
  current ← matches_canonical env (canonical_of handoff)
  if not current then fail_with id "canonical_handoff_stale" b else do
    source ← present (session_of b handoff.from_session_id) (conflict "source_inactive")
    require (is_enrolled_plan source) (conflict "source_inactive")
    require (has_lease env b source) (conflict "invalid_lease")
    if not (is_some (handoff_context env handoff))
        then fail_with id "plan_body_unavailable" b
        else pure (
          some record {
            handoff =
                public_handoff (offer_handoff env (handoff_capsule env source handoff) handoff);
            activation_capsule = handoff_capsule env source handoff;
          },
          change_handoff id (offer_handoff env (handoff_capsule env source handoff)) b,
        )

-- `handoff?.failure_code ?? "canonical_handoff_stale"`
abbrev pub stale_code : Option Handoff → String
stale_code none = "canonical_handoff_stale"
stale_code (some h) = elim h.failure_code [ none ↦ "canonical_handoff_stale" | some c ↦ c ]

-- What the caller gets after the mutation: where the handoff has failed, its failure is thrown.
unfoldable pub or_stale : {A : Type 0} → String → Result (Option A) × Bridge → Result A × Bridge
or_stale id (throw f, b) = (throw f, b)
or_stale id (ok (some a), b) = (ok a, b)
or_stale id (ok none, b) = (throw (conflict (stale_code (handoff_of b id))), b)

unfoldable pub continue_handoff :
    Env → Config → String → Bridge → Result HandoffContinueReceipt × Bridge
unfolding mutate or_stale continue_handoff_body
continue_handoff env config id b = or_stale id (mutate env config (continue_handoff_body env id) b)

unfoldable is_fit_target : Session → Handoff → Session → Bool
is_fit_target source h target =
    not (target.session_id == source.session_id)
    && is_companion_active target.participation
    && session_is_active target.status
    && target.workspace_id == h.workspace_id
    && target.application_id == h.application_id
    && target.work_id == h.work_id
    && same_role target.role materialization

-- another pending handoff of the same target
unfoldable pub is_conflicting : String → String → Handoff → Bool
is_conflicting id target_id h =
    not (h.handoff_id == id) && is_text h.target_session_id target_id && handoff_is_pending h.status

unfoldable pub attach_to : String → Handoff → Handoff
attach_to target_id h = record h {
  status = HandoffStatus.waiting_for_fresh_session;
  target_session_id = some target_id;
  failure_code = none;
  claim_token_digest = none;
  capsule_digest = none;
}

-- the last part of `attachHandoff`, once its handoff and its source are accepted: the handoff that
-- is attached, and the id of its target
unfoldable pub attach_target :
    Env → String → String → Session → Handoff → Mutation (Option (Handoff × String))
unfolding is_fit_target
attach_target env id target_session_id source handoff b = do
  target ← present (session_of b target_session_id) (conflict "target_scope_mismatch")
  require (is_fit_target source handoff target) (conflict "target_scope_mismatch")
  require (has_lease env b target) (conflict "invalid_lease")
  require
      (not (
        is_some
          (find_first (is_conflicting handoff.handoff_id target.session_id) b.state.handoffs)))
      (conflict "target_handoff_conflict")
  pure (
    some (public_handoff (attach_to target.session_id handoff), target.session_id),
    change_handoff id (attach_to target.session_id) b,
  )

-- `attachHandoff` from the look at its source on
unfoldable pub attach_current :
    Env → String → String → Handoff → Mutation (Option (Handoff × String))
unfolding attach_target fail_with
attach_current env id target_session_id handoff b = do
  source ← present (session_of b handoff.from_session_id) (conflict "source_inactive")
  require (is_active_plan source) (conflict "source_inactive")
  require (has_lease env b source) (conflict "invalid_lease")
  if is_some (handoff_context env handoff)
      then attach_target env id target_session_id source handoff b
      else fail_with id "plan_body_unavailable" b

unfoldable pub attach_handoff_body : Env → String → String → Mutation (Option (Handoff × String))
unfolding attach_current fail_with
attach_handoff_body env id target_session_id b = do
  handoff ← present (handoff_of b id) (not_found "handoff_not_found")
  require (handoff_is_pending handoff.status) (conflict "handoff_not_ready")
  require (not (is_past env handoff.expires_at)) (conflict "handoff_expired")
  current ← matches_canonical env (canonical_of handoff)
  if current
      then attach_current env id target_session_id handoff b
      else fail_with id "canonical_handoff_stale" b

unfoldable pub attach_handoff :
    Env → Config → String → String → Bridge → Result (Handoff × String) × Bridge
unfolding mutate or_stale attach_handoff_body
attach_handoff env config id target b =
    or_stale id (mutate env config (attach_handoff_body env id target) b)

unfoldable pub cancel_handoff_body : String → Mutation Handoff
cancel_handoff_body id b = do
  handoff ← present (handoff_of b id) (not_found "handoff_not_found")
  require (handoff_is_pending handoff.status) (conflict "handoff_not_pending")
  pure (
    public_handoff (settle_handoff HandoffStatus.canceled handoff),
    change_handoff id (settle_handoff HandoffStatus.canceled) b,
  )

unfoldable pub cancel_handoff : Env → Config → String → Bridge → Result Handoff × Bridge
unfolding mutate cancel_handoff_body
cancel_handoff env config id = mutate env config (cancel_handoff_body id)
