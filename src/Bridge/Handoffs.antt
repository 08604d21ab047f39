-- ===== src/Bridge/Handoffs.antt =====
-- The operations of the store on plan handoffs. A handoff that an operation returns is the public
-- one, without its token's digest and its plan body.
use af_companion.Prelude.{
  String, not, ◌&&◌, Option, none, some, [], ◌∷◌, ◌++◌, map, ◌==◌, if◌then◌else◌,
}
use af_companion.Prelude.StringMap.{is_some}
use af_companion.Prelude.Evolution.{find_first, update_first}
use af_companion.Bridge.Contract.{HandoffStatus, TransportCapability, Session, handoff_is_pending}
use af_companion.Bridge.Results.{Result, ◌>>=◌, ◌>>◌, pure, require, present, conflict}
use af_companion.Bridge.State.{Handoff, Bridge}
use af_companion.Bridge.Platform.{Config, Env}
use af_companion.Bridge.Records.{
  is_text, now_text, is_past, has_handoff_id, session_of, is_enrolled_plan, has_lease,
}
use af_companion.Bridge.HandoffRecords.{Canonical, matches_canonical, settle_handoff}
use af_companion.Bridge.Texts.{◌+++◌}
use af_companion.Bridge.Mutate.{Mutation, mutate}

abbrev pub handoff_of : Bridge → String → Option Handoff
handoff_of b id = find_first (has_handoff_id id) b.state.handoffs

unfoldable pub change_handoff : String → (Handoff → Handoff) → Bridge → Bridge
change_handoff id f b = record b {
  state = record b.state { handoffs = update_first (has_handoff_id id) f b.state.handoffs };
}

-- `#publicHandoff`
unfoldable pub public_handoff : Handoff → Handoff
public_handoff h = record h { claim_token_digest = none; plan_body = none }

pub record CreatePlanHandoff : Type 0 where
  pub canonical : Canonical
  pub workspace_id : String
  pub application_id : String
  pub plan_body : String
  pub transport_capability : TransportCapability

-- the handoff that `createPlanHandoff` adds
unfoldable pub new_handoff : Env → CreatePlanHandoff → Handoff
new_handoff env input = record {
  handoff_id = input.canonical.handoff_id;
  workspace_id = input.workspace_id;
  application_id = input.application_id;
  work_id = input.canonical.work_id;
  from_session_id = input.canonical.from_session_id;
  from_turn_id = input.canonical.from_turn_id;
  discovery_revision = input.canonical.discovery_revision;
  decision_revision = input.canonical.decision_revision;
  plan_body_hash = input.canonical.plan_body_hash;
  marker_digest = input.canonical.marker_digest;
  capsule_digest = none;
  transport_capability = input.transport_capability;
  status = HandoffStatus.ready;
  created_at = now_text env;
  expires_at = input.canonical.expires_at;
  claimed_by_session_id = none;
  claimed_by_turn_id = none;
  claimed_at = none;
  target_session_id = none;
  failure_code = none;
  claim_token_digest = none;
  plan_body = some (
      env.encrypt input.plan_body
        (input.canonical.handoff_id +++ "\0" +++ input.canonical.plan_body_hash));
}

-- the loop of `createPlanHandoff` on the earlier handoffs
unfoldable pub supersede : Session → Handoff → Handoff
supersede source h =
    if handoff_is_pending h.status
      && h.from_session_id == source.session_id
      && h.work_id == source.work_id
    then settle_handoff HandoffStatus.superseded h
    else h

unfoldable pub add_handoff : Session → Handoff → Bridge → Bridge
add_handoff source h b = record b {
  state = record b.state { handoffs = map (supersede source) b.state.handoffs ++ (h ∷ []) };
}

unfoldable pub create_plan_handoff_body : Env → CreatePlanHandoff → Mutation Handoff
create_plan_handoff_body env input b = do
  current ← matches_canonical env input.canonical
  require current (conflict "canonical_handoff_mismatch")
  source ← present (session_of b input.canonical.from_session_id) (conflict "plan_session_required")
  require (is_enrolled_plan source) (conflict "plan_session_required")
  require (has_lease env b source) (conflict "invalid_lease")
  require
      (source.workspace_id == input.workspace_id
        && source.application_id == input.application_id
        && source.work_id == input.canonical.work_id)
      (conflict "scope_mismatch")
  require (is_text source.last_turn_id input.canonical.from_turn_id)
      (conflict "source_turn_mismatch")
  require (not (is_past env input.canonical.expires_at)) (conflict "handoff_expired")
  require (not (is_some (handoff_of b input.canonical.handoff_id))) (conflict "handoff_duplicate")
  pure (public_handoff (new_handoff env input), add_handoff source (new_handoff env input) b)

unfoldable pub create_plan_handoff :
    Env → Config → CreatePlanHandoff → Bridge → Result Handoff × Bridge
unfolding mutate create_plan_handoff_body
create_plan_handoff env config input = mutate env config (create_plan_handoff_body env input)
