-- ===== src/Bridge/Sessions.antt =====
-- The operations of the store on sessions: `attachSession`, `revokeSession`, `updateSessionAlias`
-- and `resetState`.
use af_companion.Prelude.{String, ◌&&◌, Option, some, [], map, ◌==◌, if◌then◌else◌}
use af_companion.Prelude.StringMap.{delete, is_some}
use af_companion.Bridge.Contract.{
  revoked, Role, DeliveryStatus, HandoffStatus, Session, is_revoked, is_queued, same_role, is_plan,
  handoff_is_pending, grant_is_pending,
}
use af_companion.Bridge.Results.{
  Result, ok, throw, ◌>>=◌, ◌>>◌, pure, require, present, conflict, not_found,
}
use af_companion.Bridge.State.{Handoff, Grant, Delivery, Bridge, empty_state}
use af_companion.Bridge.Platform.{Config, Env}
use af_companion.Bridge.Records.{is_text, now_text, session_of}
use af_companion.Bridge.HandoffRecords.{settle_handoff, detach_handoff}
use af_companion.Bridge.GrantRecords.{fail_grant}
use af_companion.Bridge.Mutate.{Mutation, mutate}
use af_companion.Bridge.Hooks.{Proof, no_proof, lease, activation, HookInput, start, change_session}
use af_companion.Bridge.Entry.{handle_hook, proves}

pub record AttachSession : Type 0 where
  pub session_id : String
  pub workspace_id : String
  pub application_id : String
  pub work_id : String
  pub role : Role
  pub cwd : String
  pub companion_proof : Proof

-- the hook that an attachment by an activation capsule stands for
unfoldable pub attach_hook : AttachSession → String → HookInput
attach_hook input cwd = record {
  session_id = input.session_id;
  cwd = cwd;
  model = "unknown";
  permission_mode = if is_plan input.role then "plan" else "default";
  event = start "manual_attach_confirmed";
  companion_proof = input.companion_proof;
}

-- the last guard of `attachSession`: the session is the one that is attached, and keeps its scope
unfoldable pub attached_session : AttachSession → Session → Result Session
attached_session input session = do
  require
      (session.application_id == input.application_id
        && session.work_id == input.work_id
        && same_role session.role input.role)
      (conflict "scope_mismatch")
  pure session

unfoldable pub attach_proved :
    Env → Config → AttachSession → String → Proof → Bridge → Result Session × Bridge
unfolding attach_hook attached_session handle_hook proves
attach_proved env config input cwd (activation raw) b =
    if is_some (session_of b input.session_id)
    then (throw (conflict "session_not_fresh"), b)
    else (let run = handle_hook env config (attach_hook input cwd) b in
        elim run.0 [
          | throw f ↦ (throw f, run.1)
          | ok context ↦ (
            (do
              session ← present (session_of run.1 input.session_id) (conflict "invalid_activation")
              attached_session input session),
            run.1,
          )
        ])
attach_proved env config input cwd (lease lease_id lease_token) b = (
  (do
    session ← present (session_of b input.session_id) (conflict "invalid_lease")
    require (proves env (attach_hook input cwd) cwd lease_id lease_token b)
        (conflict "invalid_lease")
    attached_session input session),
  b,
)
attach_proved env config input cwd no_proof b = (throw (conflict "invalid_lease"), b)

-- `attachSession`; its input has a proof, so the case of none is not reached
unfoldable pub attach_session : Env → Config → AttachSession → Bridge → Result Session × Bridge
unfolding attach_proved
attach_session env config input b = elim (env.contained_cwd input.cwd) [
  | throw f ↦ (throw f, b)
  | ok cwd ↦
      if input.workspace_id == config.workspace_id
      then attach_proved env config input cwd input.companion_proof b
      else (throw (conflict "scope_mismatch"), b)
]

unfoldable pub cancel_delivery_of : String → Delivery → Delivery
cancel_delivery_of session_id d =
    if d.target_session_id == session_id && is_queued d.status
    then record d { status = DeliveryStatus.canceled }
    else d

-- a handoff whose source is revoked is canceled, and one whose target is revoked is ready again
unfoldable pub release_handoff : String → Handoff → Handoff
release_handoff session_id h =
    if h.from_session_id == session_id && handoff_is_pending h.status
    then settle_handoff HandoffStatus.canceled h
    else if is_text h.target_session_id session_id && handoff_is_pending h.status
    then detach_handoff h
    else h

unfoldable pub release_grant : String → Grant → Grant
release_grant session_id g =
    if g.from_session_id == session_id && grant_is_pending g.status
    then fail_grant "source_revoked" g
    else g

unfoldable pub revoke : Env → String → Session → Session
revoke env reason s = record s {
  participation = revoked;
  revoked_at = some (now_text env);
  revoke_reason = some reason;
}

-- What the revocation of a session does to what it has made or waits for
unfoldable pub release : String → Bridge → Bridge
unfolding cancel_delivery_of release_handoff release_grant
release session_id b = record b {
  state = record b.state {
    deliveries = map (cancel_delivery_of session_id) b.state.deliveries;
    handoffs = map (release_handoff session_id) b.state.handoffs;
    materialization_grants = map (release_grant session_id) b.state.materialization_grants;
  };
}

unfoldable pub revoke_session_body : Env → String → String → Mutation Session
unfolding release revoke change_session
revoke_session_body env session_id reason b = do
  found ← present (session_of b session_id) (not_found "session_not_found")
  if is_revoked found.participation
      then pure (found, b)
      else pure (
        revoke env reason found,
        release session_id (change_session session_id (revoke env reason) b),
      )

-- `revokeSession`: the lease is removed after the mutation
unfoldable pub revoke_session : Env → Config → String → String → Bridge → Result Session × Bridge
unfolding mutate revoke_session_body
revoke_session env config session_id reason b =
    let run = mutate env config (revoke_session_body env session_id reason) b in
    elim run.0 [
      | throw f ↦ (throw f, run.1)
      | ok session ↦
          (ok session, record run.1 { leases = delete (env.sha256 session_id) run.1.leases })
    ]

unfoldable pub set_alias : Option String → Session → Session
set_alias alias s = record s { alias = alias }

unfoldable pub update_alias_body : String → Option String → Mutation Session
unfolding set_alias change_session
update_alias_body session_id alias b = do
  session ← present (session_of b session_id) (not_found "session_not_found")
  pure (set_alias alias session, change_session session_id (set_alias alias) b)

-- `updateSessionAlias`
unfoldable pub update_session_alias :
    Env → Config → String → Option String → Bridge → Result Session × Bridge
unfolding mutate update_alias_body
update_session_alias env config session_id alias =
    mutate env config (update_alias_body session_id alias)

unfoldable pub reset_body : Mutation (Unit {0})
reset_body b = pure (
  tt,
  record b { state = record empty_state { bridge_instance_id = b.state.bridge_instance_id } },
)

-- `resetState`: the leases are removed after the mutation
unfoldable pub reset_state : Env → Config → Bridge → Result (Unit {0}) × Bridge
unfolding mutate reset_body
reset_state env config b =
    let run = mutate env config reset_body b in
    elim run.0 [ throw f ↦ (throw f, run.1) | ok u ↦ (ok u, record run.1 { leases = [] }) ]
