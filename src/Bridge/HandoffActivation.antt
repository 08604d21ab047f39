-- ===== src/Bridge/HandoffActivation.antt =====
-- `#activate` on the capsule of a handoff.
use af_companion.Prelude.{String, Bool, false, not, ◌&&◌, Option, none, some, ◌==◌, if◌then◌else◌}
use af_companion.Prelude.StringMap.{is_some}
use af_companion.Bridge.Contract.{
  Lease, materialization, plan_handoff_capsule, Session, handoff_is_waiting,
}
use af_companion.Bridge.Results.{◌>>=◌, pure, read}
use af_companion.Bridge.State.{Handoff, Bridge}
use af_companion.Bridge.Platform.{HandoffCapsule, Config, Env}
use af_companion.Bridge.Records.{
  is_null, is_digest, now_text, is_past, session_of, is_active_plan, has_lease,
}
use af_companion.Bridge.HandoffRecords.{
  canonical_of, matches_canonical, fail_handoff, claim_handoff, handoff_context,
}
use af_companion.Bridge.Texts.{◌+++◌}
use af_companion.Bridge.Mutate.{Mutation}
use af_companion.Bridge.Handoffs.{handoff_of, change_handoff}
use af_companion.Bridge.Hooks.{HookInput, HookContext, text}
use af_companion.Bridge.Leases.{LeaseScope, issue_lease, new_session}
use af_companion.Bridge.Activation.{claimed_ticket, text_or_empty, record_claimed}

-- the guard of `#activate` on a handoff
unfoldable pub handoff_accepts :
    Env → HookInput → String → String → Bridge → HandoffCapsule → Handoff → Session → Bool
handoff_accepts env input raw cwd_digest b parsed h source =
    handoff_is_waiting h.status
    && is_active_plan source
    && not (is_past env h.expires_at)
    && not (input.session_id == h.from_session_id)
    && is_null h.target_session_id
    && is_null parsed.target_session_id
    && parsed.workspace_id == h.workspace_id
    && parsed.application_id == h.application_id
    && parsed.work_id == h.work_id
    && parsed.from_session_id == h.from_session_id
    && parsed.from_turn_id == h.from_turn_id
    && parsed.discovery_revision == h.discovery_revision
    && parsed.decision_revision == h.decision_revision
    && parsed.plan_body_hash == h.plan_body_hash
    && parsed.marker_digest == h.marker_digest
    && parsed.expires_at == h.expires_at
    && parsed.canonical_cwd_digest == source.canonical_cwd_digest
    && cwd_digest == source.canonical_cwd_digest
    && is_digest h.claim_token_digest (env.sha256 parsed.claim_token)
    && is_digest h.capsule_digest (env.sha256 raw)
    && has_lease env b source

unfoldable pub accepts_handoff :
    Env → HookInput → String → String → Bridge → HandoffCapsule → Handoff → Bool
unfolding handoff_accepts
accepts_handoff env input raw cwd_digest b parsed h = elim (session_of b h.from_session_id) [
  | none ↦ false
  | some source ↦
      handoff_accepts env input raw cwd_digest b parsed h source
      && not (is_some (session_of b input.session_id))
]

abbrev handoff_scope : HookInput → String → Handoff → LeaseScope
handoff_scope input cwd_digest h = record {
  session_id = input.session_id;
  canonical_cwd_digest = cwd_digest;
  workspace_id = h.workspace_id;
  application_id = h.application_id;
  work_id = h.work_id;
  role = materialization;
  activation_origin = plan_handoff_capsule;
}

-- the session that claims a handoff
unfoldable pub handoff_session : Env → HookInput → String → Handoff → Lease → String → Session
unfolding new_session claimed_ticket
handoff_session env input cwd h lease etag =
    new_session env input cwd
      (claimed_ticket env input ("handoff:" +++ h.handoff_id)
        (handoff_scope input (env.sha256 cwd) h) (now_text env) h.expires_at "handoff"
        (text_or_empty h.claim_token_digest) etag)
      lease plan_handoff_capsule

-- the part of `#activate` that claims an accepted handoff, with the context that it returns
unfoldable pub claim_accepted_handoff :
    Env
    → Config
    → HookInput
    → String
    → String
    → String
    → Handoff
    → String
    → Mutation (Option HookContext)
unfolding issue_lease claim_handoff change_handoff handoff_session record_claimed
claim_accepted_handoff env config input cwd turn_id id h context b = do
  item ← read (env.work_item h.work_id)
  issued ← issue_lease env config (handoff_scope input (env.sha256 cwd) h) b
  pure (
    some (text context),
    record_claimed env input turn_id h.work_id h.handoff_id
        (handoff_session env input cwd h issued.0 item.etag)
        (change_handoff id (claim_handoff input.session_id turn_id (now_text env)) issued.1),
  )

-- the part of `#activate` on the capsule of a handoff: a handoff that its work item no longer
-- holds fails first, whatever its status
unfoldable pub activate_handoff :
    Env
    → Config
    → HookInput
    → String
    → String
    → String
    → HandoffCapsule
    → Mutation (Option HookContext)
unfolding accepts_handoff claim_accepted_handoff
activate_handoff env config input raw cwd turn_id parsed b = elim (handoff_of b parsed.handoff_id) [
  | none ↦ pure (none, b)
  | some h ↦ do
    current ← matches_canonical env (canonical_of h)
    if not current
        then pure
            (none, change_handoff parsed.handoff_id (fail_handoff "canonical_handoff_stale") b)
        else if accepts_handoff env input raw (env.sha256 cwd) b parsed h
        then elim (handoff_context env h) [
          | none ↦
              pure (none, change_handoff parsed.handoff_id (fail_handoff "plan_body_unavailable") b)
          | some context ↦
              claim_accepted_handoff env config input cwd turn_id parsed.handoff_id h context b
        ]
        else pure (none, b)
]
