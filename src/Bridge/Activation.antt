-- ===== src/Bridge/Activation.antt =====
-- `#activate` on the capsule of a materialization grant, and the session of a claim.
use af_companion.Prelude.{String, Bool, not, ◌&&◌, Option, none, some, ◌==◌, if◌then◌else◌}
use af_companion.Prelude.StringMap.{is_some}
use af_companion.Bridge.Contract.{
  Lease, materialization, manual_attach_confirmed, plan_handoff_capsule, side_effect_gated,
  TicketStatus, Session, is_revoked, is_plan, grant_is_waiting,
}
use af_companion.Bridge.Results.{◌>>=◌, pure, read}
use af_companion.Bridge.State.{Ticket, Grant, Bridge}
use af_companion.Bridge.Platform.{GrantCapsule, Config, Env}
use af_companion.Bridge.Records.{is_text, is_digest, now_text, is_past, session_of}
use af_companion.Bridge.GrantRecords.{matches_bootstrap, fail_grant, claim_grant, grant_context}
use af_companion.Bridge.Texts.{◌+++◌}
use af_companion.Bridge.Mutate.{Mutation}
use af_companion.Bridge.Grants.{grant_of, change_grant}
use af_companion.Bridge.Hooks.{
  HookInput, HookContext, text, record_activity, record_prompt_receipt, record_claim,
}
use af_companion.Bridge.Leases.{LeaseScope, issue_lease, new_session, add_session}

-- the guard of `#activate` on a grant: its capsule
unfoldable pub grant_matches : Env → String → GrantCapsule → Grant → Session → Bool
grant_matches env cwd_digest parsed g source =
    parsed.workspace_id == g.workspace_id
    && parsed.application_id == g.application_id
    && parsed.work_id == g.work_id
    && parsed.from_session_id == g.from_session_id
    && parsed.from_turn_id == g.from_turn_id
    && parsed.bootstrap_work_item_etag == g.bootstrap_work_item_etag
    && parsed.plan_body_hash == g.plan_body_hash
    && parsed.marker_digest == g.marker_digest
    && parsed.expires_at == g.expires_at
    && parsed.canonical_cwd_digest == source.canonical_cwd_digest
    && cwd_digest == source.canonical_cwd_digest
    && is_digest g.claim_token_digest (env.sha256 parsed.claim_token)

-- the guard of `#activate` on a grant: its status, its source and its session
unfoldable pub grant_accepts :
    Env → HookInput → String → Bridge → GrantCapsule → Grant → Session → Bool
unfolding grant_matches
grant_accepts env input cwd_digest b parsed g source =
    grant_is_waiting g.status
    && not (is_revoked source.participation)
    && is_plan source.role
    && is_text source.last_turn_id g.from_turn_id
    && not (is_past env g.expires_at)
    && not (input.session_id == g.from_session_id)
    && not (is_some (session_of b input.session_id))
    && grant_matches env cwd_digest parsed g source

-- the grant that a capsule may claim
unfoldable pub accepted_grant : Env → HookInput → String → Bridge → GrantCapsule → Option Grant
unfolding grant_accepts
accepted_grant env input cwd_digest b parsed = elim (grant_of b parsed.grant_id) [
  | none ↦ none
  | some g ↦ elim (session_of b g.from_session_id) [
    | none ↦ none
    | some source ↦ if grant_accepts env input cwd_digest b parsed g source then some g else none
  ]
]

-- the ticket that a claim of a handoff or of a grant makes up for its session
unfoldable pub claimed_ticket :
    Env → HookInput → String → LeaseScope → String → String → String → String → String → Ticket
claimed_ticket env input id scope issued_at expires_at kind claim_token_digest etag = record {
  ticket_id = id;
  workspace_id = scope.workspace_id;
  application_id = scope.application_id;
  work_id = scope.work_id;
  requested_role = materialization;
  activation_origin = manual_attach_confirmed;
  canonical_cwd_digest = scope.canonical_cwd_digest;
  issued_at = issued_at;
  expires_at = expires_at;
  status = TicketStatus.claimed;
  claimed_by_session_id = some input.session_id;
  claimed_at = some (now_text env);
  nonce_digest = env.sha256 kind;
  claim_token_digest = claim_token_digest;
  hook_mode = side_effect_gated;
  work_item_etag = etag;
}

abbrev pub text_or_empty : Option String → String
text_or_empty none = ""
text_or_empty (some v) = v

abbrev grant_scope : HookInput → String → Grant → LeaseScope
grant_scope input cwd_digest g = record {
  session_id = input.session_id;
  canonical_cwd_digest = cwd_digest;
  workspace_id = g.workspace_id;
  application_id = g.application_id;
  work_id = g.work_id;
  role = materialization;
  activation_origin = plan_handoff_capsule;
}

-- the session of a claim, its activities and its receipt
unfoldable pub record_claimed :
    Env → HookInput → String → String → String → Session → Bridge → Bridge
unfolding add_session record_activity record_prompt_receipt record_claim
record_claimed env input turn_id work_id id session b =
    record_claim env (env.random 3) input.session_id turn_id work_id id (
      record_prompt_receipt env input
        (record_activity env (env.random 2) input (add_session session b)))

-- the session that claims a grant
unfoldable pub grant_session : Env → HookInput → String → Grant → Lease → String → Session
unfolding new_session claimed_ticket
grant_session env input cwd g lease etag =
    new_session env input cwd
      (claimed_ticket env input ("materialization-grant:" +++ g.grant_id)
        (grant_scope input (env.sha256 cwd) g) g.created_at g.expires_at "materialization_grant"
        (text_or_empty g.claim_token_digest) etag)
      lease plan_handoff_capsule

-- the part of `#activate` that claims an accepted grant, with the context that it returns
unfoldable pub claim_accepted_grant :
    Env
    → Config
    → HookInput
    → String
    → String
    → String
    → Grant
    → String
    → Mutation (Option HookContext)
unfolding issue_lease claim_grant change_grant grant_session record_claimed
claim_accepted_grant env config input cwd turn_id id g context b = do
  item ← read (env.work_item g.work_id)
  issued ← issue_lease env config (grant_scope input (env.sha256 cwd) g) b
  pure (
    some (text context),
    record_claimed env input turn_id g.work_id g.grant_id
        (grant_session env input cwd g issued.0 item.etag)
        (change_grant id (claim_grant input.session_id turn_id (now_text env)) issued.1),
  )

-- the part of `#activate` on a grant that its capsule may claim
unfoldable pub activate_accepted :
    Env → Config → HookInput → String → String → String → Grant → Mutation (Option HookContext)
unfolding matches_bootstrap claim_accepted_grant
activate_accepted env config input cwd turn_id id g b = do
  current ← matches_bootstrap env g
  if not current
      then pure (none, change_grant id (fail_grant "work_item_changed") b)
      else elim (grant_context env g (
          some record {
            session_id = input.session_id;
            turn_id = turn_id;
            claimed_at = now_text env;
          })) [
            | none ↦ pure (none, change_grant id (fail_grant "plan_body_unavailable") b)
            | some context ↦ claim_accepted_grant env config input cwd turn_id id g context b
          ]

-- the part of `#activate` on the capsule of a grant
unfoldable pub activate_grant :
    Env → Config → HookInput → String → String → GrantCapsule → Mutation (Option HookContext)
unfolding accepted_grant activate_accepted
activate_grant env config input cwd turn_id parsed b =
    elim (accepted_grant env input (env.sha256 cwd) b parsed) [
      | none ↦ pure (none, b)
      | some g ↦ activate_accepted env config input cwd turn_id parsed.grant_id g b
    ]
