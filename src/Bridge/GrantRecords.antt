-- ===== src/Bridge/GrantRecords.antt =====
-- The store's private helpers on one materialization grant: its match in the work item, and what
-- a claim, a failure or an expiry makes of it.
use af_companion.Prelude.{
  String, Bool, false, not, ◌&&◌, Option, none, some, eqb, length, ◌==◌, if◌then◌else◌,
}
use af_companion.Bridge.Contract.{GrantStatus, grant_is_claimed}
use af_companion.Bridge.Results.{Result, ok, throw, found, invalid, broken}
use af_companion.Bridge.State.{Grant}
use af_companion.Bridge.Platform.{WorkRevision, WorkHandoff, WorkItem, Env}
use af_companion.Bridge.Texts.{Claim, render_grant_context}
use af_companion.Bridge.Records.{same_text, is_null, truthy, filter}

-- `#clearMaterializationPlan`, with the token that is cleared with it
unfoldable pub settle_grant : GrantStatus → Grant → Grant
settle_grant status g = record g { status = status; claim_token_digest = none; plan_body = none }

-- `#failMaterializationGrant`
unfoldable pub fail_grant : String → Grant → Grant
fail_grant failure_code g = record g {
  status = GrantStatus.failed;
  failure_code = some failure_code;
  claim_token_digest = none;
  plan_body = none;
}

-- the loop of `createMaterializationGrant`
unfoldable pub supersede_grant : Grant → Grant
supersede_grant g = record g {
  status = GrantStatus.superseded;
  failure_code = none;
  claim_token_digest = none;
  plan_body = none;
}

unfoldable pub claim_grant : String → String → String → Grant → Grant
claim_grant session_id turn_id now g = record g {
  status = GrantStatus.claimed;
  claimed_by_session_id = some session_id;
  claimed_by_turn_id = some turn_id;
  claimed_at = some now;
  failure_code = none;
  claim_token_digest = none;
  plan_body = none;
}

-- `#matchesBootstrapWorkItem`
unfoldable pub matches_bootstrap : Env → Grant → Result Bool
matches_bootstrap env g = elim (env.work_item g.work_id) [
  | found item ↦ ok (item.etag == g.bootstrap_work_item_etag && item.pristine)
  | invalid f ↦ ok false
  | broken f ↦ throw f
]

unfoldable is_record_of : Grant → WorkRevision → WorkRevision → WorkHandoff → Bool
is_record_of g discovery decision handoff =
    handoff.handoff_id == g.grant_id
    && handoff.work_id == g.work_id
    && handoff.from_session_id == g.from_session_id
    && handoff.from_turn_id == g.from_turn_id
    && handoff.discovery_revision.text == discovery.text
    && handoff.decision_revision.text == decision.text
    && handoff.plan_hash == g.plan_body_hash
    && handoff.target_skill == "af-discover-assets.materialize"
    && handoff.status == "claimed"
    && handoff.created_at == g.created_at
    && handoff.expires_at == g.expires_at
    && handoff.marker_digest == g.marker_digest
    && same_text handoff.claimed_by_session_id g.claimed_by_session_id
    && same_text handoff.claimed_turn_id g.claimed_by_turn_id
    && same_text handoff.claimed_at g.claimed_at
    && is_null handoff.superseded_by_handoff_id

unfoldable pub is_recorded : Grant → WorkItem → Bool
unfolding is_record_of filter
is_recorded g item = elim item.discovery [
  | none ↦ false
  | some discovery ↦ elim item.decision [
    | none ↦ false
    | some decision ↦
        eqb (length (filter (is_record_of g discovery decision) item.session_handoffs)) 1
  ]
]

abbrev is_set : Option String → Bool
is_set o = not (is_null (truthy o))

-- the first guard of `#finalizeMaterializationGrant`
unfoldable pub is_claim : Grant → Bool
is_claim g =
    grant_is_claimed g.status
    && is_set g.claimed_by_session_id
    && is_set g.claimed_by_turn_id
    && is_set g.claimed_at

-- `#finalizeMaterializationGrant`: the grant that it leaves
unfoldable pub finalize_grant : Env → String → Grant → Result Grant
unfolding is_claim is_recorded
finalize_grant env now g =
    if is_claim g
    then elim (env.work_item g.work_id) [
      | found item ↦ ok (
          if is_recorded g item
          then record g {
            status = GrantStatus.finalized;
            finalized_at = some now;
            failure_code = none;
          }
          else g)
      | invalid f ↦ ok g
      | broken f ↦ throw f
    ]
    else ok g

-- `#renderMaterializationGrantContext`; `none` is the error
unfoldable pub grant_context : Env → Grant → Option Claim → Option String
grant_context env g claim = elim (truthy g.plan_body) [
  | none ↦ none
  | some body ↦
      if env.sha256 body == g.plan_body_hash then some (render_grant_context g body claim) else none
]
