-- ===== src/Bridge/GrantOffers.antt =====
-- `continueMaterializationGrant`: a pending grant is offered to a fresh session.
use af_companion.Prelude.{
  String, Bool, true, false, not, ◌&&◌, Option, none, some, ◌==◌, if◌then◌else◌,
}
use af_companion.Prelude.StringMap.{is_some}
use af_companion.Bridge.Contract.{GrantStatus, Session, is_revoked, is_plan, grant_is_pending}
use af_companion.Bridge.Results.{
  Result, ok, throw, ◌>>=◌, ◌>>◌, pure, require, present, conflict, not_found,
}
use af_companion.Bridge.State.{Grant, Bridge}
use af_companion.Bridge.Platform.{Capsule, Config, Env}
use af_companion.Bridge.Records.{is_text, is_past, session_of}
use af_companion.Bridge.GrantRecords.{matches_bootstrap, settle_grant, fail_grant, grant_context}
use af_companion.Bridge.Mutate.{Mutation, mutate}
use af_companion.Bridge.Grants.{grant_of, change_grant, public_grant}

pub record GrantContinueReceipt : Type 0 where
  pub grant : Grant
  pub activation_capsule : String

unfoldable pub grant_capsule : Env → Session → Grant → String
grant_capsule env source g = env.capsule (
    Capsule.materialization_grant record {
      grant_id = g.grant_id;
      claim_token = env.random 0;
      workspace_id = g.workspace_id;
      application_id = g.application_id;
      work_id = g.work_id;
      from_session_id = g.from_session_id;
      from_turn_id = g.from_turn_id;
      bootstrap_work_item_etag = g.bootstrap_work_item_etag;
      plan_body_hash = g.plan_body_hash;
      marker_digest = g.marker_digest;
      canonical_cwd_digest = source.canonical_cwd_digest;
      expires_at = g.expires_at;
    })

unfoldable pub offer_grant : Env → Grant → Grant
offer_grant env g = record g {
  status = GrantStatus.waiting_for_fresh_session;
  failure_code = none;
  claim_token_digest = some (env.sha256 (env.random 0));
}

-- the source of a grant that may be continued
unfoldable pub is_source : Grant → Session → Bool
is_source g source =
    not (is_revoked source.participation)
    && source.workspace_id == g.workspace_id
    && source.application_id == g.application_id
    && source.work_id == g.work_id
    && is_plan source.role
    && is_text source.last_turn_id g.from_turn_id

-- the source session, where it is still the one that made the grant
unfoldable pub source_of : Bridge → Grant → Option Session
unfolding is_source
source_of b g = elim (session_of b g.from_session_id) [
  | none ↦ none
  | some source ↦ if is_source g source then some source else none
]

-- the rest of `continueMaterializationGrant`, once the source is accepted
unfoldable pub continue_from :
    Env → String → Grant → Session → Mutation (Option GrantContinueReceipt)
unfolding matches_bootstrap
continue_from env id grant source b = do
  current ← matches_bootstrap env grant
  if not current
      then pure (none, change_grant id (fail_grant "work_item_changed") b)
      else if is_some (grant_context env grant none)
      then pure (
        some record {
          grant = public_grant (offer_grant env grant);
          activation_capsule = grant_capsule env source grant;
        },
        change_grant id (offer_grant env) b,
      )
      else pure (none, change_grant id (fail_grant "plan_body_unavailable") b)

unfoldable pub continue_grant_body : Env → String → Mutation (Option GrantContinueReceipt)
unfolding continue_from
continue_grant_body env id b = do
  grant ← present (grant_of b id) (not_found "materialization_grant_not_found")
  require (grant_is_pending grant.status) (conflict "materialization_grant_not_ready")
  if is_past env grant.expires_at
      then pure (none, change_grant id (settle_grant GrantStatus.expired) b)
      else elim (source_of b grant) [
        | none ↦ pure (none, change_grant id (fail_grant "source_changed") b)
        | some source ↦ continue_from env id grant source b
      ]

abbrev is_expired : GrantStatus → Bool
is_expired GrantStatus.expired = true
is_expired _ = false

abbrev stale_grant_code : Option Grant → String
stale_grant_code none = "materialization_grant_stale"
stale_grant_code (some g) = elim g.failure_code [
  | some c ↦ c
  | none ↦
      if is_expired g.status then "materialization_grant_expired" else "materialization_grant_stale"
]

-- What the caller gets after the mutation: where the grant has failed or expired, that is thrown.
unfoldable pub or_stale_grant :
    {A : Type 0} → String → Result (Option A) × Bridge → Result A × Bridge
or_stale_grant id (throw f, b) = (throw f, b)
or_stale_grant id (ok (some a), b) = (ok a, b)
or_stale_grant id (ok none, b) = (throw (conflict (stale_grant_code (grant_of b id))), b)

unfoldable pub continue_materialization_grant :
    Env → Config → String → Bridge → Result GrantContinueReceipt × Bridge
unfolding mutate or_stale_grant continue_grant_body
continue_materialization_grant env config id b =
    or_stale_grant id (mutate env config (continue_grant_body env id) b)
