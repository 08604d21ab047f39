-- ===== src/Bridge/Grants.antt =====
-- The operations of the store on materialization grants. A grant that an operation returns is the
-- public one, without its token's digest and its plan body.
use af_companion.Prelude.{
  ℕ, ◌+◌, String, Bool, not, ◌&&◌, Option, none, some, [], ◌∷◌, ◌++◌, map, ◌==◌, if◌then◌else◌,
}
use af_companion.Prelude.StringMap.{is_some}
use af_companion.Prelude.Evolution.{find_first, update_first}
use af_companion.Bridge.Contract.{GrantStatus, Session, grant_is_pending}
use af_companion.Bridge.Results.{Result, ◌>>=◌, ◌>>◌, pure, require, present, read, conflict}
use af_companion.Bridge.State.{Grant, PromptReceipt, State, Bridge}
use af_companion.Bridge.Platform.{WorkItem, Config, Env}
use af_companion.Bridge.Records.{
  is_text, now_text, is_past, has_grant_id, session_of, is_enrolled_plan, has_lease,
}
use af_companion.Bridge.GrantRecords.{supersede_grant}
use af_companion.Bridge.Texts.{render_materialization_marker}
use af_companion.Bridge.Mutate.{Mutation, mutate}

abbrev pub grant_of : Bridge → String → Option Grant
grant_of b id = find_first (has_grant_id id) b.state.materialization_grants

unfoldable pub change_grant : String → (Grant → Grant) → Bridge → Bridge
change_grant id f b = record b {
  state = record b.state {
    materialization_grants = update_first (has_grant_id id) f b.state.materialization_grants;
  };
}

-- `#publicMaterializationGrant`
unfoldable pub public_grant : Grant → Grant
public_grant g = record g { claim_token_digest = none; plan_body = none }

abbrev is_receipt : String → String → PromptReceipt → Bool
is_receipt session_id turn_id r = r.session_id == session_id && r.turn_id == turn_id

-- `#hasReceipt`
unfoldable pub has_receipt : State → String → String → Bool
has_receipt s session_id turn_id =
    is_some (find_first (is_receipt session_id turn_id) s.prompt_receipts)

pub record CreateMaterializationGrant : Type 0 where
  pub work_id : String
  pub from_session_id : String
  pub from_turn_id : String
  pub plan_body_hash : String
  pub plan_body : String
  pub expires_at : Option String

-- `DEFAULT_MATERIALIZATION_GRANT_TTL_MS`
abbrev materialization_grant_ttl : ℕ
materialization_grant_ttl = 1800000

unfoldable pub grant_expires_at : Env → CreateMaterializationGrant → String
grant_expires_at env input = elim input.expires_at [
  | some at ↦ at
  | none ↦ env.iso (env.date_parse (now_text env) + materialization_grant_ttl)
]

abbrev grant_marker : Env → CreateMaterializationGrant → String
grant_marker env input =
    render_materialization_marker (env.random 0) input.work_id input.plan_body_hash

unfoldable pub new_grant : Env → CreateMaterializationGrant → Session → WorkItem → Grant
unfolding render_materialization_marker
new_grant env input source item = record {
  grant_id = env.random 0;
  workspace_id = source.workspace_id;
  application_id = source.application_id;
  work_id = input.work_id;
  from_session_id = input.from_session_id;
  from_turn_id = input.from_turn_id;
  bootstrap_work_item_etag = item.etag;
  plan_body_hash = input.plan_body_hash;
  marker_digest = env.sha256 (grant_marker env input);
  status = GrantStatus.ready;
  created_at = now_text env;
  expires_at = grant_expires_at env input;
  claimed_by_session_id = none;
  claimed_by_turn_id = none;
  claimed_at = none;
  finalized_at = none;
  failure_code = none;
  claim_token_digest = none;
  plan_body = some input.plan_body;
}

unfoldable pub replace_grant : String → Grant → Grant
replace_grant work_id g =
    if g.work_id == work_id && grant_is_pending g.status then supersede_grant g else g

unfoldable pub add_grant : Grant → Bridge → Bridge
add_grant g b = record b {
  state = record b.state {
    materialization_grants =
        map (replace_grant g.work_id) b.state.materialization_grants ++ (g ∷ []);
  };
}

-- the grant and its portable marker
unfoldable pub create_grant_body : Env → CreateMaterializationGrant → Mutation (Grant × String)
create_grant_body env input b = do
  source ← present (session_of b input.from_session_id) (conflict "plan_session_required")
  require (is_enrolled_plan source) (conflict "plan_session_required")
  require (has_lease env b source) (conflict "invalid_lease")
  require (source.work_id == input.work_id) (conflict "scope_mismatch")
  require
      (is_text source.last_turn_id input.from_turn_id
        && has_receipt b.state input.from_session_id input.from_turn_id)
      (conflict "source_turn_mismatch")
  item ← read (env.work_item input.work_id)
  require item.pristine (conflict "work_item_not_pristine")
  require (not (is_past env (grant_expires_at env input)))
      (conflict "materialization_grant_expired")
  pure (
    (public_grant (new_grant env input source item), grant_marker env input),
    add_grant (new_grant env input source item) b,
  )

unfoldable pub create_materialization_grant :
    Env → Config → CreateMaterializationGrant → Bridge → Result (Grant × String) × Bridge
unfolding mutate create_grant_body
create_materialization_grant env config input = mutate env config (create_grant_body env input)
