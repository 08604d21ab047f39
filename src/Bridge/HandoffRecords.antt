-- ===== src/Bridge/HandoffRecords.antt =====
-- The store's private helpers on one handoff: its match in the work item, and what a claim, a
-- failure or an expiry makes of it.
use af_companion.Prelude.{
  String, Bool, false, ◌&&◌, ◌||◌, Option, none, some, eqb, length, ◌==◌, if◌then◌else◌,
}
use af_companion.Bridge.Contract.{HandoffStatus}
use af_companion.Bridge.Results.{Result, ok, throw, found, invalid, broken}
use af_companion.Bridge.State.{Handoff}
use af_companion.Bridge.Platform.{WorkRevision, WorkHandoff, Env}
use af_companion.Bridge.Texts.{render_handoff_context, ◌+++◌}
use af_companion.Bridge.Records.{filter}

-- What `#matchesCurrentCanonicalHandoff` reads of a handoff, or of the input that makes one
pub record Canonical : Type 0 where
  pub handoff_id : String
  pub marker_digest : String
  pub work_id : String
  pub from_session_id : String
  pub from_turn_id : String
  pub discovery_revision : String
  pub decision_revision : String
  pub plan_body_hash : String
  pub expires_at : String

unfoldable pub canonical_of : Handoff → Canonical
canonical_of h = record {
  handoff_id = h.handoff_id;
  marker_digest = h.marker_digest;
  work_id = h.work_id;
  from_session_id = h.from_session_id;
  from_turn_id = h.from_turn_id;
  discovery_revision = h.discovery_revision;
  decision_revision = h.decision_revision;
  plan_body_hash = h.plan_body_hash;
  expires_at = h.expires_at;
}

unfoldable is_canonical : Canonical → WorkHandoff → Bool
is_canonical h candidate =
    candidate.status == "pending"
    && candidate.handoff_id == h.handoff_id
    && candidate.marker_digest == h.marker_digest
    && candidate.work_id == h.work_id
    && candidate.from_session_id == h.from_session_id
    && candidate.from_turn_id == h.from_turn_id
    && candidate.discovery_revision.digest == h.discovery_revision
    && candidate.decision_revision.digest == h.decision_revision
    && candidate.plan_hash == h.plan_body_hash
    && candidate.target_skill == "af-discover-assets.materialize"
    && candidate.expires_at == h.expires_at

abbrev has_digest : Option WorkRevision → String → Bool
has_digest none t = false
has_digest (some r) t = r.digest == t

-- `#matchesCurrentCanonicalHandoff`
unfoldable pub matches_canonical : Env → Canonical → Result Bool
unfolding is_canonical filter
matches_canonical env h = elim (env.work_item h.work_id) [
  | found item ↦ ok (
      has_digest item.discovery h.discovery_revision
      && has_digest item.decision h.decision_revision
      && eqb (length (filter (is_canonical h) item.session_handoffs)) 1)
  | invalid f ↦ ok false
  | broken f ↦ throw f
]

-- `#failHandoff`
unfoldable pub fail_handoff : String → Handoff → Handoff
fail_handoff failure_code h = record h {
  status = HandoffStatus.failed;
  target_session_id = none;
  failure_code = some failure_code;
  claim_token_digest = none;
  capsule_digest = none;
  plan_body = none;
}

-- a pending handoff that expires, is superseded or is canceled
unfoldable pub settle_handoff : HandoffStatus → Handoff → Handoff
settle_handoff status h = record h {
  status = status;
  target_session_id = none;
  claim_token_digest = none;
  capsule_digest = none;
  plan_body = none;
}

-- a pending handoff that loses its target
unfoldable pub detach_handoff : Handoff → Handoff
detach_handoff h = record h {
  status = HandoffStatus.ready;
  target_session_id = none;
  failure_code = none;
  claim_token_digest = none;
  capsule_digest = none;
}

unfoldable pub claim_handoff : String → String → String → Handoff → Handoff
claim_handoff session_id turn_id now h = record h {
  status = HandoffStatus.claimed;
  claimed_by_session_id = some session_id;
  claimed_by_turn_id = some turn_id;
  claimed_at = some now;
  failure_code = none;
  plan_body = none;
}

-- `#renderHandoffContext`, with the checks of `decryptedPlanBody`; `none` is the error
unfoldable pub handoff_context : Env → Handoff → Option String
handoff_context env h = elim h.plan_body [
  | none ↦ none
  | some sealed ↦
      if sealed.ciphertext == "" || sealed.iv == "" || sealed.auth_tag == ""
      then none
      else elim (env.decrypt sealed (h.handoff_id +++ "\0" +++ h.plan_body_hash)) [
        | none ↦ none
        | some body ↦
            if env.sha256 body == h.plan_body_hash
            then some (render_handoff_context h body)
            else none
      ]
]
