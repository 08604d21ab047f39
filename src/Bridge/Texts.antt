-- ===== src/Bridge/Texts.antt =====
-- The texts that the store writes: the contexts of a claim and the marker of a grant.
use af_companion.Prelude.{String, Option, none, some, List, [], ◌∷◌, ◌++◌}
use af_companion.Bridge.State.{Handoff, Grant}
use Prim.Native.String

infixr 66 ◌+++◌
abbrev pub ◌+++◌ : String → String → String
◌+++◌ = String.◌++◌

-- `lines.join("\n")`
abbrev join_lines : List String → String
join_lines [] = ""
join_lines (x ∷ []) = x
join_lines (x ∷ y ∷ lines) = x +++ "\n" +++ join_lines (y ∷ lines)

-- `renderHandoffContext`
unfoldable pub render_handoff_context : Handoff → String → String
render_handoff_context handoff plan_body = join_lines (
    "Agent Factory plan handoff was explicitly claimed for this Companion session."
    ∷ ("Handoff: " +++ handoff.handoff_id)
    ∷ ("Work Item: " +++ handoff.work_id)
    ∷ ("Discovery revision: " +++ handoff.discovery_revision)
    ∷ ("Decision revision: " +++ handoff.decision_revision)
    ∷ ("Plan body hash: " +++ handoff.plan_body_hash)
    ∷ ("Marker digest: " +++ handoff.marker_digest)
    ∷ ("Target skill: " +++ "af-discover-assets.materialize")
    ∷ ""
    ∷ "Canonical Discovery Decision Plan (exact verified bytes):"
    ∷ plan_body
    ∷ [])

-- `renderMaterializationMarker`
unfoldable pub render_materialization_marker : String → String → String → String
render_materialization_marker grant_id work plan_body_hash = join_lines (
    ("AF_MATERIALIZATION_GRANT=" +++ grant_id)
    ∷ ("AF_WORK_ITEM=" +++ work)
    ∷ ("AF_PLAN_BODY_HASH=" +++ plan_body_hash)
    ∷ "AF_TARGET=materialize-discovery"
    ∷ ""
    ∷ [])

pub record Claim : Type 0 where
  pub session_id : String
  pub turn_id : String
  pub claimed_at : String

abbrev claim_lines : Option Claim → List String
claim_lines none = []
claim_lines (some claim) =
    ("Claim session: " +++ claim.session_id)
    ∷ ("Claim turn: " +++ claim.turn_id)
    ∷ ("Claimed at: " +++ claim.claimed_at)
    ∷ []

-- `renderMaterializationGrantContext`
unfoldable pub render_grant_context : Grant → String → Option Claim → String
render_grant_context grant plan_body claim = join_lines (
    ("Agent Factory materialization bootstrap was claimed for this fresh Companion session."
      ∷ "This local grant proves Plan continuity only; it is not a Discovery or Decision revision."
      ∷ ("Grant: " +++ grant.grant_id)
      ∷ ("Work Item: " +++ grant.work_id)
      ∷ ("Source Plan session: " +++ grant.from_session_id)
      ∷ ("Source Plan turn: " +++ grant.from_turn_id)
      ∷ ("Bootstrap Work Item ETag: " +++ grant.bootstrap_work_item_etag)
      ∷ ("Plan body hash: " +++ grant.plan_body_hash)
      ∷ ("Marker digest: " +++ grant.marker_digest)
      ∷ ("Target skill: " +++ "af-discover-assets.materialize")
      ∷ ("Grant created at: " +++ grant.created_at)
      ∷ ("Grant expires at: " +++ grant.expires_at)
      ∷ [])
    ++ claim_lines claim
    ++ (""
        ∷ "After Phase B writes real Discovery and Decision revisions, record one claimed session_handoffs[] entry"
        ∷ "using this Grant ID, source session/turn, Plan hash, marker digest, expiry, and this claim session/turn."
        ∷ "Never invent bootstrap revisions; use only the revisions produced by materialization."
        ∷ "" ∷ "Canonical Discovery Decision Plan:" ∷ plan_body ∷ []))
