-- ===== src/Bridge/Consumption.antt =====
-- `#recordLeasedHook`: what an enrolled session's prompt claims or consumes.
use af_companion.Prelude.{
  ℕ, String, Bool, false, not, ◌&&◌, ◌||◌, Option, none, some, List, [], ◌∷◌, ltb, eqb, length,
  ◌==◌, if◌then◌else◌,
}
use af_companion.Prelude.StringMap.{is_some}
use af_companion.Prelude.Evolution.{find_first, update_first}
use af_companion.Bridge.Contract.{
  DeliveryStatus, Session, Ineligible, participation_inactive, session_stale, lease_expired,
  workspace_mismatch, application_mismatch, work_mismatch, role_not_allowed, is_companion_active,
  is_queued, handoff_is_waiting, delivery_eligibility,
}
use af_companion.Bridge.Results.{found, invalid, broken, ◌>>=◌, pure}
use af_companion.Bridge.State.{Handoff, SourceRevision, Delivery, Bridge}
use af_companion.Bridge.Platform.{Env}
use af_companion.Bridge.Records.{
  is_text, now_text, is_past, filter, session_of, is_enrolled_plan, has_lease, same_text,
}
use af_companion.Bridge.HandoffRecords.{
  canonical_of, matches_canonical, fail_handoff, claim_handoff, handoff_context,
}
use af_companion.Bridge.Mutate.{Mutation}
use af_companion.Bridge.Grants.{has_receipt}
use af_companion.Bridge.Hooks.{
  HookInput, HookContext, text, selection, prompt_turn, record_hook, record_claim,
}

-- the reason that `deliveryEligibility` returns
abbrev pub reason_text : Option Ineligible → String
reason_text none = "eligible"
reason_text (some participation_inactive) = "participation_inactive"
reason_text (some session_stale) = "session_stale"
reason_text (some lease_expired) = "lease_expired"
reason_text (some workspace_mismatch) = "workspace_mismatch"
reason_text (some application_mismatch) = "application_mismatch"
reason_text (some work_mismatch) = "work_mismatch"
reason_text (some role_not_allowed) = "role_not_allowed"

abbrev pub eligibility : Env → Session → Delivery → Option Ineligible
eligibility env s d =
    delivery_eligibility s d.scope (env.date_parse s.lease_expires_at)
      (env.date_parse (now_text env))

-- whether the two have one JSON text
unfoldable pub same_revision : SourceRevision → SourceRevision → Bool
same_revision x y =
    same_text x.head y.head && same_text x.dirty_hash y.dirty_hash && x.graph_etag == y.graph_etag

abbrev is_queued_for : String → Delivery → Bool
is_queued_for session_id d = d.target_session_id == session_id && is_queued d.status

-- the earliest creation of a queued delivery of the session
unfoldable pub earliest : Env → String → List Delivery → Option ℕ
earliest env session_id [] = none
earliest env session_id (d ∷ ds) =
    let rest = earliest env session_id ds in
    if is_queued_for session_id d
    then elim rest [
      | none ↦ some (env.date_parse d.created_at)
      | some at ↦
          if ltb at (env.date_parse d.created_at)
          then some at
          else some (env.date_parse d.created_at)
    ]
    else rest

-- The queued deliveries of the session that are sorted first: the sort is stable, so the first of
-- them in the list is the one that is taken.
abbrev pub is_next : Env → String → Option ℕ → Delivery → Bool
is_next env session_id none d = false
is_next env session_id (some at) d =
    is_queued_for session_id d && eqb (env.date_parse d.created_at) at

abbrev pub next_test : Env → String → Bridge → Delivery → Bool
next_test env session_id b = is_next env session_id (earliest env session_id b.state.deliveries)

unfoldable pub change_delivery : (Delivery → Bool) → (Delivery → Delivery) → Bridge → Bridge
change_delivery p f b = record b {
  state = record b.state { deliveries = update_first p f b.state.deliveries };
}

unfoldable pub fail_delivery : String → Delivery → Delivery
fail_delivery error d = record d { status = DeliveryStatus.failed; error = some error }

unfoldable pub consume_delivery : Env → String → Delivery → Delivery
consume_delivery env turn_id d = record d {
  status = DeliveryStatus.consumed;
  delivered_at = some (now_text env);
  consumed_at = some (now_text env);
  consumed_turn_id = some turn_id;
}

-- Why the delivery cannot be consumed, in the order of the code's tests
unfoldable pub delivery_refusal : Env → Session → Delivery → Option String
unfolding same_revision
delivery_refusal env session d =
    if is_some (eligibility env session d) || is_past env d.bundle.expires_at
    then some (reason_text (eligibility env session d))
    else elim (env.work_item d.scope.work_id) [
      | invalid f ↦ some "source_revision_unavailable"
      | broken f ↦ some "source_revision_unavailable"
      | found item ↦ elim (env.source_revision d.scope.work_id) [
        | invalid f ↦ some "source_revision_unavailable"
        | broken f ↦ some "source_revision_unavailable"
        | found revision ↦
            if same_revision d.bundle.source_revision revision then none else some "stale_revision"
      ]
    ]

-- the last part of `#recordLeasedHook`: the session's next delivery
unfoldable pub consume_next : Env → Session → String → Bridge → Option HookContext × Bridge
unfolding delivery_refusal
consume_next env session turn_id b =
    elim (find_first (next_test env session.session_id b) b.state.deliveries) [
      | none ↦ (none, b)
      | some d ↦ elim (delivery_refusal env session d) [
        | some error ↦
            (none, change_delivery (next_test env session.session_id b) (fail_delivery error) b)
        | none ↦ (
          some (selection d.bundle),
          change_delivery (next_test env session.session_id b) (consume_delivery env turn_id) b,
        )
      ]
    ]

abbrev pub is_attached : String → Handoff → Bool
is_attached session_id h = handoff_is_waiting h.status && is_text h.target_session_id session_id

unfoldable pub change_attached : String → (Handoff → Handoff) → Bridge → Bridge
change_attached session_id f b = record b {
  state = record b.state { handoffs = update_first (is_attached session_id) f b.state.handoffs };
}

-- the source of an attached handoff may still hand it over
abbrev is_live : Env → Bridge → Handoff → Option Session → Bool
is_live env b h none = false
is_live env b h (some source) =
    is_enrolled_plan source && not (is_past env h.expires_at) && has_lease env b source

-- the part of `#recordLeasedHook` on the one attached handoff
unfoldable pub claim_attached : Env → Session → String → Handoff → Mutation (Option HookContext)
unfolding consume_next claim_handoff record_claim change_attached
claim_attached env session turn_id h b = do
  current ← matches_canonical env (canonical_of h)
  if not current
      then pure
          (none, change_attached session.session_id (fail_handoff "canonical_handoff_stale") b)
      else if is_live env b h (session_of b h.from_session_id)
      then elim (handoff_context env h) [
        | none ↦
            pure (none, change_attached session.session_id (fail_handoff "plan_body_unavailable") b)
        | some context ↦ pure (
          some (text context),
          record_claim env (env.random 1) session.session_id turn_id h.work_id h.handoff_id (
              change_attached session.session_id
                (claim_handoff session.session_id turn_id (now_text env)) b),
        )
      ]
      else pure (
          consume_next env session turn_id
            (change_attached session.session_id (fail_handoff "source_inactive") b))

-- the part of `#recordLeasedHook` on a prompt
unfoldable pub answer_prompt : Env → Session → String → Mutation (Option HookContext)
unfolding claim_attached consume_next
answer_prompt env session turn_id b =
    if eqb (length (filter (is_attached session.session_id) b.state.handoffs)) 1
    then elim (find_first (is_attached session.session_id) b.state.handoffs) [
      | none ↦ pure (consume_next env session turn_id b)
      | some h ↦ claim_attached env session turn_id h b
    ]
    else pure (consume_next env session turn_id b)

unfoldable pub answer_recorded : Env → HookInput → Option Session → Mutation (Option HookContext)
unfolding answer_prompt
answer_recorded env input none b = pure (none, b)
answer_recorded env input (some session) b = elim (prompt_turn input.event) [
  | none ↦ pure (none, b)
  | some turn_id ↦ answer_prompt env session turn_id b
]

abbrev pub is_repeated : Bridge → HookInput → Bool
is_repeated b input = elim (prompt_turn input.event) [
  | none ↦ false
  | some turn_id ↦ has_receipt b.state input.session_id turn_id
]

-- `#recordLeasedHook`
unfoldable pub record_leased_hook : Env → String → HookInput → Mutation (Option HookContext)
unfolding record_hook answer_recorded
record_leased_hook env session_id input b = elim (session_of b session_id) [
  | none ↦ pure (none, b)
  | some session ↦
      if not (is_companion_active session.participation) || is_repeated b input
      then pure (none, b)
      else (let recorded = record_hook env session_id input b in
          answer_recorded env input (session_of recorded session_id) recorded)
]
