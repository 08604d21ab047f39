-- ===== src/Bridge/Fit.antt =====
-- Which delivery a prompt consumes.
use af_companion.Prelude.{
  ℕ, ◌<◌, arith, String, true, false, none, some, ◌≡◌, inl, inr, eq_iff, Bool-cases, Option-cases,
}
use af_companion.Prelude.Evolution.{find_first, find_first_holds}
use af_companion.Bridge.Contract.{
  Session, DeliveryScope, is_companion_active, session_is_active, is_queued, includes_role,
  delivery_eligibility,
}
use af_companion.Bridge.Results.{found, Reading-cases}
use af_companion.Bridge.State.{Delivery, SourceRevision, Bridge}
use af_companion.Bridge.Platform.{Env}
use af_companion.Bridge.Records.{now_text, is_past}
use af_companion.Bridge.Hooks.{HookContext, selection}
use af_companion.Bridge.Consumption.{
  next_test, eligibility, same_revision, delivery_refusal, consume_next,
}

-- What `deliveryEligibility` asks for.
abbrev pub IsEligible : Session → DeliveryScope → ℕ → ℕ → Type 0
IsEligible s scope lease_expires now =
    (is_companion_active s.participation ≡ true)
    × (session_is_active s.status ≡ true)
    × (now < lease_expires)
    × (s.workspace_id ≡ scope.workspace_id)
    × (s.application_id ≡ scope.application_id)
    × (s.work_id ≡ scope.work_id)
    × (includes_role scope.allowed_roles s.role ≡ true)

delivery_eligibility-IsEligible :
    (s : Session) (scope : DeliveryScope) (lease_expires now : ℕ)
    → delivery_eligibility s scope lease_expires now ≡ none
    → IsEligible s scope lease_expires now
unfolding delivery_eligibility
delivery_eligibility-IsEligible s scope lease_expires now e = ground (
  arith,
  eq_iff s.workspace_id scope.workspace_id,
  eq_iff s.application_id scope.application_id,
  eq_iff s.work_id scope.work_id,
)

delivery_refusal-none :
    (env : Env) (s : Session) (d : Delivery)
    → delivery_refusal env s d ≡ none
    → (eligibility env s d ≡ none)
      × (is_past env d.bundle.expires_at ≡ false)
      × ((revision : SourceRevision) × (env.source_revision d.scope.work_id ≡ found revision)
          × (same_revision d.bundle.source_revision revision ≡ true))
unfolding delivery_refusal
delivery_refusal-none env s d e = elim (Option-cases (eligibility env s d)) [
  | inr (reason, i) ↦ ground arith
  | inl i ↦ elim (Bool-cases (is_past env d.bundle.expires_at)) [
    | inl p ↦ ground arith
    | inr p ↦ elim (Reading-cases (env.work_item d.scope.work_id)) [
      | inr (f, w) ↦ ground arith
      | inl (item, w) ↦ elim (Reading-cases (env.source_revision d.scope.work_id)) [
        | inr (f, r) ↦ ground arith
        | inl (revision, r) ↦ (i, p, (revision, r, ground arith))
      ]
    ]
  ]
]

-- When a prompt returns a delivered selection, the selection is that of a delivery that was queued
-- for the session; the session takes part, is active, holds a lease that is not over, and is in the
-- delivery's workspace, application, work item and roles; the selection is not past its time; and
-- the repository's source revision is the one that it was made for.
pub consume_next_fits :
    (env : Env) (s : Session) (turn : String) (b c : Bridge) (context : HookContext)
    → consume_next env s turn b ≡ (some context, c)
    → (d : Delivery) × (find_first (next_test env s.session_id b) b.state.deliveries ≡ some d)
      × (context ≡ selection d.bundle)
      × (d.target_session_id ≡ s.session_id)
      × (is_queued d.status ≡ true)
      × IsEligible s d.scope (env.date_parse s.lease_expires_at) (env.date_parse (now_text env))
      × (is_past env d.bundle.expires_at ≡ false)
      × ((revision : SourceRevision) × (env.source_revision d.scope.work_id ≡ found revision)
          × (same_revision d.bundle.source_revision revision ≡ true))
unfolding consume_next
consume_next_fits env s turn b c context e =
    elim (Option-cases (find_first (next_test env s.session_id b) b.state.deliveries)) [
      | inl n ↦ ground arith
      | inr (d, n) ↦ elim (Option-cases (delivery_refusal env s d)) [
        | inr (error, r) ↦ ground arith
        | inl r ↦
            let next = find_first_holds (next_test env s.session_id b) b.state.deliveries d n in
            let fit = delivery_refusal-none env s d r in
            (
              d,
              n,
              ground arith,
              ground (arith, eq_iff d.target_session_id s.session_id),
              ground arith,
              delivery_eligibility-IsEligible s d.scope (env.date_parse s.lease_expires_at)
                  (env.date_parse (now_text env)) fit.0,
              fit.1,
              fit.2,
            )
      ]
    ]
