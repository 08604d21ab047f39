-- ===== src/Journey/Quiet.antt =====
-- What holds when the journey reports nothing.
use af_companion.Prelude.{
  arith, String, ℕ, ◌≤◌, true, false, Option, none, some, ◌≡◌, sym, ◌∙◌, inl, inr, All,
  Option-cases,
}
use af_companion.Bridge.State.{Diagnostics}
use af_companion.Bridge.Records.{truthy}
use af_companion.Bridge.Snapshots.{Snapshot}
use af_companion.Journey.Recovery.{
  Observation, recovery_state_from_error_code, some_of, is_exact_session, is_pending_launch,
  awaits_prompt, classify_sessions, classify_diagnostics, classify_launched, classify_snapshot,
  classify_journey_recovery,
}
use af_companion.Journey.Decisions.{
  some_of-All, classify_journey_recovery-error, classify_journey_recovery-snapshot,
  classify_snapshot-launched,
}

classify_diagnostics-none :
    (d n : Diagnostics)
    → classify_diagnostics d n ≡ none
    → (n.invalid_activation_attempts ≤ d.invalid_activation_attempts)
      × (n.expired_tickets ≤ d.expired_tickets)
      × (n.ignored_hook_invocations ≤ d.ignored_hook_invocations)
unfolding classify_diagnostics
classify_diagnostics-none d n quiet = (ground arith, ground arith, ground arith)

module _ (date_parse : String → Option ℕ) where
  classify_journey_recovery-none :
      (o : Observation) (s : Snapshot)
      → o.snapshot ≡ some s
      → classify_journey_recovery date_parse o ≡ none
      → classify_snapshot date_parse o s ≡ none
  classify_journey_recovery-none o s seen quiet =
      elim (Option-cases (recovery_state_from_error_code o.error_code)) [
        | inl clear ↦ sym (classify_journey_recovery-snapshot date_parse o s clear seen) ∙ quiet
        | inr (state, failed) ↦
            let told = classify_journey_recovery-error date_parse o state failed in cc
      ]

  classify_snapshot-none :
      (o : Observation) (s : Snapshot)
      → classify_snapshot date_parse o s ≡ none
      → s.bridge_available ≡ true
  unfolding classify_snapshot
  classify_snapshot-none o s quiet = ground arith

  classify_launched-none :
      (o : Observation) (s : Snapshot) (work_id launched_at : String)
      → classify_launched date_parse o s work_id launched_at ≡ none
      → (classify_sessions date_parse s work_id launched_at ≡ none)
        × ((d : Diagnostics)
            → o.diagnostic_baseline ≡ some d
            → o.observed_pending_ticket ≡ true
            → classify_diagnostics d s.diagnostics ≡ none)
  unfolding classify_launched
  classify_launched-none o s work_id launched_at quiet =
      (ground arith, (λ d base ticket. ground arith))

  classify_sessions-none :
      (s : Snapshot) (work_id launched_at : String)
      → classify_sessions date_parse s work_id launched_at ≡ none
      → (some_of (awaits_prompt date_parse work_id launched_at) s.sessions ≡ false)
        × (some_of (is_pending_launch date_parse work_id launched_at) s.enrollment_tickets ≡ true
            → some_of (is_exact_session date_parse work_id launched_at) s.sessions ≡ true)
  unfolding classify_sessions
  classify_sessions-none s work_id launched_at quiet = (ground arith, (λ pending. ground arith))

  -- Where the journey reports nothing of a snapshot, for a work item that was launched, then the bridge
  -- answers; no active plan session of the launch has still to send its first prompt; a pending ticket
  -- of the launch is there only beside such a session; and where a baseline was taken and a pending
  -- ticket was seen, no activation was refused, no ticket has expired and no hook was ignored since.
  pub classify_journey_recovery_quiet :
      (o : Observation) (s : Snapshot) (work_id launched_at : String)
      → o.snapshot ≡ some s
      → truthy o.work_id ≡ some work_id
      → truthy o.launched_at ≡ some launched_at
      → classify_journey_recovery date_parse o ≡ none
      → (s.bridge_available ≡ true)
        × All (λ x. awaits_prompt date_parse work_id launched_at x ≡ false) s.sessions
        × (some_of (is_pending_launch date_parse work_id launched_at) s.enrollment_tickets ≡ true
            → some_of (is_exact_session date_parse work_id launched_at) s.sessions ≡ true)
        × ((d : Diagnostics)
            → o.diagnostic_baseline ≡ some d
            → o.observed_pending_ticket ≡ true
            → (s.diagnostics.invalid_activation_attempts ≤ d.invalid_activation_attempts)
              × (s.diagnostics.expired_tickets ≤ d.expired_tickets)
              × (s.diagnostics.ignored_hook_invocations ≤ d.ignored_hook_invocations))
  classify_journey_recovery_quiet o s w l seen work at quiet =
      let silent = classify_journey_recovery-none o s seen quiet in
      let up = classify_snapshot-none o s silent in
      let launched = sym (classify_snapshot-launched date_parse o s w l up work at) ∙ silent in
      let (sessions, calm) = classify_launched-none o s w l launched in
      let (prompted, claimed) = classify_sessions-none s w l sessions in
      (
        up,
        some_of-All (awaits_prompt date_parse w l) s.sessions prompted,
        claimed,
        (λ d base ticket. classify_diagnostics-none d s.diagnostics (calm d base ticket)),
      )
