-- ===== src/Journey/Waiting.antt =====
-- When the journey waits for a session.
use af_companion.Prelude.{
  arith, String, ℕ, ◌+◌, ◌≤◌, zero, suc, Bool, true, false, Option, none, some, List, [], ◌∷◌, ◌≡◌,
  refl, ◌∙◌, inl, inr, map, eq_refl, All, get_elem?, Bool-cases, Option-cases,
}
use af_companion.Bridge.Contract.{Session, is_plan}
use af_companion.Bridge.State.{Ticket, Diagnostics, Bridge}
use af_companion.Bridge.Platform.{Config, Env, WorkItem}
use af_companion.Bridge.Records.{truthy, filter}
use af_companion.Bridge.Enrollment.{CreateEnrollment, new_ticket}
use af_companion.Bridge.Snapshots.{
  PublicTicket, Snapshot, public_ticket, is_pending_ticket, read_snapshot,
}
use af_companion.Journey.Recovery.{
  enrollment_unclaimed, Observation, recovery_state_from_error_code, is_vscode_launch, some_of,
  since_launch, is_exact_session, is_pending_launch, awaits_prompt, classify_sessions,
  classify_diagnostics, classify_launched, classify_journey_recovery,
}
use af_companion.Journey.Decisions.{
  All-some_of, classify_journey_recovery-snapshot, classify_snapshot-launched,
}

-- a pending ticket of the bridge is in its snapshot
some_of-public_ticket :
    (q : PublicTicket → Bool) (ts : List Ticket) (i : ℕ) (t : Ticket)
    → get_elem? ts i ≡ some t
    → is_pending_ticket t ≡ true
    → q (public_ticket t) ≡ true
    → some_of q (map public_ticket (filter is_pending_ticket ts)) ≡ true
unfolding some_of filter
some_of-public_ticket q [] i t e pending fits = cc
some_of-public_ticket q (x ∷ ts) zero t e pending fits =
    let same : x ≡ t = cc in rw (same, pending, fits) refl
some_of-public_ticket q (x ∷ ts) (suc i) t e pending fits =
    let rest = some_of-public_ticket q ts i t e pending fits in
    elim (Bool-cases (is_pending_ticket x)) [
      | inl kept ↦ rw kept (ground arith)
      | inr left ↦ rw left rest
    ]

module _ (date_parse : String → Option ℕ) where
  some_of-awaits_prompt :
      (work_id launched_at : String) (xs : List Session)
      → some_of (is_exact_session date_parse work_id launched_at) xs ≡ false
      → some_of (awaits_prompt date_parse work_id launched_at) xs ≡ false
  unfolding some_of awaits_prompt
  some_of-awaits_prompt work_id launched_at [] h = refl
  some_of-awaits_prompt work_id launched_at (x ∷ xs) h =
      let rest = some_of-awaits_prompt work_id launched_at xs in ground arith

  since_launch-le :
      (launched_at at : String) (launched time : ℕ)
      → date_parse launched_at ≡ some launched
      → date_parse at ≡ some time
      → launched ≤ time + 5000
      → since_launch date_parse launched_at at ≡ true
  unfolding since_launch
  since_launch-le launched_at at launched time e f h = ground arith

  is_pending_launch-new_ticket :
      (env : Env) (config : Config) (input : CreateEnrollment) (item : WorkItem)
      (launched_at : String)
      → is_plan input.requested_role ≡ true
      → is_vscode_launch input.activation_origin ≡ true
      → since_launch date_parse launched_at (env.iso env.now) ≡ true
      → is_pending_launch date_parse input.work_id launched_at
          (public_ticket (new_ticket env config input item))
        ≡ true
  unfolding is_pending_launch public_ticket new_ticket
  is_pending_launch-new_ticket env config input item launched_at plan vscode since =
      simp (eq_refl, plan, vscode, since)

  classify_launched-calm :
      (o : Observation) (s : Snapshot) (work_id launched_at : String)
      → ((d : Diagnostics)
          → o.diagnostic_baseline ≡ some d
          → classify_diagnostics d s.diagnostics ≡ none)
      → classify_launched date_parse o s work_id launched_at
        ≡ classify_sessions date_parse s work_id launched_at
  unfolding classify_launched
  classify_launched-calm o s work_id launched_at calm = elim (Option-cases o.diagnostic_baseline) [
    | inl absent ↦ rw absent refl
    | inr (d, there) ↦ let nothing = calm d there in ground arith
  ]

  classify_sessions_waits :
      (s : Snapshot) (work_id launched_at : String)
      → some_of (is_exact_session date_parse work_id launched_at) s.sessions ≡ false
      → some_of (is_pending_launch date_parse work_id launched_at) s.enrollment_tickets ≡ true
      → classify_sessions date_parse s work_id launched_at ≡ some enrollment_unclaimed
  unfolding classify_sessions
  classify_sessions_waits s work_id launched_at alone waits =
      let calm = some_of-awaits_prompt work_id launched_at s.sessions alone in ground arith

  -- While a ticket that `createEnrollment` made for a plan session launched from VS Code is pending, the
  -- journey of its work item waits for the session: where the clock of the enrollment reads its own
  -- text back and the launch is at most five seconds after it, no error code is known, the work item's id
  -- and the launch time are not empty, the diagnostics tell nothing, and the bridge has no active plan
  -- session of that launch, the snapshot of the bridge is classified as `enrollment_unclaimed`.
  pub classify_journey_recovery-new_ticket :
      (env : Env) (config : Config) (input : CreateEnrollment) (item : WorkItem) (b : Bridge)
      (i : ℕ) (o : Observation) (launched_at : String) (launched : ℕ)
      → is_plan input.requested_role ≡ true
      → is_vscode_launch input.activation_origin ≡ true
      → get_elem? b.state.enrollment_tickets i ≡ some (new_ticket env config input item)
      → date_parse (env.iso env.now) ≡ some env.now
      → date_parse launched_at ≡ some launched
      → launched ≤ env.now + 5000
      → recovery_state_from_error_code o.error_code ≡ none
      → o.snapshot ≡ some (read_snapshot b)
      → truthy o.work_id ≡ some input.work_id
      → truthy o.launched_at ≡ some launched_at
      → ((d : Diagnostics)
          → o.diagnostic_baseline ≡ some d
          → classify_diagnostics d b.diagnostics ≡ none)
      → All (λ s. is_exact_session date_parse input.work_id launched_at s ≡ false) b.state.sessions
      → classify_journey_recovery date_parse o ≡ some enrollment_unclaimed
  unfolding read_snapshot new_ticket
  classify_journey_recovery-new_ticket env config input item b i o launched_at launched plan vscode
        kept clock launch soon error seen work at calm alone =
      let s = read_snapshot b in
      let w = input.work_id in
      let since =
        since_launch-le launched_at (env.iso env.now) launched env.now launch clock soon in
      let fits = is_pending_launch-new_ticket env config input item launched_at plan vscode since in
      let waits =
        some_of-public_ticket (is_pending_launch date_parse w launched_at)
          b.state.enrollment_tickets i (new_ticket env config input item) kept refl fits in
      let none_exact =
        All-some_of (is_exact_session date_parse w launched_at) b.state.sessions alone in
      classify_journey_recovery-snapshot date_parse o s error seen
      ∙ classify_snapshot-launched date_parse o s w launched_at refl work at
      ∙ classify_launched-calm o s w launched_at calm
      ∙ classify_sessions_waits s w launched_at none_exact waits
