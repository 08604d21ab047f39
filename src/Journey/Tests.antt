-- ===== src/Journey/Tests.antt =====
-- The cases of packages/web/src/companion/journeyRecovery.test.ts, and instances of the properties.
use af_companion.Prelude.{
  String, ℕ, true, false, Option, none, some, [], ◌∷◌, ◌≡◌, refl, ◌==◌, ◌≤◌, arith, All,
  if◌then◌else◌,
}
use af_companion.Bridge.Contract.{af_vscode_launch, Session}
use af_companion.Bridge.State.{Diagnostics, Bridge}
use af_companion.Bridge.Enrollment.{CreateEnrollment, new_ticket}
use af_companion.Bridge.Fixtures.{item, asked, ticketed, env, config, session}
use af_companion.Bridge.Snapshots.{Snapshot, read_snapshot, unavailable_snapshot}
use af_companion.Journey.Recovery.{
  bridge_down, enrollment_unclaimed, enrollment_expired, hook_not_observed, activation_rejected,
  stale_revision, Observation, recovery_state_from_error_code, some_of, awaits_prompt,
  is_exact_session, is_pending_launch, classify_journey_recovery,
}
use af_companion.Journey.Waiting.{classify_journey_recovery-new_ticket}
use af_companion.Journey.Quiet.{classify_journey_recovery_quiet}

-- "100" or a later time
abbrev parse : String → Option ℕ
parse text = some (if text == "100" then 100 else 200)

abbrev launch : CreateEnrollment
launch = record asked { activation_origin = af_vscode_launch }

abbrev launched_session : Session
launched_session = record session { activation_origin = af_vscode_launch }

abbrev pending : Bridge
pending = record ticketed {
  state = record ticketed.state { enrollment_tickets = new_ticket env config launch item ∷ [] };
}

-- an observation of a snapshot after a launch, where nothing was known before
abbrev observed : Snapshot → Observation
observed s = record {
  snapshot = some s;
  error_code = none;
  work_id = some "work";
  launched_at = some "100";
  diagnostic_baseline = none;
  observed_pending_ticket = true;
}

abbrev with_session : Option String → Snapshot
with_session turn = record unavailable_snapshot {
  bridge_available = true;
  sessions = record launched_session { last_turn_id = turn } ∷ [];
}

abbrev grown : Diagnostics → Observation
grown d =
    record (observed (record unavailable_snapshot { bridge_available = true; diagnostics = d })) {
      diagnostic_baseline = some unavailable_snapshot.diagnostics;
    }

code_stale : recovery_state_from_error_code (some "canonical_handoff_stale") ≡ some stale_revision
unfolding recovery_state_from_error_code
code_stale = refl

code_unknown : recovery_state_from_error_code (some "method_not_allowed") ≡ none
unfolding recovery_state_from_error_code
code_unknown = refl

code_absent : recovery_state_from_error_code none ≡ none
unfolding recovery_state_from_error_code
code_absent = refl

unavailable_shown :
    classify_journey_recovery parse (observed unavailable_snapshot) ≡ some bridge_down
unfolding classify_journey_recovery
unavailable_shown = refl

prompt_awaited :
    classify_journey_recovery parse (observed (with_session none)) ≡ some hook_not_observed
unfolding classify_journey_recovery
prompt_awaited = refl

prompted_quiet : classify_journey_recovery parse (observed (with_session (some "turn"))) ≡ none
unfolding classify_journey_recovery
prompted_quiet = refl

expiry_shown :
    classify_journey_recovery parse
      (grown (record unavailable_snapshot.diagnostics { expired_tickets = 1 }))
    ≡ some enrollment_expired
unfolding classify_journey_recovery
expiry_shown = refl

refusal_shown :
    classify_journey_recovery parse
      (grown (record unavailable_snapshot.diagnostics { invalid_activation_attempts = 1 }))
    ≡ some activation_rejected
unfolding classify_journey_recovery
refusal_shown = refl

other_sessions : All (λ s. is_exact_session parse "work" "100" s ≡ false) pending.state.sessions
unfolding is_exact_session
other_sessions = (refl, tt)

classify_journey_recovery-new_ticket_example :
    classify_journey_recovery parse (observed (read_snapshot pending)) ≡ some enrollment_unclaimed
classify_journey_recovery-new_ticket_example =
    classify_journey_recovery-new_ticket parse env config launch item pending 0
      (observed (read_snapshot pending)) "100" 100 refl refl refl refl refl (omega arith)
      code_absent refl refl refl (λ d base. cc) other_sessions

-- a session of the launch that has sent a prompt, where nothing grew since the baseline
abbrev beside : Observation
beside = record (observed (with_session (some "turn"))) {
  diagnostic_baseline = some unavailable_snapshot.diagnostics;
}

beside_quiet : classify_journey_recovery parse beside ≡ none
unfolding classify_journey_recovery
beside_quiet = refl

classify_journey_recovery_quiet_example :
    (true ≡ true)
    × All (λ x. awaits_prompt parse "work" "100" x ≡ false) (with_session (some "turn")).sessions
    × (some_of (is_pending_launch parse "work" "100") [] ≡ true
        → some_of (is_exact_session parse "work" "100") (with_session (some "turn")).sessions
          ≡ true)
    × ((d : Diagnostics)
        → some unavailable_snapshot.diagnostics ≡ some d
        → true ≡ true
        → (0 ≤ d.invalid_activation_attempts)
          × (0 ≤ d.expired_tickets)
          × (0 ≤ d.ignored_hook_invocations))
classify_journey_recovery_quiet_example =
    classify_journey_recovery_quiet parse beside (with_session (some "turn")) "work" "100" refl refl
      refl beside_quiet
