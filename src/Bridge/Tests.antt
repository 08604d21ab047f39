-- ===== src/Bridge/Tests.antt =====
-- Runs of a small bridge, and instances of the properties.
use af_companion.Prelude.{
  ◌≤◌, arith, true, false, none, some, String, [], ◌∷◌, ◌++◌, map, get_elem?, ◌≡◌, refl, ◌⊎◌, inr,
}
use af_companion.Prelude.Evolution.{find_first, update_first}
use af_companion.Bridge.Contract
use af_companion.Bridge.Contract.{
  companion_active, plan, materialization, af_cli_launch, side_effect_gated, active, session_start,
  client_dependent, HandoffStatus, GrantStatus, TicketStatus, DeliveryStatus, Session,
  handoff_is_pending, grant_is_claimed, is_queued,
}
use af_companion.Bridge.Results.{ok, throw, found, not_found}
use af_companion.Bridge.State.{Handoff, Grant, Delivery, SourceRevision, Bridge}
use af_companion.Bridge.Records.{is_past}
use af_companion.Bridge.HandoffRecords.{canonical_of}
use af_companion.Bridge.Mutate.{mutate}
use af_companion.Bridge.Transfers.{cancel_handoff_body}
use af_companion.Bridge.Hooks.{activation, user_prompt, HookInput, selection}
use af_companion.Bridge.Consumption.{
  next_test, earliest, same_revision, change_delivery, consume_delivery, consume_next,
}
use af_companion.Bridge.Actions.{run, resets}
use af_companion.Bridge.Moves.{rank, scope_of, handoff_claim, grant_claim}
use af_companion.Bridge.Settled.{
  handoff_settled, grant_settled, delivery_settled, ticket_settled, session_keeps_scope,
}
use af_companion.Bridge.Retention.{AreClean, run-AreClean}
use af_companion.Bridge.Rollback.{IsBounded}
use af_companion.Bridge.Bounds.{run-IsBounded}
use af_companion.Bridge.Distinct.Ids.{HasDistinctSessions}
use af_companion.Bridge.Distinct.Steps.{run-HasDistinctSessions}
use af_companion.Bridge.Fit.{IsEligible, consume_next_fits}
use af_companion.Prelude.StringMap.{has, get, contains}
use af_companion.Bridge.Records.{session_of}
use af_companion.Bridge.Platform.{Env, Capsule}
use af_companion.Bridge.Enrollment.{new_ticket, enrollment_payload}
use af_companion.Bridge.Tickets.{has_ticket_id, is_sha256}
use af_companion.Bridge.Housekeeping.{age_session}
use af_companion.Bridge.Entry.{handle_hook}
use af_companion.Bridge.Admission.{handle_hook-enrolls}
use af_companion.Bridge.Contract.{companion_active, plan}
use af_companion.Bridge.Fixtures.{
  item, asked, ticketed, starting, env, config, session, ticket, handoff, grant, queued, failed,
  bridge, actions,
}

keep_all : resets actions ≡ false
unfolding resets
keep_all = refl

handoff_settled_example :
    (k : Handoff) × (get_elem? (run config actions bridge).state.handoffs 0 ≡ some k)
    × (handoff_is_pending k.status ≡ false)
    × (canonical_of k ≡ canonical_of handoff)
    × (handoff_claim k ≡ handoff_claim handoff)
handoff_settled_example = handoff_settled config actions bridge 0 handoff keep_all refl refl

grant_settled_example :
    (k : Grant) × (get_elem? (run config actions bridge).state.materialization_grants 0 ≡ some k)
    × ((k ≡ grant)
        ⊎ ((grant_is_claimed grant.status ≡ true)
            × (k.status ≡ GrantStatus.finalized)
            × (grant_claim k ≡ grant_claim grant)))
grant_settled_example = grant_settled config actions bridge 0 grant keep_all refl refl

delivery_settled_example : get_elem? (run config actions bridge).state.deliveries 0 ≡ some failed
delivery_settled_example = delivery_settled config actions bridge 0 failed keep_all refl refl

ticket_settled_example :
    get_elem? (run config actions bridge).state.enrollment_tickets 0 ≡ some ticket
ticket_settled_example = ticket_settled config actions bridge 0 ticket keep_all refl refl

session_keeps_scope_example :
    (k : Session) × (get_elem? (run config actions bridge).state.sessions 0 ≡ some k)
    × (scope_of k ≡ scope_of session)
    × (rank session.participation ≤ rank k.participation)
session_keeps_scope_example = session_keeps_scope config actions bridge 0 session keep_all refl

run-AreClean_example : AreClean (run config actions bridge).state
run-AreClean_example = run-AreClean config actions bridge ((inr refl, tt), (inr (refl, refl), tt))

run-IsBounded_example : IsBounded (run config actions bridge).state
run-IsBounded_example = run-IsBounded config actions bridge (omega arith, omega arith)

cancel_missing :
    (mutate env config (cancel_handoff_body "x") bridge).0 ≡ throw (not_found "handoff_not_found")
unfolding mutate cancel_handoff_body find_first
cancel_missing = refl

abbrev consumed : Bridge
consumed = record bridge {
  state = record bridge.state {
    deliveries =
        failed
        ∷ record queued {
          status = DeliveryStatus.consumed;
          delivered_at = some "100";
          consumed_at = some "100";
          consumed_turn_id = some "turn";
        }
        ∷ [];
  };
}

consume_queued : consume_next env session "turn" bridge ≡ (some (selection queued.bundle), consumed)
unfolding consume_next change_delivery consume_delivery find_first earliest update_first
    Contract.delivery_eligibility
consume_queued = refl

consume_next_fits_example :
    (d : Delivery) × (find_first (next_test env "s" bridge) bridge.state.deliveries ≡ some d)
    × (selection queued.bundle ≡ selection d.bundle)
    × (d.target_session_id ≡ "s")
    × (is_queued d.status ≡ true)
    × IsEligible session d.scope 200 100
    × (is_past env d.bundle.expires_at ≡ false)
    × ((r : SourceRevision) × (env.source_revision d.scope.work_id ≡ found r)
        × (same_revision d.bundle.source_revision r ≡ true))
consume_next_fits_example =
    consume_next_fits env session "turn" bridge consumed (selection queued.bundle) consume_queued

eq_hash : (e : Env) (text : String) → e.sha256 text ≡ e.sha256 text
eq_hash e text = refl

ticket_kept :
    find_first (has_ticket_id "random") ticketed.state.enrollment_tickets
    ≡ some (new_ticket env config asked item)
unfolding find_first new_ticket
ticket_kept = refl

session_fresh : session_of ticketed "new" ≡ none
unfolding find_first
session_fresh = refl

lease_free : has "new" ticketed.leases ≡ false
unfolding get
lease_free = refl

etag_fits : is_sha256 item.etag ≡ true
unfolding is_sha256
etag_fits = refl

-- the platform, where each text is read as the capsule
abbrev reading : Env
reading = record env {
  parse_capsule = λ text. some (Capsule.enrollment (enrollment_payload env config asked));
}

abbrev enrolling : HookInput
enrolling = record starting { companion_proof = activation "capsule" }

handle_hook-enrolls_example :
    (c : Bridge) × (s : Session) × (handle_hook reading config enrolling ticketed ≡ (ok none, c))
    × (c.state.sessions ≡ map (age_session reading config) ticketed.state.sessions ++ (s ∷ []))
    × (s.session_id ≡ "new")
    × (s.participation ≡ companion_active)
    × (s.application_id ≡ "a")
    × (s.work_id ≡ "work")
    × (s.role ≡ plan)
handle_hook-enrolls_example =
    handle_hook-enrolls env reading config asked item enrolling "/repo" "capsule" ticketed refl refl
      refl refl (eq_hash env) refl refl ticket_kept session_fresh lease_free refl etag_fits refl
      refl

-- the prompt of a subagent with the capsule enrolls nobody
subagent_refused :
    (handle_hook reading config
      (record enrolling { event = user_prompt "turn" (some "agent") none })
      ticketed).1.state
    ≡ ticketed.state
unfolding handle_hook
subagent_refused = refl

sessions_differ : HasDistinctSessions bridge.state
unfolding contains
sessions_differ = (refl, tt)

run-HasDistinctSessions_example : HasDistinctSessions (run config actions bridge).state
run-HasDistinctSessions_example = run-HasDistinctSessions config actions bridge sessions_differ
