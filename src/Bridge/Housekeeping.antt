-- ===== src/Bridge/Housekeeping.antt =====
-- `#housekeeping`: what the passing of time does to the records, before every mutation.
use af_companion.Prelude.{
  ◌+◌, ◌-◌, String, Bool, false, not, ◌&&◌, ◌||◌, Option, none, some, List, map, ltb, length,
  if◌then◌else◌,
}
use af_companion.Prelude.Evolution.{find_first}
use af_companion.Bridge.Contract.{
  Participation, active, stale, TicketStatus, HandoffStatus, GrantStatus, DeliveryStatus, Session,
  is_companion_active, is_revoked, is_queued, ticket_is_pending, handoff_is_pending,
  grant_is_pending,
}
use af_companion.Bridge.State.{Ticket, Handoff, Grant, Delivery, Bridge}
use af_companion.Bridge.Platform.{Config, Env}
use af_companion.Bridge.Records.{
  is_text, truthy, now_text, is_past, has_session_id, is_enrolled_plan, filter,
}
use af_companion.Bridge.HandoffRecords.{fail_handoff, settle_handoff, detach_handoff}
use af_companion.Bridge.GrantRecords.{fail_grant, settle_grant}

abbrev find_session : List Session → String → Option Session
find_session sessions id = find_first (has_session_id id) sessions

abbrev ticket_is_due : Env → Ticket → Bool
ticket_is_due env t = ticket_is_pending t.status && is_past env t.expires_at

unfoldable pub expire_ticket : Env → Ticket → Ticket
expire_ticket env t = if ticket_is_due env t then record t { status = TicketStatus.expired } else t

unfoldable pub age_session : Env → Config → Session → Session
age_session env config s = record s {
  status =
      if ltb config.session_ttl (env.date_parse (now_text env) - env.date_parse s.last_seen_at)
      then stale
      else active;
  participation =
      if is_companion_active s.participation && is_past env s.lease_expires_at
      then Participation.expired
      else s.participation;
}

abbrev is_participant : Option Session → Bool
is_participant none = false
is_participant (some s) = is_companion_active s.participation

unfoldable pub expire_delivery : Env → List Session → Delivery → Delivery
expire_delivery env sessions d =
    if is_queued d.status
      && (is_past env d.bundle.expires_at
          || not (is_participant (find_session sessions d.target_session_id)))
    then record d { status = DeliveryStatus.expired }
    else d

-- a target that is gone, that takes no part, or whose lease is over
abbrev has_target : Env → Option Session → Bool
has_target env none = false
has_target env (some target) =
    is_companion_active target.participation && not (is_past env target.lease_expires_at)

unfoldable pub keep_target : Env → List Session → Handoff → Handoff
keep_target env sessions h = elim (truthy h.target_session_id) [
  | none ↦ h
  | some id ↦ if has_target env (find_session sessions id) then h else detach_handoff h
]

unfoldable pub keep_source : Env → List Session → Option Session → Handoff → Handoff
unfolding keep_target
keep_source env sessions none h = fail_handoff "source_inactive" h
keep_source env sessions (some source) h =
    if not (is_enrolled_plan source)
    then fail_handoff "source_inactive" h
    else if not (is_text source.last_turn_id h.from_turn_id)
    then fail_handoff "source_turn_stale" h
    else keep_target env sessions h

unfoldable pub review_handoff : Env → List Session → Handoff → Handoff
unfolding keep_source
review_handoff env sessions h =
    if not (handoff_is_pending h.status)
    then h
    else if is_past env h.expires_at
    then settle_handoff HandoffStatus.expired h
    else keep_source env sessions (find_session sessions h.from_session_id) h

unfoldable pub keep_grant : Option Session → Grant → Grant
keep_grant none g = fail_grant "source_changed" g
keep_grant (some source) g =
    if is_revoked source.participation || not (is_text source.last_turn_id g.from_turn_id)
    then fail_grant "source_changed" g
    else g

unfoldable pub review_grant : Env → List Session → Grant → Grant
unfolding keep_grant
review_grant env sessions g =
    if not (grant_is_pending g.status)
    then g
    else if is_past env g.expires_at
    then settle_grant GrantStatus.expired g
    else keep_grant (find_session sessions g.from_session_id) g

unfoldable pub housekeeping : Env → Config → Bridge → Bridge
unfolding expire_ticket age_session expire_delivery review_handoff review_grant
housekeeping env config b =
    let sessions = map (age_session env config) b.state.sessions in
    record b {
      state = record b.state {
        enrollment_tickets = map (expire_ticket env) b.state.enrollment_tickets;
        sessions = sessions;
        deliveries = map (expire_delivery env sessions) b.state.deliveries;
        handoffs = map (review_handoff env sessions) b.state.handoffs;
        materialization_grants = map (review_grant env sessions) b.state.materialization_grants;
      };
      diagnostics = record b.diagnostics {
        expired_tickets =
            b.diagnostics.expired_tickets
            + length (filter (ticket_is_due env) b.state.enrollment_tickets);
      };
    }
