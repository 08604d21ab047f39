-- ===== src/Bridge/Moves/Standing.antt =====
-- The operations on sessions, as moves of the records.
use af_companion.Prelude.{arith, String, Option, refl, inl, inr, Bool-cases, Option-cases}
use af_companion.Prelude.Evolution.{Evolves-refl, Evolves-map}
use af_companion.Bridge.Contract.{Session, HandoffStatus, handoff_is_pending, grant_is_pending}
use af_companion.Bridge.Results.{Holds, Result-cases}
use af_companion.Bridge.State.{Handoff, Grant, Delivery, Bridge}
use af_companion.Bridge.Platform.{Config, Env}
use af_companion.Bridge.Records.{session_of}
use af_companion.Bridge.Mutate.{mutate}
use af_companion.Bridge.Hooks.{Proof, no_proof, lease, activation, change_session}
use af_companion.Bridge.Entry.{handle_hook}
use af_companion.Bridge.Sessions.{
  AttachSession, attach_hook, attach_proved, attach_session, cancel_delivery_of, release_handoff,
  release_grant, revoke, release, revoke_session_body, revoke_session, set_alias, update_alias_body,
  update_session_alias,
}
use af_companion.Bridge.Moves.{
  AnyNew, TicketMove, SessionMove, DeliveryMove, HandoffMove, GrantMove, IsHandoffClean,
  IsGrantClean, Moves, TicketMove-refl, SessionMove-refl, HandoffMove-refl, GrantMove-refl,
  Moves-refl, Moves-trans,
}
use af_companion.Bridge.Moves.Time.{
  settle_handoff-Moves, detach_handoff-Moves, fail_grant-Moves, Moved, mutate-Moves,
}
use af_companion.Bridge.Moves.Parts.{change_session-Moves}
use af_companion.Bridge.Moves.Entry.{handle_hook-Moves}

attach_proved-Moves :
    (env : Env) (config : Config) (input : AttachSession) (cwd : String) (proof : Proof)
    (b : Bridge)
    → Moves b.state (attach_proved env config input cwd proof b).1.state
unfolding attach_proved
attach_proved-Moves env config input cwd no_proof b = Moves-refl b.state
attach_proved-Moves env config input cwd (lease id token) b = Moves-refl b.state
attach_proved-Moves env config input cwd (activation raw) b =
    let same = Moves-refl b.state in
    let run = handle_hook env config (attach_hook input cwd) b in
    let handled : Moves b.state run.1.state =
      handle_hook-Moves env config (attach_hook input cwd) b in
    elim (Result-cases run.0) [ inl (c, e) ↦ ground arith | inr (f, e) ↦ ground arith ]

pub attach_session-Moves :
    (env : Env) (config : Config) (input : AttachSession) (b : Bridge)
    → Moves b.state (attach_session env config input b).1.state
unfolding attach_session
attach_session-Moves env config input b =
    let same = Moves-refl b.state in
    elim (Result-cases (env.contained_cwd input.cwd)) [
      | inl (cwd, e) ↦
          let attached = attach_proved-Moves env config input cwd input.companion_proof b in
          ground arith
      | inr (f, e) ↦ ground arith
    ]

cancel_delivery_of-Moves : (id : String) (d : Delivery) → DeliveryMove d (cancel_delivery_of id d)
unfolding cancel_delivery_of
cancel_delivery_of-Moves id d = ground arith

release_handoff-Moves : (id : String) (h : Handoff) → HandoffMove h (release_handoff id h)
unfolding release_handoff
release_handoff-Moves id h =
    let same = HandoffMove-refl h in
    elim (Bool-cases (handoff_is_pending h.status)) [
      | inl p ↦
          let settled = settle_handoff-Moves HandoffStatus.canceled h p in
          let detached = detach_handoff-Moves h p in ground arith
      | inr p ↦ ground arith
    ]

release_grant-Moves : (id : String) (g : Grant) → GrantMove g (release_grant id g)
unfolding release_grant
release_grant-Moves id g =
    let same = GrantMove-refl g in
    elim (Bool-cases (grant_is_pending g.status)) [
      | inl p ↦ let failed = fail_grant-Moves "source_revoked" g p in ground arith
      | inr p ↦ ground arith
    ]

release-Moves : (id : String) (b : Bridge) → Moves b.state (release id b).state
unfolding release
release-Moves id b = (
  Evolves-refl TicketMove AnyNew TicketMove-refl b.state.enrollment_tickets,
  Evolves-refl SessionMove AnyNew SessionMove-refl b.state.sessions,
  Evolves-map DeliveryMove AnyNew (cancel_delivery_of id) (cancel_delivery_of-Moves id)
      b.state.deliveries,
  Evolves-map HandoffMove IsHandoffClean (release_handoff id) (release_handoff-Moves id)
      b.state.handoffs,
  Evolves-map GrantMove IsGrantClean (release_grant id) (release_grant-Moves id)
      b.state.materialization_grants,
)

revoke-Moves : (env : Env) (reason : String) (s : Session) → SessionMove s (revoke env reason s)
unfolding revoke
revoke-Moves env reason s = ground arith

revoke_session_body-Moves :
    (env : Env) (id reason : String) (b : Bridge)
    → Holds (Moved b) (revoke_session_body env id reason b)
unfolding revoke_session_body
revoke_session_body-Moves env id reason b =
    let same = Moves-refl b.state in
    elim (Option-cases (session_of b id)) [
      | inl e ↦ ground arith
      | inr (s, e) ↦
          let changed = change_session id (revoke env reason) b in
          let revoked =
            Moves-trans b.state changed.state (release id changed).state
              (change_session-Moves id (revoke env reason) b s e (revoke-Moves env reason s))
              (release-Moves id changed) in
          ground arith
    ]

pub revoke_session-Moves :
    (env : Env) (config : Config) (id reason : String) (b : Bridge)
    → Moves b.state (revoke_session env config id reason b).1.state
unfolding revoke_session
revoke_session-Moves env config id reason b =
    let run = mutate env config (revoke_session_body env id reason) b in
    let moved : Moves b.state run.1.state =
      mutate-Moves env config (revoke_session_body env id reason) b
        (revoke_session_body-Moves env id reason) in
    elim (Result-cases run.0) [ inl (s, e) ↦ ground arith | inr (f, e) ↦ ground arith ]

update_alias_body-Moves :
    (id : String) (alias : Option String) (b : Bridge)
    → Holds (Moved b) (update_alias_body id alias b)
unfolding update_alias_body set_alias
update_alias_body-Moves id alias b = elim (Option-cases (session_of b id)) [
  | inl e ↦ ground arith
  | inr (s, e) ↦
      let changed = change_session-Moves id (set_alias alias) b s e (refl, omega arith) in
      ground arith
]

pub update_session_alias-Moves :
    (env : Env) (config : Config) (id : String) (alias : Option String) (b : Bridge)
    → Moves b.state (update_session_alias env config id alias b).1.state
unfolding update_session_alias
update_session_alias-Moves env config id alias b =
    mutate-Moves env config (update_alias_body id alias) b (update_alias_body-Moves id alias)
