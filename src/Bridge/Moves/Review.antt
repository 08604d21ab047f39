-- ===== src/Bridge/Moves/Review.antt =====
-- `snapshot` and the restart in `open`, as moves of the records.
use af_companion.Prelude.{arith, String, true, false, List, [], ◌∷◌, ◌≡◌, inl, inr, Bool-cases}
use af_companion.Prelude.Evolution.{Evolves, Evolves-refl, Evolves-map}
use af_companion.Bridge.Contract.{Session, handoff_is_pending, grant_is_pending, grant_is_claimed}
use af_companion.Bridge.Results.{Result, Holds, Result-cases}
use af_companion.Bridge.State.{State, Handoff, Grant, Delivery, Bridge}
use af_companion.Bridge.Platform.{Config, Env}
use af_companion.Bridge.Records.{now_text}
use af_companion.Bridge.HandoffRecords.{canonical_of, matches_canonical}
use af_companion.Bridge.GrantRecords.{matches_bootstrap, finalize_grant, is_claim}
use af_companion.Bridge.Mutate.{mutate}
use af_companion.Bridge.Deliveries.{
  is_other, restarted, opened, cancel, refresh_handoff, refresh_grant, each, snapshot_body,
  snapshot, expire_session, cancel_queued, fail_pending, no_change, restart,
}
use af_companion.Bridge.Moves.{
  AnyNew, TicketMove, SessionMove, DeliveryMove, HandoffMove, GrantMove, IsHandoffClean,
  IsGrantClean, Moves, TicketMove-refl, SessionMove-refl, DeliveryMove-refl, HandoffMove-refl,
  GrantMove-refl, Moves-refl, Moves-trans,
}
use af_companion.Bridge.Moves.Time.{fail_handoff-Moves, fail_grant-Moves, Moved, mutate-Moves}

refresh_handoff-Moves : (env : Env) (h : Handoff) → Holds (HandoffMove h) (refresh_handoff env h)
unfolding refresh_handoff
refresh_handoff-Moves env h =
    let same = HandoffMove-refl h in
    elim (Bool-cases (handoff_is_pending h.status)) [
      | inl p ↦
          let stale = fail_handoff-Moves "canonical_handoff_stale" h p in
          elim (Result-cases (matches_canonical env (canonical_of h))) [
            | inl (current, e) ↦ elim (Bool-cases current) [
              | inl c ↦ ground arith
              | inr c ↦ ground arith
            ]
            | inr (f, e) ↦ ground arith
          ]
      | inr p ↦ ground arith
    ]

finalize_grant-Moves :
    (env : Env) (now : String) (g : Grant) → Holds (GrantMove g) (finalize_grant env now g)
unfolding finalize_grant is_claim
finalize_grant-Moves env now g =
    let same = GrantMove-refl g in
    elim (Bool-cases (is_claim g)) [
      | inl c ↦
          let claimed : grant_is_claimed g.status ≡ true = ground arith in
          let settled : grant_is_pending g.status ≡ false = ground arith in ground arith
      | inr c ↦ ground arith
    ]

refresh_grant-Moves : (env : Env) (g : Grant) → Holds (GrantMove g) (refresh_grant env g)
unfolding refresh_grant
refresh_grant-Moves env g =
    let same = GrantMove-refl g in
    let finalized = finalize_grant-Moves env (now_text env) g in
    elim (Bool-cases (grant_is_pending g.status)) [
      | inl p ↦
          let changed = fail_grant-Moves "work_item_changed" g p in
          elim (Result-cases (matches_bootstrap env g)) [
            | inl (current, e) ↦ elim (Bool-cases current) [
              | inl c ↦ ground arith
              | inr c ↦ ground arith
            ]
            | inr (f, e) ↦ ground arith
          ]
      | inr p ↦ ground arith
    ]

-- a loop whose rounds move the elements moves the list
each-Evolves :
    {A : Type 0} (P : A → A → Type 0) (N : A → Type 0) (f : A → Result A)
    → ((x : A) → Holds (P x) (f x))
    → (xs : List A) → Holds (Evolves P N xs) (each f xs)
unfolding each
each-Evolves P N f h [] = tt
each-Evolves P N f h (x ∷ xs) =
    let first = h x in
    let others = each-Evolves P N f h xs in
    elim (Result-cases (f x)) [
      | inl (y, e) ↦ elim (Result-cases (each f xs)) [
        | inl (ys, es) ↦ ground arith
        | inr (g, es) ↦ ground arith
      ]
      | inr (g, e) ↦ ground arith
    ]

snapshot_body-Moves : (env : Env) (b : Bridge) → Holds (Moved b) (snapshot_body env b)
unfolding snapshot_body
snapshot_body-Moves env b =
    let handoffs = b.state.handoffs in
    let grants = b.state.materialization_grants in
    let first =
      each-Evolves HandoffMove IsHandoffClean (refresh_handoff env) (refresh_handoff-Moves env)
        handoffs in
    let second =
      each-Evolves GrantMove IsGrantClean (refresh_grant env) (refresh_grant-Moves env) grants in
    let tickets = Evolves-refl TicketMove AnyNew TicketMove-refl b.state.enrollment_tickets in
    let sessions = Evolves-refl SessionMove AnyNew SessionMove-refl b.state.sessions in
    let deliveries = Evolves-refl DeliveryMove AnyNew DeliveryMove-refl b.state.deliveries in
    elim (Result-cases (each (refresh_handoff env) handoffs)) [
      | inl (hs, e) ↦ elim (Result-cases (each (refresh_grant env) grants)) [
        | inl (gs, eg) ↦ ground arith
        | inr (f, eg) ↦ ground arith
      ]
      | inr (f, e) ↦ ground arith
    ]

pub snapshot-Moves :
    (env : Env) (config : Config) (b : Bridge) → Moves b.state (snapshot env config b).1.state
unfolding snapshot
snapshot-Moves env config b =
    mutate-Moves env config (snapshot_body env) b (snapshot_body-Moves env)

expire_session-Moves : (s : Session) → SessionMove s (expire_session s)
unfolding expire_session
expire_session-Moves s = ground arith

cancel_queued-Moves : (d : Delivery) → DeliveryMove d (cancel_queued d)
unfolding cancel_queued cancel
cancel_queued-Moves d = ground arith

fail_pending-Moves : (h : Handoff) → HandoffMove h (fail_pending h)
unfolding fail_pending
fail_pending-Moves h =
    let same = HandoffMove-refl h in
    elim (Bool-cases (handoff_is_pending h.status)) [
      | inl p ↦ let failed = fail_handoff-Moves "bridge_restarted" h p in ground arith
      | inr p ↦ ground arith
    ]

restarted-Moves : (s : State) → Moves s (restarted s)
unfolding restarted
restarted-Moves s = (
  Evolves-refl TicketMove AnyNew TicketMove-refl s.enrollment_tickets,
  Evolves-map SessionMove AnyNew expire_session expire_session-Moves s.sessions,
  Evolves-map DeliveryMove AnyNew cancel_queued cancel_queued-Moves s.deliveries,
  Evolves-map HandoffMove IsHandoffClean fail_pending fail_pending-Moves s.handoffs,
  Evolves-refl GrantMove IsGrantClean GrantMove-refl s.materialization_grants,
)

opened-Moves : (env : Env) (b : Bridge) → Moves b.state (opened env b).state
unfolding opened
opened-Moves env b = elim (Bool-cases (is_other env b)) [
  | inl e ↦ rw e (restarted-Moves b.state)
  | inr e ↦ rw e (Moves-refl b.state)
]

no_change-Moves : (b : Bridge) → Holds (Moved b) (no_change b)
unfolding no_change
no_change-Moves b = Moves-refl b.state

pub restart-Moves :
    (env : Env) (config : Config) (b : Bridge) → Moves b.state (restart env config b).1.state
unfolding restart
restart-Moves env config b =
    let started = opened env b in
    Moves-trans b.state started.state (mutate env config no_change started).1.state
      (opened-Moves env b) (mutate-Moves env config no_change started no_change-Moves)
