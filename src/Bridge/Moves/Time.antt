-- ===== src/Bridge/Moves/Time.antt =====
-- The housekeeping and the mutations, as moves of the records.
use af_companion.Prelude.{
  arith, String, true, Option, none, some, List, ◌≡◌, refl, inl, inr, Bool-cases,
}
use af_companion.Prelude.Evolution.{find_first, Evolves-map}
use af_companion.Bridge.Records.{has_session_id}
use af_companion.Bridge.Contract.{
  Session, HandoffStatus, GrantStatus, handoff_is_pending, grant_is_pending,
}
use af_companion.Bridge.Results.{Result, ok, throw, Holds}
use af_companion.Bridge.State.{Ticket, Handoff, Grant, Delivery, State, Bridge}
use af_companion.Bridge.Platform.{Config, Env}
use af_companion.Bridge.HandoffRecords.{canonical_of, fail_handoff, settle_handoff, detach_handoff}
use af_companion.Bridge.GrantRecords.{fail_grant, settle_grant}
use af_companion.Bridge.Housekeeping.{
  expire_ticket, age_session, expire_delivery, keep_target, keep_source, review_handoff, keep_grant,
  review_grant, housekeeping,
}
use af_companion.Bridge.Mutate.{trim_state, Mutation, commit, mutate}
use af_companion.Bridge.Moves.{
  AnyNew, TicketMove, SessionMove, DeliveryMove, HandoffMove, GrantMove, IsHandoffClean,
  IsGrantClean, Moves, HandoffMove-refl, GrantMove-refl, Moves-refl, Moves-trans,
}

expire_ticket-Moves : (env : Env) (t : Ticket) → TicketMove t (expire_ticket env t)
unfolding expire_ticket
expire_ticket-Moves env t = ground arith

age_session-Moves :
    (env : Env) (config : Config) (s : Session) → SessionMove s (age_session env config s)
unfolding age_session
age_session-Moves env config s = ground arith

expire_delivery-Moves :
    (env : Env) (sessions : List Session) (d : Delivery)
    → DeliveryMove d (expire_delivery env sessions d)
unfolding expire_delivery
expire_delivery-Moves env sessions d = ground arith

pub fail_handoff-Moves :
    (code : String) (h : Handoff)
    → handoff_is_pending h.status ≡ true
    → HandoffMove h (fail_handoff code h)
unfolding fail_handoff canonical_of
fail_handoff-Moves code h p = (refl, inl p, inl (inr refl))

pub settle_handoff-Moves :
    (status : HandoffStatus) (h : Handoff)
    → handoff_is_pending h.status ≡ true
    → HandoffMove h (settle_handoff status h)
unfolding settle_handoff canonical_of
settle_handoff-Moves status h p = (refl, inl p, inl (inr refl))

pub detach_handoff-Moves :
    (h : Handoff) → handoff_is_pending h.status ≡ true → HandoffMove h (detach_handoff h)
unfolding detach_handoff canonical_of
detach_handoff-Moves h p = (refl, inl p, inl (inl refl))

keep_target-Moves :
    (env : Env) (sessions : List Session) (h : Handoff)
    → handoff_is_pending h.status ≡ true
    → HandoffMove h (keep_target env sessions h)
unfolding keep_target
keep_target-Moves env sessions h p =
    let detached = detach_handoff-Moves h p in let kept = HandoffMove-refl h in ground arith

keep_source-Moves :
    (env : Env) (sessions : List Session) (source : Option Session) (h : Handoff)
    → handoff_is_pending h.status ≡ true
    → HandoffMove h (keep_source env sessions source h)
unfolding keep_source
keep_source-Moves env sessions none h p = fail_handoff-Moves _ h p
keep_source-Moves env sessions (some source) h p =
    let inactive = fail_handoff-Moves "source_inactive" h p in
    let stale = fail_handoff-Moves "source_turn_stale" h p in
    let kept = keep_target-Moves env sessions h p in ground arith

review_handoff-Moves :
    (env : Env) (sessions : List Session) (h : Handoff)
    → HandoffMove h (review_handoff env sessions h)
unfolding review_handoff
review_handoff-Moves env sessions h = elim (Bool-cases (handoff_is_pending h.status)) [
  | inl p ↦
      let due = settle_handoff-Moves HandoffStatus.expired h p in
      let kept =
        keep_source-Moves env sessions (find_first (has_session_id h.from_session_id) sessions) h
          p in
      ground arith
  | inr p ↦ let same = HandoffMove-refl h in ground arith
]

pub fail_grant-Moves :
    (code : String) (g : Grant) → grant_is_pending g.status ≡ true → GrantMove g (fail_grant code g)
unfolding fail_grant
fail_grant-Moves code g p = (refl, refl, inl p, inl (inr (refl, refl)))

pub settle_grant-Moves :
    (status : GrantStatus) (g : Grant)
    → grant_is_pending g.status ≡ true
    → GrantMove g (settle_grant status g)
unfolding settle_grant
settle_grant-Moves status g p = (refl, refl, inl p, inl (inr (refl, refl)))

keep_grant-Moves :
    (source : Option Session) (g : Grant)
    → grant_is_pending g.status ≡ true
    → GrantMove g (keep_grant source g)
unfolding keep_grant
keep_grant-Moves none g p = fail_grant-Moves _ g p
keep_grant-Moves (some source) g p =
    let failed = fail_grant-Moves "source_changed" g p in
    let kept = GrantMove-refl g in ground arith

review_grant-Moves :
    (env : Env) (sessions : List Session) (g : Grant) → GrantMove g (review_grant env sessions g)
unfolding review_grant
review_grant-Moves env sessions g = elim (Bool-cases (grant_is_pending g.status)) [
  | inl p ↦
      let due = settle_grant-Moves GrantStatus.expired g p in
      let kept = keep_grant-Moves (find_first (has_session_id g.from_session_id) sessions) g p in
      ground arith
  | inr p ↦ let same = GrantMove-refl g in ground arith
]

pub housekeeping-Moves :
    (env : Env) (config : Config) (b : Bridge) → Moves b.state (housekeeping env config b).state
unfolding housekeeping
housekeeping-Moves env config b = (
  Evolves-map TicketMove AnyNew _ (expire_ticket-Moves env) b.state.enrollment_tickets,
  Evolves-map SessionMove AnyNew _ (age_session-Moves env config) b.state.sessions,
  Evolves-map DeliveryMove AnyNew _ (expire_delivery-Moves env _) b.state.deliveries,
  Evolves-map HandoffMove IsHandoffClean _ (review_handoff-Moves env _) b.state.handoffs,
  Evolves-map GrantMove IsGrantClean _ (review_grant-Moves env _) b.state.materialization_grants,
)

-- what a body that is run by `mutate` does, where it returns
abbrev pub Moved : {A : Type 0} → Bridge → A × Bridge → Type 0
Moved b r = Moves b.state r.1.state

commit-Moves :
    {A : Type 0} (env : Env) (previous : State) (b : Bridge) (r : Result (A × Bridge))
    → Moves previous b.state
    → Holds (Moved b) r
    → Moves previous (commit env previous b r).1.state
unfolding commit trim_state
commit-Moves env previous b (throw f) m h = Moves-refl previous
commit-Moves env previous b (ok (a, c)) m h = elim (Bool-cases env.written) [
  | inl w ↦ rw w (Moves-trans previous b.state c.state m h)
  | inr w ↦ rw w (Moves-refl previous)
]

-- a mutation moves the state where its body does
pub mutate-Moves :
    {A : Type 0} (env : Env) (config : Config) (body : Mutation A) (b : Bridge)
    → ((c : Bridge) → Holds (Moved c) (body c))
    → Moves b.state (mutate env config body b).1.state
unfolding mutate
mutate-Moves env config body b h =
    let started = housekeeping env config b in
    commit-Moves env b.state started (body started) (housekeeping-Moves env config b) (h started)
