-- ===== src/Bridge/Moves.antt =====
-- How the records of the bridge may change, whatever operation changes them: what is settled stays
-- settled, a session keeps its scope, and no operation but a reset drops a record.
pub mod Time
pub mod Parts
pub mod Transfer
pub mod Offers
pub mod Prompts
pub mod Activating
pub mod Claiming
pub mod Entry
pub mod Standing
pub mod Queue
pub mod Review
use af_companion.Prelude.{
  ℕ, zero, suc, ◌≤◌, arith, String, Bool, true, false, Option, none, some, List, [], ◌∷◌, All, ◌≡◌,
  refl, ◌∙◌, ◌⊎◌, inl, inr,
}
use af_companion.Prelude.Evolution.{Evolves, Evolves-refl, Evolves-trans}
use af_companion.Bridge.Contract.{
  Participation, companion_active, revoked, expired, Role, TicketStatus, HandoffStatus, GrantStatus,
  DeliveryStatus, Session, is_companion_active, is_revoked, is_queued, ticket_is_pending,
  handoff_is_pending, grant_is_pending, grant_is_claimed,
}
use af_companion.Bridge.HandoffRecords.{canonical_of}
use af_companion.Bridge.State.{Ticket, Handoff, Grant, Delivery, State}

-- active, then expired, then revoked
abbrev pub rank : Participation → ℕ
rank companion_active = 0
rank expired = 1
rank revoked = 2

abbrev pub TicketMove : Ticket → Ticket → Type 0
TicketMove x y = (y.ticket_id ≡ x.ticket_id) × ((ticket_is_pending x.status ≡ true) ⊎ (y ≡ x))

abbrev pub DeliveryMove : Delivery → Delivery → Type 0
DeliveryMove x y = (y.delivery_id ≡ x.delivery_id) × ((is_queued x.status ≡ true) ⊎ (y ≡ x))

-- what a session is enrolled for
pub record SessionScope : Type 0 where
  pub session_id : String
  pub workspace_id : String
  pub application_id : String
  pub work_id : String
  pub role : Role
  pub canonical_cwd_digest : String
  pub lease_id : String
  pub lease_expires_at : String

abbrev pub scope_of : Session → SessionScope
scope_of s = record {
  session_id = s.session_id;
  workspace_id = s.workspace_id;
  application_id = s.application_id;
  work_id = s.work_id;
  role = s.role;
  canonical_cwd_digest = s.canonical_cwd_digest;
  lease_id = s.lease_id;
  lease_expires_at = s.lease_expires_at;
}

abbrev pub SessionMove : Session → Session → Type 0
SessionMove x y = (scope_of y ≡ scope_of x) × (rank x.participation ≤ rank y.participation)

-- who claimed a handoff or a grant, in which turn, and when
pub record ClaimedBy : Type 0 where
  pub session_id : Option String
  pub turn_id : Option String
  pub at : Option String

abbrev pub handoff_claim : Handoff → ClaimedBy
handoff_claim h = record {
  session_id = h.claimed_by_session_id;
  turn_id = h.claimed_by_turn_id;
  at = h.claimed_at;
}

-- the plan body of a handoff is kept while it is pending
abbrev pub IsHandoffClean : Handoff → Type 0
IsHandoffClean h = (handoff_is_pending h.status ≡ true) ⊎ (h.plan_body ≡ none)

abbrev HandoffTurn : Handoff → Handoff → Type 0
HandoffTurn x y =
    (handoff_is_pending x.status ≡ true)
    ⊎ ((handoff_is_pending y.status ≡ false) × (handoff_claim y ≡ handoff_claim x))

abbrev pub HandoffMove : Handoff → Handoff → Type 0
HandoffMove x y = (canonical_of y ≡ canonical_of x) × HandoffTurn x y × (IsHandoffClean y ⊎ (y ≡ x))

abbrev pub grant_claim : Grant → ClaimedBy
grant_claim g = record {
  session_id = g.claimed_by_session_id;
  turn_id = g.claimed_by_turn_id;
  at = g.claimed_at;
}

-- the plan body and the token of a grant are kept while it is pending
abbrev pub IsGrantClean : Grant → Type 0
IsGrantClean g =
    (grant_is_pending g.status ≡ true) ⊎ ((g.plan_body ≡ none) × (g.claim_token_digest ≡ none))

abbrev GrantTurn : Grant → Grant → Type 0
GrantTurn x y =
    (grant_is_pending x.status ≡ true)
    ⊎ (y ≡ x)
    ⊎ ((grant_is_claimed x.status ≡ true)
        × (y.status ≡ GrantStatus.finalized)
        × (grant_claim y ≡ grant_claim x))

-- clean, or with what it held
abbrev GrantKept : Grant → Grant → Type 0
GrantKept x y =
    IsGrantClean y
    ⊎ (y ≡ x)
    ⊎ ((grant_is_pending x.status ≡ false)
        × (y.plan_body ≡ x.plan_body)
        × (y.claim_token_digest ≡ x.claim_token_digest))

abbrev pub GrantMove : Grant → Grant → Type 0
GrantMove x y = (y.grant_id ≡ x.grant_id) × (y.work_id ≡ x.work_id) × GrantTurn x y × GrantKept x y

abbrev pub AnyNew : {A : Type 0} → A → Type 0
AnyNew x = Unit

abbrev pub Moves : State → State → Type 0
Moves s t =
    Evolves TicketMove AnyNew s.enrollment_tickets t.enrollment_tickets
    × Evolves SessionMove AnyNew s.sessions t.sessions
    × Evolves DeliveryMove AnyNew s.deliveries t.deliveries
    × Evolves HandoffMove IsHandoffClean s.handoffs t.handoffs
    × Evolves GrantMove IsGrantClean s.materialization_grants t.materialization_grants

pub TicketMove-refl : (x : Ticket) → TicketMove x x
TicketMove-refl x = (refl, inr refl)

pub DeliveryMove-refl : (x : Delivery) → DeliveryMove x x
DeliveryMove-refl x = (refl, inr refl)

pub SessionMove-refl : (x : Session) → SessionMove x x
SessionMove-refl x = (refl, omega arith)

pub HandoffMove-refl : (x : Handoff) → HandoffMove x x
HandoffMove-refl x = (refl, ground arith, inr refl)

pub GrantMove-refl : (x : Grant) → GrantMove x x
GrantMove-refl x = (refl, refl, inr (inl refl), inr (inl refl))

pub TicketMove-trans : (x y z : Ticket) → TicketMove x y → TicketMove y z → TicketMove x z
TicketMove-trans x y z (i, p) (j, q) = ground arith

pub DeliveryMove-trans : (x y z : Delivery) → DeliveryMove x y → DeliveryMove y z → DeliveryMove x z
DeliveryMove-trans x y z (i, p) (j, q) = ground arith

pub SessionMove-trans : (x y z : Session) → SessionMove x y → SessionMove y z → SessionMove x z
SessionMove-trans x y z (i, p) (j, q) = (j ∙ i, omega arith)

pub HandoffMove-trans : (x y z : Handoff) → HandoffMove x y → HandoffMove y z → HandoffMove x z
HandoffMove-trans x y z (i, p, c) (j, q, d) = (j ∙ i, ground arith, ground arith)

pub GrantMove-trans : (x y z : Grant) → GrantMove x y → GrantMove y z → GrantMove x z
GrantMove-trans x y z (i, k, p, c) (j, l, q, d) = (j ∙ i, l ∙ k, ground arith, ground arith)

pub IsHandoffClean-HandoffMove :
    (x y : Handoff) → IsHandoffClean x → HandoffMove x y → IsHandoffClean y
IsHandoffClean-HandoffMove x y c m = ground arith

pub IsGrantClean-GrantMove : (x y : Grant) → IsGrantClean x → GrantMove x y → IsGrantClean y
IsGrantClean-GrantMove x y c m = ground arith

pub Moves-refl : (s : State) → Moves s s
Moves-refl s = (
  Evolves-refl TicketMove AnyNew TicketMove-refl s.enrollment_tickets,
  Evolves-refl SessionMove AnyNew SessionMove-refl s.sessions,
  Evolves-refl DeliveryMove AnyNew DeliveryMove-refl s.deliveries,
  Evolves-refl HandoffMove IsHandoffClean HandoffMove-refl s.handoffs,
  Evolves-refl GrantMove IsGrantClean GrantMove-refl s.materialization_grants,
)

pub Moves-trans : (s t u : State) → Moves s t → Moves t u → Moves s u
Moves-trans s t u (a, b, c, d, e) (a', b', c', d', e') = (
  Evolves-trans TicketMove AnyNew TicketMove-trans (λ x y n m. tt) _ _ _ a a',
  Evolves-trans SessionMove AnyNew SessionMove-trans (λ x y n m. tt) _ _ _ b b',
  Evolves-trans DeliveryMove AnyNew DeliveryMove-trans (λ x y n m. tt) _ _ _ c c',
  Evolves-trans HandoffMove IsHandoffClean HandoffMove-trans IsHandoffClean-HandoffMove _ _ _ d d',
  Evolves-trans GrantMove IsGrantClean GrantMove-trans IsGrantClean-GrantMove _ _ _ e e',
)
