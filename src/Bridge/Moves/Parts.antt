-- ===== src/Bridge/Moves/Parts.antt =====
-- Moves of one list of the state, while the others stay.
use af_companion.Prelude.{String, Bool, some, List, [], ◌∷◌, ◌++◌, ◌≡◌}
use af_companion.Prelude.Evolution.{
  find_first, Evolves, Evolves-refl, Evolves-append, Evolves-update_first,
}
use af_companion.Bridge.Contract.{Session}
use af_companion.Bridge.State.{Ticket, Handoff, Grant, Delivery, State, Bridge}
use af_companion.Bridge.Records.{has_session_id, has_handoff_id, has_grant_id, session_of}
use af_companion.Bridge.Handoffs.{handoff_of, change_handoff}
use af_companion.Bridge.Grants.{grant_of, change_grant}
use af_companion.Bridge.Hooks.{change_session}
use af_companion.Bridge.Consumption.{change_delivery}
use af_companion.Bridge.Leases.{add_session}
use af_companion.Bridge.Tickets.{has_ticket_id, change_ticket}
use af_companion.Bridge.Moves.{
  AnyNew, TicketMove, SessionMove, DeliveryMove, HandoffMove, GrantMove, IsHandoffClean,
  IsGrantClean, Moves, TicketMove-refl, SessionMove-refl, DeliveryMove-refl, HandoffMove-refl,
  GrantMove-refl,
}

-- The handoffs move, and the rest of the state stays.
pub handoffs-Moves :
    (s : State) (handoffs : List Handoff)
    → Evolves HandoffMove IsHandoffClean s.handoffs handoffs
    → Moves s (record s { handoffs = handoffs })
handoffs-Moves s handoffs e = (
  Evolves-refl TicketMove AnyNew TicketMove-refl s.enrollment_tickets,
  Evolves-refl SessionMove AnyNew SessionMove-refl s.sessions,
  Evolves-refl DeliveryMove AnyNew DeliveryMove-refl s.deliveries,
  e,
  Evolves-refl GrantMove IsGrantClean GrantMove-refl s.materialization_grants,
)

pub change_handoff-Moves :
    (id : String) (f : Handoff → Handoff) (b : Bridge) (h : Handoff)
    → handoff_of b id ≡ some h
    → HandoffMove h (f h)
    → Moves b.state (change_handoff id f b).state
unfolding change_handoff
change_handoff-Moves id f b h found m = handoffs-Moves b.state _ (
    Evolves-update_first HandoffMove IsHandoffClean HandoffMove-refl (has_handoff_id id) f
      b.state.handoffs h found m)

-- The grants move, and the rest of the state stays.
pub grants-Moves :
    (s : State) (grants : List Grant)
    → Evolves GrantMove IsGrantClean s.materialization_grants grants
    → Moves s (record s { materialization_grants = grants })
grants-Moves s grants e = (
  Evolves-refl TicketMove AnyNew TicketMove-refl s.enrollment_tickets,
  Evolves-refl SessionMove AnyNew SessionMove-refl s.sessions,
  Evolves-refl DeliveryMove AnyNew DeliveryMove-refl s.deliveries,
  Evolves-refl HandoffMove IsHandoffClean HandoffMove-refl s.handoffs,
  e,
)

pub change_grant-Moves :
    (id : String) (f : Grant → Grant) (b : Bridge) (g : Grant)
    → grant_of b id ≡ some g
    → GrantMove g (f g)
    → Moves b.state (change_grant id f b).state
unfolding change_grant
change_grant-Moves id f b g found m = grants-Moves b.state _ (
    Evolves-update_first GrantMove IsGrantClean GrantMove-refl (has_grant_id id) f
      b.state.materialization_grants g found m)

-- The sessions move, and the rest of the state stays.
pub sessions-Moves :
    (s : State) (sessions : List Session)
    → Evolves SessionMove AnyNew s.sessions sessions
    → Moves s (record s { sessions = sessions })
sessions-Moves s sessions e = (
  Evolves-refl TicketMove AnyNew TicketMove-refl s.enrollment_tickets,
  e,
  Evolves-refl DeliveryMove AnyNew DeliveryMove-refl s.deliveries,
  Evolves-refl HandoffMove IsHandoffClean HandoffMove-refl s.handoffs,
  Evolves-refl GrantMove IsGrantClean GrantMove-refl s.materialization_grants,
)

-- The deliveries move, and the rest of the state stays.
pub deliveries-Moves :
    (s : State) (deliveries : List Delivery)
    → Evolves DeliveryMove AnyNew s.deliveries deliveries
    → Moves s (record s { deliveries = deliveries })
deliveries-Moves s deliveries e = (
  Evolves-refl TicketMove AnyNew TicketMove-refl s.enrollment_tickets,
  Evolves-refl SessionMove AnyNew SessionMove-refl s.sessions,
  e,
  Evolves-refl HandoffMove IsHandoffClean HandoffMove-refl s.handoffs,
  Evolves-refl GrantMove IsGrantClean GrantMove-refl s.materialization_grants,
)

pub change_session-Moves :
    (id : String) (f : Session → Session) (b : Bridge) (s : Session)
    → session_of b id ≡ some s
    → SessionMove s (f s)
    → Moves b.state (change_session id f b).state
unfolding change_session
change_session-Moves id f b s found m = sessions-Moves b.state _ (
    Evolves-update_first SessionMove AnyNew SessionMove-refl (has_session_id id) f b.state.sessions
      s found m)

pub change_delivery-Moves :
    (p : Delivery → Bool) (f : Delivery → Delivery) (b : Bridge) (d : Delivery)
    → find_first p b.state.deliveries ≡ some d
    → DeliveryMove d (f d)
    → Moves b.state (change_delivery p f b).state
unfolding change_delivery
change_delivery-Moves p f b d found m =
    deliveries-Moves b.state _
      (Evolves-update_first DeliveryMove AnyNew DeliveryMove-refl p f b.state.deliveries d found m)

-- The tickets move, and the rest of the state stays.
pub tickets-Moves :
    (s : State) (tickets : List Ticket)
    → Evolves TicketMove AnyNew s.enrollment_tickets tickets
    → Moves s (record s { enrollment_tickets = tickets })
tickets-Moves s tickets e = (
  e,
  Evolves-refl SessionMove AnyNew SessionMove-refl s.sessions,
  Evolves-refl DeliveryMove AnyNew DeliveryMove-refl s.deliveries,
  Evolves-refl HandoffMove IsHandoffClean HandoffMove-refl s.handoffs,
  Evolves-refl GrantMove IsGrantClean GrantMove-refl s.materialization_grants,
)

pub change_ticket-Moves :
    (id : String) (f : Ticket → Ticket) (b : Bridge) (t : Ticket)
    → find_first (has_ticket_id id) b.state.enrollment_tickets ≡ some t
    → TicketMove t (f t)
    → Moves b.state (change_ticket id f b).state
unfolding change_ticket
change_ticket-Moves id f b t found m = tickets-Moves b.state _ (
    Evolves-update_first TicketMove AnyNew TicketMove-refl (has_ticket_id id) f
      b.state.enrollment_tickets t found m)

pub add_session-Moves : (s : Session) (b : Bridge) → Moves b.state (add_session s b).state
unfolding add_session
add_session-Moves s b =
    sessions-Moves b.state _
      (Evolves-append SessionMove AnyNew SessionMove-refl b.state.sessions (s ∷ []) (tt, tt))

pub add_ticket_to-Moves :
    (s : State) (t : Ticket)
    → Moves s (record s { enrollment_tickets = s.enrollment_tickets ++ (t ∷ []) })
add_ticket_to-Moves s t =
    tickets-Moves s _
      (Evolves-append TicketMove AnyNew TicketMove-refl s.enrollment_tickets (t ∷ []) (tt, tt))

pub add_delivery_to-Moves :
    (s : State) (d : Delivery) → Moves s (record s { deliveries = s.deliveries ++ (d ∷ []) })
add_delivery_to-Moves s d =
    deliveries-Moves s _
      (Evolves-append DeliveryMove AnyNew DeliveryMove-refl s.deliveries (d ∷ []) (tt, tt))
