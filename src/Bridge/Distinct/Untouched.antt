-- ===== src/Bridge/Distinct/Untouched.antt =====
-- The bodies of mutations that leave the sessions as they are.
use af_companion.Prelude.{arith, String, ◌≡◌, refl, Option, inl, inr, Option-cases}
use af_companion.Bridge.Results.{Holds}
use af_companion.Bridge.Contract.{Session}
use af_companion.Bridge.State.{Ticket, Handoff, Bridge}
use af_companion.Bridge.Platform.{Env}
use af_companion.Bridge.Handoffs.{
  handoff_of, CreatePlanHandoff, change_handoff, add_handoff, create_plan_handoff_body,
}
use af_companion.Bridge.Transfers.{
  fail_with, continue_handoff_body, attach_target, attach_current, attach_handoff_body,
  cancel_handoff_body,
}
use af_companion.Bridge.Grants.{
  CreateMaterializationGrant, change_grant, add_grant, create_grant_body,
}
use af_companion.Bridge.GrantOffers.{continue_from, continue_grant_body}
use af_companion.Bridge.Enrollment.{add_ticket}
use af_companion.Bridge.Consumption.{change_delivery}
use af_companion.Bridge.Deliveries.{
  CreateDelivery, add_delivery, queue_delivery, create_delivery_body, cancel_delivery_body,
  snapshot_body, no_change,
}

abbrev pub SameSessions : {A : Type 0} → Bridge → A × Bridge → Type 0
SameSessions b r = r.1.state.sessions ≡ b.state.sessions

pub add_ticket-sessions : (t : Ticket) (b : Bridge) → Holds (SameSessions b) (add_ticket t b)
unfolding add_ticket
add_ticket-sessions t b = refl

pub no_change-sessions : (b : Bridge) → Holds (SameSessions b) (no_change b)
unfolding no_change
no_change-sessions b = refl

pub create_plan_handoff_body-sessions :
    (env : Env) (input : CreatePlanHandoff) (b : Bridge)
    → Holds (SameSessions b) (create_plan_handoff_body env input b)
unfolding create_plan_handoff_body add_handoff
create_plan_handoff_body-sessions env input b = grind arith

pub continue_handoff_body-sessions :
    (env : Env) (id : String) (b : Bridge) → Holds (SameSessions b) (continue_handoff_body env id b)
unfolding continue_handoff_body fail_with change_handoff
continue_handoff_body-sessions env id b = grind arith

fail_with-sessions :
    (A : Type 0) (id code : String) (b : Bridge)
    → Holds (SameSessions {A = Option A} b) (fail_with id code b)
unfolding fail_with change_handoff
fail_with-sessions A id code b = refl

attach_target-sessions :
    (env : Env) (id target : String) (source : Session) (h : Handoff) (b : Bridge)
    → Holds (SameSessions b) (attach_target env id target source h b)
unfolding attach_target change_handoff
attach_target-sessions env id target source h b = grind arith

attach_current-sessions :
    (env : Env) (id target : String) (h : Handoff) (b : Bridge)
    → Holds (SameSessions b) (attach_current env id target h b)
unfolding attach_current fail_with change_handoff
attach_current-sessions env id target h b = grind (arith, attach_target-sessions)

pub attach_handoff_body-sessions :
    (env : Env) (id target : String) (b : Bridge)
    → Holds (SameSessions b) (attach_handoff_body env id target b)
unfolding attach_handoff_body
attach_handoff_body-sessions env id target b =
    let stale = fail_with-sessions (Handoff × String) id "canonical_handoff_stale" b in
    elim (Option-cases (handoff_of b id)) [
      | inl e ↦ ground arith
      | inr (h, e) ↦ let current = attach_current-sessions env id target h b in grind arith
    ]

pub cancel_handoff_body-sessions :
    (id : String) (b : Bridge) → Holds (SameSessions b) (cancel_handoff_body id b)
unfolding cancel_handoff_body change_handoff
cancel_handoff_body-sessions id b = grind arith

pub create_grant_body-sessions :
    (env : Env) (input : CreateMaterializationGrant) (b : Bridge)
    → Holds (SameSessions b) (create_grant_body env input b)
unfolding create_grant_body add_grant
create_grant_body-sessions env input b = grind arith

pub continue_grant_body-sessions :
    (env : Env) (id : String) (b : Bridge) → Holds (SameSessions b) (continue_grant_body env id b)
unfolding continue_grant_body continue_from change_grant
continue_grant_body-sessions env id b = grind arith

queue_delivery-sessions :
    (env : Env) (input : CreateDelivery) (b : Bridge)
    → Holds (SameSessions b) (queue_delivery env input b)
unfolding queue_delivery add_delivery
queue_delivery-sessions env input b = grind arith

pub create_delivery_body-sessions :
    (env : Env) (input : CreateDelivery) (b : Bridge)
    → Holds (SameSessions b) (create_delivery_body env input b)
unfolding create_delivery_body
create_delivery_body-sessions env input b =
    let queued = queue_delivery-sessions env input b in grind arith

pub cancel_delivery_body-sessions :
    (id : String) (b : Bridge) → Holds (SameSessions b) (cancel_delivery_body id b)
unfolding cancel_delivery_body change_delivery
cancel_delivery_body-sessions id b = grind arith

pub snapshot_body-sessions : (env : Env) (b : Bridge) → Holds (SameSessions b) (snapshot_body env b)
unfolding snapshot_body
snapshot_body-sessions env b = grind arith
