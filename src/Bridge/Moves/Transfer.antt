-- ===== src/Bridge/Moves/Transfer.antt =====
-- The operations on handoffs, as moves of the records.
use af_companion.Prelude.{
  arith, String, true, Option, none, some, [], ◌∷◌, ◌++◌, map, ◌≡◌, refl, inl, inr, Bool-cases,
}
use af_companion.Prelude.Evolution.{Evolves-trans, Evolves-map, Evolves-append}
use af_companion.Bridge.Contract.{Session, HandoffStatus, handoff_is_pending}
use af_companion.Bridge.Results.{Result, ok, throw, Holds}
use af_companion.Bridge.State.{Handoff, State, Bridge}
use af_companion.Bridge.Platform.{Config, Env}
use af_companion.Bridge.HandoffRecords.{canonical_of, fail_handoff}
use af_companion.Bridge.Handoffs.{
  handoff_of, change_handoff, CreatePlanHandoff, new_handoff, supersede, add_handoff,
  create_plan_handoff_body, create_plan_handoff,
}
use af_companion.Bridge.Transfers.{
  offer_handoff, attach_to, fail_with, or_stale, continue_handoff_body, continue_handoff,
  attach_target, attach_current, attach_handoff_body, attach_handoff, cancel_handoff_body,
  cancel_handoff,
}
use af_companion.Bridge.Mutate.{mutate}
use af_companion.Bridge.Moves.{
  HandoffMove, IsHandoffClean, Moves, HandoffMove-refl, HandoffMove-trans,
  IsHandoffClean-HandoffMove,
}
use af_companion.Bridge.Moves.Parts.{handoffs-Moves, change_handoff-Moves}
use af_companion.Bridge.Moves.Time.{fail_handoff-Moves, settle_handoff-Moves, Moved, mutate-Moves}

offer_handoff-Moves :
    (env : Env) (activation_capsule : String) (h : Handoff)
    → handoff_is_pending h.status ≡ true
    → HandoffMove h (offer_handoff env activation_capsule h)
unfolding offer_handoff canonical_of
offer_handoff-Moves env activation_capsule h p = (refl, inl p, inl (inl refl))

attach_to-Moves :
    (target_id : String) (h : Handoff)
    → handoff_is_pending h.status ≡ true
    → HandoffMove h (attach_to target_id h)
unfolding attach_to canonical_of
attach_to-Moves target_id h p = (refl, inl p, inl (inl refl))

supersede-Moves : (source : Session) (h : Handoff) → HandoffMove h (supersede source h)
unfolding supersede
supersede-Moves source h = elim (Bool-cases (handoff_is_pending h.status)) [
  | inl p ↦
      let settled = settle_handoff-Moves HandoffStatus.superseded h p in
      let same = HandoffMove-refl h in ground arith
  | inr p ↦ let same = HandoffMove-refl h in ground arith
]

add_handoff-Moves :
    (source : Session) (h : Handoff) (b : Bridge)
    → IsHandoffClean h
    → Moves b.state (add_handoff source h b).state
unfolding add_handoff
add_handoff-Moves source h b clean =
    let superseded = map (supersede source) b.state.handoffs in
    handoffs-Moves b.state (superseded ++ (h ∷ [])) (
      Evolves-trans HandoffMove IsHandoffClean HandoffMove-trans IsHandoffClean-HandoffMove
        b.state.handoffs superseded (superseded ++ (h ∷ []))
        (Evolves-map HandoffMove IsHandoffClean (supersede source) (supersede-Moves source)
          b.state.handoffs)
        (Evolves-append HandoffMove IsHandoffClean HandoffMove-refl superseded (h ∷ [])
          (clean, tt)))

create_plan_handoff_body-Moves :
    (env : Env) (input : CreatePlanHandoff) (c : Bridge)
    → Holds (Moved c) (create_plan_handoff_body env input c)
unfolding create_plan_handoff_body new_handoff
create_plan_handoff_body-Moves env input c =
    let clean : IsHandoffClean (new_handoff env input) = inl refl in
    grind (arith, add_handoff-Moves, clean)

pub create_plan_handoff-Moves :
    (env : Env) (config : Config) (input : CreatePlanHandoff) (b : Bridge)
    → Moves b.state (create_plan_handoff env config input b).1.state
unfolding create_plan_handoff
create_plan_handoff-Moves env config input b =
    mutate-Moves env config (create_plan_handoff_body env input) b
      (create_plan_handoff_body-Moves env input)

cancel_handoff_body-Moves : (id : String) (c : Bridge) → Holds (Moved c) (cancel_handoff_body id c)
unfolding cancel_handoff_body
cancel_handoff_body-Moves id c =
    grind (arith, change_handoff-Moves, settle_handoff-Moves HandoffStatus.canceled)

pub fail-Moves :
    (code id : String) (b : Bridge) (h : Handoff)
    → handoff_of b id ≡ some h
    → handoff_is_pending h.status ≡ true
    → Moves b.state (change_handoff id (fail_handoff code) b).state
fail-Moves code id b h found p =
    change_handoff-Moves id (fail_handoff code) b h found (fail_handoff-Moves code h p)

offer-Moves :
    (env : Env) (capsule id : String) (b : Bridge) (h : Handoff)
    → handoff_of b id ≡ some h
    → handoff_is_pending h.status ≡ true
    → Moves b.state (change_handoff id (offer_handoff env capsule) b).state
offer-Moves env capsule id b h found p =
    change_handoff-Moves id (offer_handoff env capsule) b h found
      (offer_handoff-Moves env capsule h p)

attach-Moves :
    (target id : String) (b : Bridge) (h : Handoff)
    → handoff_of b id ≡ some h
    → handoff_is_pending h.status ≡ true
    → Moves b.state (change_handoff id (attach_to target) b).state
attach-Moves target id b h found p =
    change_handoff-Moves id (attach_to target) b h found (attach_to-Moves target h p)

continue_handoff_body-Moves :
    (env : Env) (id : String) (c : Bridge) → Holds (Moved c) (continue_handoff_body env id c)
unfolding continue_handoff_body fail_with
continue_handoff_body-Moves env id c = grind (arith, fail-Moves, offer-Moves)

attach_target-Moves :
    (env : Env) (id target : String) (source : Session) (h : Handoff) (c : Bridge)
    → handoff_of c id ≡ some h
    → handoff_is_pending h.status ≡ true
    → Holds (Moved c) (attach_target env id target source h c)
unfolding attach_target
attach_target-Moves env id target source h c found p = grind (arith, attach-Moves)

attach_current-Moves :
    (env : Env) (id target : String) (h : Handoff) (c : Bridge)
    → handoff_of c id ≡ some h
    → handoff_is_pending h.status ≡ true
    → Holds (Moved c) (attach_current env id target h c)
unfolding attach_current fail_with
attach_current-Moves env id target h c found p = grind (arith, fail-Moves, attach_target-Moves)

attach_handoff_body-Moves :
    (env : Env) (id target : String) (c : Bridge)
    → Holds (Moved c) (attach_handoff_body env id target c)
unfolding attach_handoff_body fail_with
attach_handoff_body-Moves env id target c = grind (arith, fail-Moves, attach_current-Moves)

or_stale-Moves :
    {A : Type 0} (id : String) (s : State) (r : Result (Option A)) (b : Bridge)
    → Moves s b.state
    → Moves s (or_stale id (r, b)).1.state
unfolding or_stale
or_stale-Moves id s (throw f) b m = m
or_stale-Moves id s (ok (some a)) b m = m
or_stale-Moves id s (ok none) b m = m

pub continue_handoff-Moves :
    (env : Env) (config : Config) (id : String) (b : Bridge)
    → Moves b.state (continue_handoff env config id b).1.state
unfolding continue_handoff
continue_handoff-Moves env config id b =
    let run = mutate env config (continue_handoff_body env id) b in
    or_stale-Moves id b.state run.0 run.1 (
      mutate-Moves env config (continue_handoff_body env id) b (continue_handoff_body-Moves env id))

pub attach_handoff-Moves :
    (env : Env) (config : Config) (id target : String) (b : Bridge)
    → Moves b.state (attach_handoff env config id target b).1.state
unfolding attach_handoff
attach_handoff-Moves env config id target b =
    let run = mutate env config (attach_handoff_body env id target) b in
    or_stale-Moves id b.state run.0 run.1 (
      mutate-Moves env config (attach_handoff_body env id target) b
        (attach_handoff_body-Moves env id target))

pub cancel_handoff-Moves :
    (env : Env) (config : Config) (id : String) (b : Bridge)
    → Moves b.state (cancel_handoff env config id b).1.state
unfolding cancel_handoff
cancel_handoff-Moves env config id b =
    mutate-Moves env config (cancel_handoff_body id) b (cancel_handoff_body-Moves id)
