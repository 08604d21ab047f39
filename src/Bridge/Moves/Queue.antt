-- ===== src/Bridge/Moves/Queue.antt =====
-- The operations on deliveries, `snapshot` and the restart, as moves of the records.
use af_companion.Prelude.{arith, String, refl, inl, inr, Bool-cases, Option-cases}
use af_companion.Prelude.Evolution.{find_first}
use af_companion.Bridge.Contract.{is_queued}
use af_companion.Bridge.Results.{Holds}
use af_companion.Bridge.State.{Delivery, Bridge}
use af_companion.Bridge.Platform.{Config, Env}
use af_companion.Bridge.Deliveries.{
  CreateDelivery, new_delivery, add_delivery, queue_delivery, create_delivery_body, create_delivery,
  has_delivery_id, cancel, cancel_delivery_body, cancel_delivery,
}
use af_companion.Bridge.Moves.{Moves}
use af_companion.Bridge.Moves.Time.{Moved, mutate-Moves}
use af_companion.Bridge.Moves.Parts.{add_delivery_to-Moves, change_delivery-Moves}

add_delivery-Moves : (d : Delivery) (b : Bridge) → Moves b.state (add_delivery d b).state
unfolding add_delivery
add_delivery-Moves d b = add_delivery_to-Moves b.state d

queue_delivery-Moves :
    (env : Env) (input : CreateDelivery) (b : Bridge) → Holds (Moved b) (queue_delivery env input b)
unfolding queue_delivery
queue_delivery-Moves env input b =
    let added = add_delivery-Moves (new_delivery env input) b in grind arith

create_delivery_body-Moves :
    (env : Env) (input : CreateDelivery) (b : Bridge)
    → Holds (Moved b) (create_delivery_body env input b)
unfolding create_delivery_body
create_delivery_body-Moves env input b =
    let queued = queue_delivery-Moves env input b in grind arith

pub create_delivery-Moves :
    (env : Env) (config : Config) (input : CreateDelivery) (b : Bridge)
    → Moves b.state (create_delivery env config input b).1.state
unfolding create_delivery
create_delivery-Moves env config input b =
    mutate-Moves env config (create_delivery_body env input) b
      (create_delivery_body-Moves env input)

cancel_delivery_body-Moves :
    (id : String) (b : Bridge) → Holds (Moved b) (cancel_delivery_body id b)
unfolding cancel_delivery_body cancel
cancel_delivery_body-Moves id b =
    elim (Option-cases (find_first (has_delivery_id id) b.state.deliveries)) [
      | inl e ↦ ground arith
      | inr (d, e) ↦ elim (Bool-cases (is_queued d.status)) [
        | inl q ↦
            let canceled = change_delivery-Moves (has_delivery_id id) cancel b d e (refl, inl q) in
            ground arith
        | inr q ↦ ground arith
      ]
    ]

pub cancel_delivery-Moves :
    (env : Env) (config : Config) (id : String) (b : Bridge)
    → Moves b.state (cancel_delivery env config id b).1.state
unfolding cancel_delivery
cancel_delivery-Moves env config id b =
    mutate-Moves env config (cancel_delivery_body id) b (cancel_delivery_body-Moves id)
