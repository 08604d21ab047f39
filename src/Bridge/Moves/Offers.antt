-- ===== src/Bridge/Moves/Offers.antt =====
-- The operations on grants, as moves of the records.
use af_companion.Prelude.{
  arith, String, true, Option, none, some, [], ◌∷◌, ◌++◌, map, ◌≡◌, refl, inl,
}
use af_companion.Prelude.Evolution.{Evolves-trans, Evolves-map, Evolves-append}
use af_companion.Bridge.Contract.{Session, GrantStatus, grant_is_pending}
use af_companion.Bridge.Results.{Result, ok, throw, Holds}
use af_companion.Bridge.State.{Grant, State, Bridge}
use af_companion.Bridge.Platform.{Config, Env, WorkItem}
use af_companion.Bridge.GrantRecords.{fail_grant, settle_grant, supersede_grant}
use af_companion.Bridge.Grants.{
  grant_of, change_grant, CreateMaterializationGrant, new_grant, replace_grant, add_grant,
  create_grant_body, create_materialization_grant,
}
use af_companion.Bridge.GrantOffers.{
  offer_grant, continue_from, or_stale_grant, continue_grant_body, continue_materialization_grant,
}
use af_companion.Bridge.Mutate.{mutate}
use af_companion.Bridge.Moves.{
  GrantMove, IsGrantClean, Moves, GrantMove-refl, GrantMove-trans, IsGrantClean-GrantMove,
}
use af_companion.Bridge.Moves.Parts.{grants-Moves, change_grant-Moves}
use af_companion.Bridge.Moves.Time.{fail_grant-Moves, settle_grant-Moves, Moved, mutate-Moves}

replace_grant-Moves : (work_id : String) (g : Grant) → GrantMove g (replace_grant work_id g)
unfolding replace_grant supersede_grant
replace_grant-Moves work_id g = ground arith

add_grant-Moves : (g : Grant) (b : Bridge) → IsGrantClean g → Moves b.state (add_grant g b).state
unfolding add_grant
add_grant-Moves g b clean =
    let old = b.state.materialization_grants in
    let replaced = map (replace_grant g.work_id) old in
    grants-Moves b.state (replaced ++ (g ∷ [])) (
      Evolves-trans GrantMove IsGrantClean GrantMove-trans IsGrantClean-GrantMove old replaced
        (replaced ++ (g ∷ []))
        (Evolves-map GrantMove IsGrantClean (replace_grant g.work_id)
          (replace_grant-Moves g.work_id) old)
        (Evolves-append GrantMove IsGrantClean GrantMove-refl replaced (g ∷ []) (clean, tt)))

new_grant-IsClean :
    (env : Env) (input : CreateMaterializationGrant) (source : Session) (item : WorkItem)
    → IsGrantClean (new_grant env input source item)
unfolding new_grant
new_grant-IsClean env input source item = inl refl

create_grant_body-Moves :
    (env : Env) (input : CreateMaterializationGrant) (c : Bridge)
    → Holds (Moved c) (create_grant_body env input c)
unfolding create_grant_body
create_grant_body-Moves env input c = grind (arith, add_grant-Moves, new_grant-IsClean)

pub create_materialization_grant-Moves :
    (env : Env) (config : Config) (input : CreateMaterializationGrant) (b : Bridge)
    → Moves b.state (create_materialization_grant env config input b).1.state
unfolding create_materialization_grant
create_materialization_grant-Moves env config input b =
    mutate-Moves env config (create_grant_body env input) b (create_grant_body-Moves env input)

pub fail_grant_of-Moves :
    (code id : String) (b : Bridge) (g : Grant)
    → grant_of b id ≡ some g
    → grant_is_pending g.status ≡ true
    → Moves b.state (change_grant id (fail_grant code) b).state
fail_grant_of-Moves code id b g found p =
    change_grant-Moves id (fail_grant code) b g found (fail_grant-Moves code g p)

expire_grant_of-Moves :
    (id : String) (b : Bridge) (g : Grant)
    → grant_of b id ≡ some g
    → grant_is_pending g.status ≡ true
    → Moves b.state (change_grant id (settle_grant GrantStatus.expired) b).state
expire_grant_of-Moves id b g found p =
    change_grant-Moves id (settle_grant GrantStatus.expired) b g found
      (settle_grant-Moves GrantStatus.expired g p)

offer_grant_of-Moves :
    (env : Env) (id : String) (b : Bridge) (g : Grant)
    → grant_of b id ≡ some g
    → grant_is_pending g.status ≡ true
    → Moves b.state (change_grant id (offer_grant env) b).state
unfolding offer_grant
offer_grant_of-Moves env id b g found p =
    change_grant-Moves id (offer_grant env) b g found (refl, refl, inl p, inl (inl refl))

continue_from-Moves :
    (env : Env) (id : String) (g : Grant) (source : Session) (c : Bridge)
    → grant_of c id ≡ some g
    → grant_is_pending g.status ≡ true
    → Holds (Moved c) (continue_from env id g source c)
unfolding continue_from
continue_from-Moves env id g source c found p =
    grind (arith, fail_grant_of-Moves, offer_grant_of-Moves)

continue_grant_body-Moves :
    (env : Env) (id : String) (c : Bridge) → Holds (Moved c) (continue_grant_body env id c)
unfolding continue_grant_body
continue_grant_body-Moves env id c =
    grind (arith, fail_grant_of-Moves, expire_grant_of-Moves, continue_from-Moves)

or_stale_grant-Moves :
    {A : Type 0} (id : String) (s : State) (r : Result (Option A)) (b : Bridge)
    → Moves s b.state
    → Moves s (or_stale_grant id (r, b)).1.state
unfolding or_stale_grant
or_stale_grant-Moves id s (throw f) b m = m
or_stale_grant-Moves id s (ok (some a)) b m = m
or_stale_grant-Moves id s (ok none) b m = m

pub continue_materialization_grant-Moves :
    (env : Env) (config : Config) (id : String) (b : Bridge)
    → Moves b.state (continue_materialization_grant env config id b).1.state
unfolding continue_materialization_grant
continue_materialization_grant-Moves env config id b =
    let run = mutate env config (continue_grant_body env id) b in
    or_stale_grant-Moves id b.state run.0 run.1
      (mutate-Moves env config (continue_grant_body env id) b (continue_grant_body-Moves env id))
