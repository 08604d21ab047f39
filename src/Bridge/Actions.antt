-- ===== src/Bridge/Actions.antt =====
-- The store's public methods as actions, and its runs: the mutations go one after the other.
use af_companion.Prelude.{String, Bool, true, false, ◌||◌, Option, List, [], ◌∷◌}
use af_companion.Bridge.State.{Ticket, Bridge}
use af_companion.Bridge.Mutate.{mutate}
use af_companion.Bridge.Consumption.{record_leased_hook}
use af_companion.Prelude.StringMap.{delete}
use af_companion.Bridge.Platform.{Config, Env}
use af_companion.Bridge.Handoffs.{CreatePlanHandoff, create_plan_handoff}
use af_companion.Bridge.Transfers.{continue_handoff, attach_handoff, cancel_handoff}
use af_companion.Bridge.Grants.{CreateMaterializationGrant, create_materialization_grant}
use af_companion.Bridge.GrantOffers.{continue_materialization_grant}
use af_companion.Bridge.Hooks.{HookInput}
use af_companion.Bridge.Enrollment.{CreateEnrollment, add_ticket, create_enrollment}
use af_companion.Bridge.Entry.{handle_hook}
use af_companion.Bridge.Sessions.{
  AttachSession, attach_session, revoke_session, update_session_alias, reset_state,
}
use af_companion.Bridge.Deliveries.{
  CreateDelivery, create_delivery, cancel_delivery, snapshot, restart,
}

pub data Action : Type 0 where
  enroll : CreateEnrollment → Action
  hook : HookInput → Action
  make_grant : CreateMaterializationGrant → Action
  continue_grant : (grant_id : String) → Action
  make_handoff : CreatePlanHandoff → Action
  continue : (handoff_id : String) → Action
  attach : (handoff_id target_session_id : String) → Action
  cancel : (handoff_id : String) → Action
  attach_one : AttachSession → Action
  revoke : (session_id reason : String) → Action
  rename : (session_id : String) (alias : Option String) → Action
  send : CreateDelivery → Action
  cancel_one : (delivery_id : String) → Action
  reset view reopen : Action
  -- the parts of `handleHook`, `createEnrollment`, `revokeSession` and `resetState` that run after an
  -- `await`, when other actions have come between
  resume_hook : HookInput → Action
  resume_enroll : Ticket → Action
  drop_lease : (session_id : String) → Action
  drop_leases : Action

-- the store after the action, whether it has returned or thrown
unfoldable pub step : Config → Env → Action → Bridge → Bridge
step config env (enroll input) b = (create_enrollment env config input b).1
step config env (hook input) b = (handle_hook env config input b).1
step config env (make_grant input) b = (create_materialization_grant env config input b).1
step config env (continue_grant id) b = (continue_materialization_grant env config id b).1
step config env (make_handoff input) b = (create_plan_handoff env config input b).1
step config env (continue id) b = (continue_handoff env config id b).1
step config env (attach id target) b = (attach_handoff env config id target b).1
step config env (cancel id) b = (cancel_handoff env config id b).1
step config env (attach_one input) b = (attach_session env config input b).1
step config env (revoke id reason) b = (revoke_session env config id reason b).1
step config env (rename id alias) b = (update_session_alias env config id alias b).1
step config env (send input) b = (create_delivery env config input b).1
step config env (cancel_one id) b = (cancel_delivery env config id b).1
step config env reset b = (reset_state env config b).1
step config env view b = (snapshot env config b).1
step config env reopen b = (restart env config b).1
step config env (resume_hook input) b =
    (mutate env config (record_leased_hook env input.session_id input) b).1
step config env (resume_enroll ticket) b = (mutate env config (add_ticket ticket) b).1
step config env (drop_lease session_id) b = record b {
  leases = delete (env.sha256 session_id) b.leases;
}
step config env drop_leases b = record b { leases = [] }

-- the actions, each with what it reads of the platform
unfoldable pub run : Config → List (Env × Action) → Bridge → Bridge
unfolding step
run config [] b = b
run config ((env, action) ∷ rest) b = run config rest (step config env action b)

abbrev pub is_reset : Action → Bool
is_reset reset = true
is_reset _ = false

-- a reset is among the actions
unfoldable pub resets : List (Env × Action) → Bool
resets [] = false
resets ((env, action) ∷ rest) = is_reset action || resets rest
