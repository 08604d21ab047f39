-- ===== src/Bridge/Deliveries.antt =====
-- `createDelivery`, `cancelDelivery`, the mutation of `snapshot`, and the restart in `open`.
use af_companion.Prelude.{
  String, Bool, not, ◌&&◌, Option, none, List, [], ◌∷◌, ◌++◌, map, ◌==◌, if◌then◌else◌,
}
use af_companion.Prelude.StringMap.{is_some}
use af_companion.Prelude.Evolution.{find_first}
use af_companion.Bridge.Contract.{
  Participation, Role, DeliveryStatus, DeliveryScope, Ineligible, Session, same_role, is_queued,
  is_companion_active, handoff_is_pending, grant_is_pending, delivery_eligibility,
}
use af_companion.Bridge.Results.{
  Result, ◌>>=◌, ◌>>◌, pure, require, present, read, conflict, not_found,
}
use af_companion.Bridge.State.{State, Handoff, Grant, SourceRevision, Bundle, Delivery, Bridge}
use af_companion.Bridge.Platform.{Config, Env}
use af_companion.Bridge.Records.{now_text, is_past, session_of, has_lease}
use af_companion.Bridge.HandoffRecords.{canonical_of, matches_canonical, fail_handoff}
use af_companion.Bridge.GrantRecords.{matches_bootstrap, fail_grant, finalize_grant}
use af_companion.Bridge.Texts.{◌+++◌}
use af_companion.Bridge.Mutate.{Mutation, mutate}
use af_companion.Bridge.Consumption.{reason_text, same_revision, change_delivery}

pub record CreateDelivery : Type 0 where
  pub target_session_id : String
  pub scope : DeliveryScope
  pub current_role : Role
  pub current_source_revision : SourceRevision
  pub bundle : Bundle

unfoldable pub new_delivery : Env → CreateDelivery → Delivery
new_delivery env input = record {
  delivery_id = env.random 0;
  selection_id = input.bundle.selection_id;
  target_session_id = input.target_session_id;
  status = DeliveryStatus.queued;
  created_at = now_text env;
  delivered_at = none;
  consumed_at = none;
  consumed_turn_id = none;
  error = none;
  bundle = input.bundle;
  scope = input.scope;
}

unfoldable pub add_delivery : Delivery → Bridge → Bridge
add_delivery d b = record b {
  state = record b.state { deliveries = b.state.deliveries ++ (d ∷ []) };
}

-- why the session cannot take a delivery of the scope now
abbrev pub ineligible : Env → Session → DeliveryScope → Option Ineligible
ineligible env session scope =
    delivery_eligibility session scope (env.date_parse session.lease_expires_at)
      (env.date_parse (now_text env))

-- the part of `createDelivery` on the bundle
unfoldable pub queue_delivery : Env → CreateDelivery → Mutation Delivery
unfolding new_delivery add_delivery same_revision
queue_delivery env input b = do
  require
      (input.bundle.workspace_id == input.scope.workspace_id
        && input.bundle.artifact_root_id == ("artifacts/af/" +++ input.scope.work_id))
      (conflict "bundle_scope_mismatch")
  require (same_revision input.bundle.source_revision input.current_source_revision)
      (conflict "stale_revision")
  revision ← read (env.source_revision input.scope.work_id)
  require (same_revision input.bundle.source_revision revision) (conflict "stale_revision")
  require (not (is_past env input.bundle.expires_at)) (conflict "bundle_expired")
  pure (new_delivery env input, add_delivery (new_delivery env input) b)

unfoldable pub create_delivery_body : Env → CreateDelivery → Mutation Delivery
unfolding queue_delivery
create_delivery_body env input b = do
  item ← read (env.work_item input.scope.work_id)
  session ← present (session_of b input.target_session_id) (conflict "inactive_session")
  require (has_lease env b session) (conflict "invalid_lease")
  require (not (is_some (ineligible env session input.scope)))
      (conflict (reason_text (ineligible env session input.scope)))
  require (same_role session.role input.current_role) (conflict "role_mismatch")
  queue_delivery env input b

-- `createDelivery`
unfoldable pub create_delivery : Env → Config → CreateDelivery → Bridge → Result Delivery × Bridge
unfolding mutate create_delivery_body
create_delivery env config input = mutate env config (create_delivery_body env input)

abbrev pub has_delivery_id : String → Delivery → Bool
has_delivery_id id d = d.delivery_id == id

unfoldable pub cancel : Delivery → Delivery
cancel d = record d { status = DeliveryStatus.canceled }

unfoldable pub cancel_delivery_body : String → Mutation Delivery
unfolding cancel change_delivery
cancel_delivery_body id b = do
  delivery ←
      present (find_first (has_delivery_id id) b.state.deliveries) (not_found "delivery_not_found")
  require (is_queued delivery.status) (conflict "delivery_not_queued")
  pure (cancel delivery, change_delivery (has_delivery_id id) cancel b)

-- `cancelDelivery`
unfoldable pub cancel_delivery : Env → Config → String → Bridge → Result Delivery × Bridge
unfolding mutate cancel_delivery_body
cancel_delivery env config id = mutate env config (cancel_delivery_body id)

-- a handoff as `snapshot` leaves it
unfoldable pub refresh_handoff : Env → Handoff → Result Handoff
refresh_handoff env h =
    if handoff_is_pending h.status
    then (do
      current ← matches_canonical env (canonical_of h)
      pure (if current then h else fail_handoff "canonical_handoff_stale" h))
    else pure h

-- a grant as `snapshot` leaves it
unfoldable pub refresh_grant : Env → Grant → Result Grant
unfolding matches_bootstrap
refresh_grant env g =
    if grant_is_pending g.status
    then (do
      current ← matches_bootstrap env g
      pure (if current then g else fail_grant "work_item_changed" g))
    else finalize_grant env (now_text env) g

-- a loop whose body may throw
unfoldable pub each : {A : Type 0} → (A → Result A) → List A → Result (List A)
each f [] = pure []
each f (x ∷ xs) = do y ← f x; ys ← each f xs; pure (y ∷ ys)

unfoldable pub snapshot_body : Env → Mutation (Unit {0})
unfolding each refresh_handoff refresh_grant
snapshot_body env b = do
  handoffs ← each (refresh_handoff env) b.state.handoffs
  grants ← each (refresh_grant env) b.state.materialization_grants
  pure (
    tt,
    record b { state = record b.state { handoffs = handoffs; materialization_grants = grants } },
  )

-- the mutation of `snapshot`, whose answer is then read from the state
unfoldable pub snapshot : Env → Config → Bridge → Result (Unit {0}) × Bridge
unfolding mutate snapshot_body
snapshot env config = mutate env config (snapshot_body env)

unfoldable pub expire_session : Session → Session
expire_session s =
    if is_companion_active s.participation
    then record s { participation = Participation.expired }
    else s

unfoldable pub cancel_queued : Delivery → Delivery
unfolding cancel
cancel_queued d = if is_queued d.status then cancel d else d

unfoldable pub fail_pending : Handoff → Handoff
fail_pending h = if handoff_is_pending h.status then fail_handoff "bridge_restarted" h else h

-- the records as `open` leaves those of another instance
unfoldable pub restarted : State → State
unfolding expire_session cancel_queued fail_pending
restarted s = record s {
  sessions = map expire_session s.sessions;
  deliveries = map cancel_queued s.deliveries;
  handoffs = map fail_pending s.handoffs;
}

-- `previousInstance && previousInstance !== instanceId`
abbrev pub is_other : Env → Bridge → Bool
is_other env b =
    not (b.state.bridge_instance_id == "") && not (b.state.bridge_instance_id == env.random 0)

-- the part of `open` on the state that it reads, with the id of the new instance
unfoldable pub opened : Env → Bridge → Bridge
unfolding restarted
opened env b = record {
  state = record (if is_other env b then restarted b.state else b.state) {
    bridge_instance_id = env.random 0;
  };
  leases = if is_other env b then [] else b.leases;
  diagnostics = record {
    ignored_hook_invocations = 0;
    invalid_activation_attempts = 0;
    expired_tickets = 0;
  };
}

unfoldable pub no_change : Mutation (Unit {0})
no_change b = pure (tt, b)

-- `open` on a state that it can read and write, with its first mutation
unfoldable pub restart : Env → Config → Bridge → Result (Unit {0}) × Bridge
unfolding mutate opened no_change
restart env config b = mutate env config no_change (opened env b)
