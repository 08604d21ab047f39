-- ===== src/Bridge/Leases.antt =====
-- `#issueLease` and `#newSession`: what makes a session of a ticket.
use af_companion.Prelude.{◌+◌, String, not, none, [], ◌∷◌, ◌++◌}
use af_companion.Prelude.StringMap.{has, put}
use af_companion.Bridge.Contract.{companion_active, Role, ActivationOrigin, active, Lease, Session}
use af_companion.Bridge.Results.{◌>>◌, pure, require, plain_error}
use af_companion.Bridge.State.{Ticket, Bridge}
use af_companion.Bridge.Platform.{Config, Env}
use af_companion.Bridge.Records.{now_text}
use af_companion.Bridge.Mutate.{Mutation}
use af_companion.Bridge.Hooks.{HookEvent, HookInput, start, event_of, turn_of}
use Prim.Native.String.{[], ◌∷◌}

-- What the lease of a session is issued for
pub record LeaseScope : Type 0 where
  pub session_id : String
  pub canonical_cwd_digest : String
  pub workspace_id : String
  pub application_id : String
  pub work_id : String
  pub role : Role
  pub activation_origin : ActivationOrigin

unfoldable pub new_lease : Env → Config → Bridge → LeaseScope → Lease
new_lease env config b scope = record {
  lease_id = env.random 0;
  lease_token = env.random 1;
  bridge_instance_id = b.state.bridge_instance_id;
  session_id = scope.session_id;
  canonical_cwd_digest = scope.canonical_cwd_digest;
  workspace_id = scope.workspace_id;
  application_id = scope.application_id;
  work_id = scope.work_id;
  role = scope.role;
  activation_origin = scope.activation_origin;
  issued_at = now_text env;
  expires_at = env.iso (env.date_parse (now_text env) + config.lease_ttl);
}

-- `#issueLease`: the file of the lease must not be there
unfoldable pub issue_lease : Env → Config → LeaseScope → Mutation Lease
unfolding new_lease
issue_lease env config scope b = do
  require (not (has (env.sha256 scope.session_id) b.leases)) plain_error
  require env.lease_written plain_error
  pure (
    new_lease env config b scope,
    record b { leases = put (env.sha256 scope.session_id) (new_lease env config b scope) b.leases },
  )

abbrev source_of_event : HookEvent → String
source_of_event (start source) = source
source_of_event _ = "activation_proof"

-- `#newSession`
unfoldable pub new_session : Env → HookInput → String → Ticket → Lease → ActivationOrigin → Session
new_session env input cwd ticket lease origin = record {
  session_id = input.session_id;
  participation = companion_active;
  activation_origin = origin;
  hook_mode = ticket.hook_mode;
  workspace_id = ticket.workspace_id;
  application_id = ticket.application_id;
  work_id = ticket.work_id;
  role = ticket.requested_role;
  cwd = cwd;
  canonical_cwd_digest = ticket.canonical_cwd_digest;
  model = input.model;
  permission_mode = input.permission_mode;
  source = source_of_event input.event;
  started_at = now_text env;
  last_seen_at = now_text env;
  last_event = event_of input.event;
  last_turn_id = turn_of input.event;
  status = active;
  alias = none;
  lease_id = lease.lease_id;
  lease_expires_at = lease.expires_at;
  revoked_at = none;
  revoke_reason = none;
}

unfoldable pub add_session : Session → Bridge → Bridge
add_session s b = record b { state = record b.state { sessions = b.state.sessions ++ (s ∷ []) } }
