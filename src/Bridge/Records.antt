-- ===== src/Bridge/Records.antt =====
-- The store's private helpers on one record: the guards of a lease, of a handoff and of a grant,
-- and what a claim, a failure or an expiry makes of them.
use af_companion.Prelude.{
  String, Bool, true, false, not, ◌&&◌, Option, none, some, List, [], ◌∷◌, ltb, ◌==◌, if◌then◌else◌,
}
use af_companion.Prelude.StringMap.{get}
use af_companion.Prelude.Evolution.{find_first}
use af_companion.Bridge.Contract.{
  Lease, Session, is_companion_active, session_is_active, same_role, is_plan,
}
use af_companion.Bridge.State.{Handoff, Grant, Bridge}
use af_companion.Bridge.Platform.{Env}
use Prim.Native.String.{count}

-- `value === text`, where the value may be null
abbrev pub is_text : Option String → String → Bool
is_text (some v) t = v == t
is_text none t = false

-- `value === null`
abbrev pub is_null : Option String → Bool
is_null none = true
is_null (some v) = false

-- `left === right`, where both may be null
abbrev pub same_text : Option String → Option String → Bool
same_text none right = is_null right
same_text (some v) right = is_text right v

-- the value, where it is neither null nor empty
abbrev pub truthy : Option String → Option String
truthy (some v) = if v == "" then none else some v
truthy none = none

-- a value that is neither null nor empty and is the digest
abbrev pub is_digest : Option String → String → Bool
is_digest o t = is_text (truthy o) t

-- `new Date(now).toISOString()`
abbrev pub now_text : Env → String
now_text env = env.iso env.now

-- `Date.parse(text) <= Date.parse(now)`
abbrev pub is_past : Env → String → Bool
is_past env text = not (ltb (env.date_parse (now_text env)) (env.date_parse text))

abbrev pub has_session_id : String → Session → Bool
has_session_id id session = session.session_id == id

abbrev pub has_handoff_id : String → Handoff → Bool
has_handoff_id id handoff = handoff.handoff_id == id

abbrev pub has_grant_id : String → Grant → Bool
has_grant_id id grant = grant.grant_id == id

abbrev pub session_of : Bridge → String → Option Session
session_of b id = find_first (has_session_id id) b.state.sessions

-- `list.filter(p)`
unfoldable pub filter : {A : Type 0} → (A → Bool) → List A → List A
filter p [] = []
filter p (x ∷ xs) = let rest = filter p xs in if p x then x ∷ rest else rest

-- an active plan session; the operations also look at the permission mode
unfoldable pub is_active_plan : Session → Bool
is_active_plan s =
    is_companion_active s.participation && session_is_active s.status && is_plan s.role

unfoldable pub is_enrolled_plan : Session → Bool
unfolding is_active_plan
is_enrolled_plan s = is_active_plan s && s.permission_mode == "plan"

-- the conditions of `#currentLease` on the lease that it has read
unfoldable pub lease_matches : Env → Bridge → Session → Lease → Bool
lease_matches env b session lease =
    lease.bridge_instance_id == b.state.bridge_instance_id
    && lease.session_id == session.session_id
    && lease.lease_id == session.lease_id
    && not (ltb (count lease.lease_token) 32)
    && lease.canonical_cwd_digest == session.canonical_cwd_digest
    && lease.workspace_id == session.workspace_id
    && lease.application_id == session.application_id
    && lease.work_id == session.work_id
    && same_role lease.role session.role
    && lease.expires_at == session.lease_expires_at
    && ltb env.now (env.date_parse lease.expires_at)

-- `#currentLease`
unfoldable pub current_lease : Env → Bridge → Session → Option Lease
unfolding lease_matches
current_lease env b session =
    if is_companion_active session.participation
    then elim (get (env.sha256 session.session_id) b.leases) [
      | none ↦ none
      | some lease ↦ if lease_matches env b session lease then some lease else none
    ]
    else none

abbrev pub has_lease : Env → Bridge → Session → Bool
has_lease env b session = elim (current_lease env b session) [ none ↦ false | some l ↦ true ]

-- `#validLease`, for the proof's two fields
unfoldable pub valid_lease : Env → Bridge → Session → String → String → String → Bool
unfolding current_lease
valid_lease env b session cwd lease_id lease_token =
    is_companion_active session.participation
    && session.lease_id == lease_id
    && env.sha256 cwd == session.canonical_cwd_digest
    && elim (current_lease env b session) [
      | none ↦ false
      | some lease ↦ env.sha256 lease.lease_token == env.sha256 lease_token
    ]
