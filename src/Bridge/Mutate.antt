-- ===== src/Bridge/Mutate.antt =====
-- `#mutate`: one mutation of the store at a time, after the housekeeping, rolled back when it throws.
-- Only the state is rolled back: the diagnostics and the leases stay as they are.
use af_companion.Prelude.{ℕ, ◌-◌, String, List, [], ◌∷◌, length, drop, if◌then◌else◌}
use af_companion.Prelude.StringMap.{delete}
use af_companion.Bridge.Contract.{Lease, Session, is_companion_active}
use af_companion.Bridge.Results.{Result, ok, throw, plain_error}
use af_companion.Bridge.State.{State, Bridge}
use af_companion.Bridge.Platform.{Config, Env}
use af_companion.Bridge.Housekeeping.{housekeeping}

-- `MAX_CODEX_PROMPT_RECEIPTS` and `MAX_CODEX_ACTIVITIES`
abbrev pub max_records : ℕ
max_records = 512

-- `if (list.length > max) list.splice(0, list.length - max)`
unfoldable pub trim : {A : Type 0} → ℕ → List A → List A
trim max xs = drop (length xs - max) xs

unfoldable pub trim_state : State → State
unfolding trim
trim_state s = record s {
  prompt_receipts = trim max_records s.prompt_receipts;
  activities = trim max_records s.activities;
}

-- the loop that removes the lease of each session that takes no part any more
unfoldable pub remove_leases : Env → List Session → List (String × Lease) → List (String × Lease)
remove_leases env [] leases = leases
remove_leases env (s ∷ sessions) leases =
    let rest = remove_leases env sessions in
    if is_companion_active s.participation
    then rest leases
    else rest (delete (env.sha256 s.session_id) leases)

abbrev pub Mutation : Type 0 → Type 0
Mutation A = Bridge → Result (A × Bridge)

unfoldable pub commit :
    {A : Type 0} → Env → State → Bridge → Result (A × Bridge) → Result A × Bridge
unfolding trim_state remove_leases
commit env previous b (throw f) = (throw f, record b { state = previous })
commit env previous b (ok (a, c)) =
    if env.written
    then (
      ok a,
      record c { state = trim_state c.state; leases = remove_leases env c.state.sessions c.leases },
    )
    else (throw plain_error, record c { state = previous })

unfoldable pub mutate : {A : Type 0} → Env → Config → Mutation A → Bridge → Result A × Bridge
unfolding commit housekeeping
mutate env config mutation b =
    let started = housekeeping env config b in commit env b.state started (mutation started)
