-- ===== src/Bridge/Entry.antt =====
-- `handleHook` and `#activate`, from the hook's proof on.
use af_companion.Prelude.{
  ◌+◌, String, Bool, true, false, not, ◌&&◌, ◌||◌, Option, none, some, if◌then◌else◌,
}
use af_companion.Prelude.StringMap.{has, delete, is_some}
use af_companion.Bridge.Results.{Result, ok, throw, pure}
use af_companion.Bridge.State.{Bridge}
use af_companion.Bridge.Platform.{Capsule, Config, Env}
use af_companion.Bridge.Records.{truthy, session_of, valid_lease}
use af_companion.Bridge.Mutate.{Mutation, mutate}
use af_companion.Bridge.Hooks.{
  Proof, no_proof, lease, activation, HookEvent, user_prompt, HookInput, HookContext, prompt_turn,
}
use af_companion.Bridge.Consumption.{record_leased_hook}
use af_companion.Bridge.Tickets.{count_invalid, activate_enrollment}
use af_companion.Bridge.Activation.{activate_grant}
use af_companion.Bridge.HandoffActivation.{activate_handoff}

-- a prompt of a subagent
abbrev pub has_agent : HookEvent → Bool
has_agent (user_prompt t agent_id agent_type) =
    is_some (truthy agent_id) || is_some (truthy agent_type)
has_agent _ = false

abbrev is_enrollment : Capsule → Bool
is_enrollment (Capsule.enrollment c) = true
is_enrollment _ = false

-- the guards of `#activate` before its mutation: no prompt of a subagent, and for a handoff or a
-- grant nothing but a prompt
abbrev pub is_rejected : HookEvent → Capsule → Bool
is_rejected event capsule =
    has_agent event || not (is_enrollment capsule) && not (is_some (prompt_turn event))

-- the mutation of `#activate`; the turn is that of the prompt, which the guards ask for
unfoldable pub activation_body :
    Env → Config → HookInput → String → String → Capsule → Mutation (Option HookContext)
unfolding activate_enrollment activate_grant activate_handoff
activation_body env config input raw cwd (Capsule.enrollment parsed) b =
    activate_enrollment env config input cwd parsed b
activation_body env config input raw cwd (Capsule.materialization_grant parsed) b =
    elim (prompt_turn input.event) [
      | none ↦ pure (none, b)
      | some turn_id ↦ activate_grant env config input cwd turn_id parsed b
    ]
activation_body env config input raw cwd (Capsule.handoff parsed) b =
    elim (prompt_turn input.event) [
      | none ↦ pure (none, b)
      | some turn_id ↦ activate_handoff env config input raw cwd turn_id parsed b
    ]

-- the `catch` of `#activate`: the lease that the failed mutation has issued is removed
unfoldable pub clean_lease : {A : Type 0} → String → Bridge → Result A × Bridge → Result A × Bridge
clean_lease key before (ok a, after) = (ok a, after)
clean_lease key before (throw f, after) =
    if not (has key before.leases) && has key after.leases
    then (throw f, record after { leases = delete key after.leases })
    else (throw f, after)

abbrev pub Handled : Type 0
Handled = Result (Option HookContext) × Bridge

unfoldable pub activate_parsed :
    Env → Config → HookInput → String → String → Option Capsule → Bridge → Handled
unfolding clean_lease mutate activation_body count_invalid
activate_parsed env config input raw cwd none b = (ok none, count_invalid b)
activate_parsed env config input raw cwd (some capsule) b =
    if is_rejected input.event capsule
    then (ok none, count_invalid b)
    else clean_lease (env.sha256 input.session_id) b
        (mutate env config (activation_body env config input raw cwd capsule) b)

-- `#activate`
unfoldable pub activate : Env → Config → HookInput → String → String → Bridge → Handled
unfolding activate_parsed
activate env config input cwd raw b =
    activate_parsed env config input raw cwd (env.parse_capsule raw) b

-- the proof of a lease is that of the session
unfoldable pub proves : Env → HookInput → String → String → String → Bridge → Bool
unfolding valid_lease
proves env input cwd lease_id lease_token b = elim (session_of b input.session_id) [
  | none ↦ false
  | some session ↦ valid_lease env b session cwd lease_id lease_token
]

unfoldable pub handle_contained : Env → Config → HookInput → String → Proof → Bridge → Handled
unfolding activate proves mutate record_leased_hook count_invalid
handle_contained env config input cwd no_proof b = (
  ok none,
  record b {
    diagnostics = record b.diagnostics {
      ignored_hook_invocations = b.diagnostics.ignored_hook_invocations + 1;
    };
  },
)
handle_contained env config input cwd (activation raw) b = activate env config input cwd raw b
handle_contained env config input cwd (lease lease_id lease_token) b =
    if proves env input cwd lease_id lease_token b
    then mutate env config (record_leased_hook env input.session_id input) b
    else (ok none, count_invalid b)

-- `handleHook`
unfoldable pub handle_hook : Env → Config → HookInput → Bridge → Handled
unfolding handle_contained
handle_hook env config input b = elim (env.contained_cwd input.cwd) [
  | throw f ↦ (throw f, b)
  | ok cwd ↦ handle_contained env config input cwd input.companion_proof b
]
