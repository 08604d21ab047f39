-- ===== src/Bridge/Hooks.antt =====
-- The hooks of a Codex session: what a hook reports, and what each one leaves in the state.
use af_companion.Prelude.{String, Option, none, some, [], ◌∷◌, ◌++◌, if◌then◌else◌}
use af_companion.Prelude.Evolution.{update_first}
use af_companion.Bridge.Contract.{
  LastEvent, session_start, prompt_submit, tool_start, tool_end, turn_stop, active, Session,
}
use af_companion.Bridge.State.{Bundle, Activity, Bridge}
use af_companion.Bridge.Platform.{Env}
use af_companion.Bridge.Records.{now_text, has_session_id, session_of}
use af_companion.Bridge.Grants.{has_receipt}

pub data Proof : Type 0 where
  no_proof : Proof
  lease : (lease_id lease_token : String) → Proof
  activation : (activation_capsule : String) → Proof

pub data HookEvent : Type 0 where
  start : (source : String) → HookEvent
  user_prompt : (turn_id : String) (agent_id agent_type : Option String) → HookEvent
  pre_tool_use post_tool_use : (turn_id tool_name : String) → HookEvent
  stop : (turn_id : String) → HookEvent

pub record HookInput : Type 0 where
  pub session_id : String
  pub cwd : String
  pub model : String
  pub permission_mode : String
  pub event : HookEvent
  pub companion_proof : Proof

-- the context that a hook's answer adds: a text, or the rendering of a selection
pub data HookContext : Type 0 where
  text : String → HookContext
  selection : Bundle → HookContext

-- `eventOf`
abbrev pub event_of : HookEvent → LastEvent
event_of (start s) = session_start
event_of (user_prompt t a b) = prompt_submit
event_of (pre_tool_use t n) = tool_start
event_of (post_tool_use t n) = tool_end
event_of (stop t) = turn_stop

-- `turnOf`
abbrev pub turn_of : HookEvent → Option String
turn_of (start s) = none
turn_of (user_prompt t a b) = some t
turn_of (pre_tool_use t n) = some t
turn_of (post_tool_use t n) = some t
turn_of (stop t) = some t

-- `toolOf`
abbrev pub tool_of : HookEvent → Option String
tool_of (pre_tool_use t n) = some n
tool_of (post_tool_use t n) = some n
tool_of _ = none

-- the turn of a `UserPromptSubmit` hook
abbrev pub prompt_turn : HookEvent → Option String
prompt_turn (user_prompt t a b) = some t
prompt_turn _ = none

abbrev pub work_of : Option Session → Option String
work_of none = none
work_of (some s) = some s.work_id

unfoldable pub add_activity : Activity → Bridge → Bridge
add_activity a b = record b {
  state = record b.state { activities = b.state.activities ++ (a ∷ []) };
}

-- `#recordActivity`, with the random id that it draws
unfoldable pub record_activity : Env → String → HookInput → Bridge → Bridge
unfolding add_activity
record_activity env activity_id input b =
    add_activity
      record {
        activity_id = activity_id;
        session_id = input.session_id;
        turn_id = turn_of input.event;
        event = event_of input.event;
        tool_name = tool_of input.event;
        work_id = work_of (session_of b input.session_id);
        handoff_id = none;
        at = now_text env;
      }
      b

-- the activity of a claim of a handoff or of a grant
unfoldable pub record_claim : Env → String → String → String → String → String → Bridge → Bridge
unfolding add_activity
record_claim env activity_id session_id turn_id work_id handoff_id = add_activity record {
  activity_id = activity_id;
  session_id = session_id;
  turn_id = some turn_id;
  event = LastEvent.session_handoff;
  tool_name = none;
  work_id = some work_id;
  handoff_id = some handoff_id;
  at = now_text env;
}

unfoldable pub add_receipt : Option String → Env → HookInput → Bridge → Bridge
add_receipt none env input b = b
add_receipt (some turn_id) env input b =
    if has_receipt b.state input.session_id turn_id then b else record b {
      state = record b.state {
        prompt_receipts =
            b.state.prompt_receipts
            ++ (record {
              session_id = input.session_id;
              turn_id = turn_id;
              received_at = now_text env;
            }
                ∷ []);
      };
    }

-- `#recordPromptReceipt`
unfoldable pub record_prompt_receipt : Env → HookInput → Bridge → Bridge
unfolding add_receipt
record_prompt_receipt env input = add_receipt (prompt_turn input.event) env input

unfoldable pub touch : Env → HookInput → Session → Session
touch env input s = record s {
  model = input.model;
  permission_mode = input.permission_mode;
  last_seen_at = now_text env;
  last_event = event_of input.event;
  last_turn_id = turn_of input.event;
  status = active;
}

unfoldable pub change_session : String → (Session → Session) → Bridge → Bridge
change_session id f b = record b {
  state = record b.state { sessions = update_first (has_session_id id) f b.state.sessions };
}

-- the session, its activity and its receipt, as `#recordLeasedHook` sets them
unfoldable pub record_hook : Env → String → HookInput → Bridge → Bridge
unfolding touch change_session record_activity record_prompt_receipt
record_hook env session_id input b =
    record_prompt_receipt env input
      (record_activity env (env.random 0) input (change_session session_id (touch env input) b))
