-- ===== src/AppServer/Types.antt =====
-- types.ts: the data that the client exchanges and keeps.
use af_companion.Prelude.{String, Bool, Option}
use af_companion.Json.{Json}

pub data ClientState : Type 0 where
  new initializing ready closing closed failed : ClientState

pub record ServerIdentity : Type 0 where
  pub user_agent : String
  pub codex_home : String
  pub platform_family : String
  pub platform_os : String

pub data StableUserInput : Type 0 where
  text image local_image : String → StableUserInput

pub data TerminalTurnStatus : Type 0 where
  completed interrupted failed : TerminalTurnStatus

pub record TurnCompletion : Type 0 where
  pub thread_id : String
  pub turn_id : String
  pub status : TerminalTurnStatus
  pub error : Option String

pub data Owner : Type 0 where
  local external unknown : Owner

-- The source's `threadId` repeats the key under which a state is kept, so it is left out.
pub data ThreadState : Type 0 where
  unmaterialized : ThreadState
  idle : Bool → ThreadState
  active : String → Owner → Bool → ThreadState
  detached : String → ThreadState

-- The `id` of a message: a string, or a number by its text.
pub data AppServerEvent : Type 0 where
  thread_started : String → AppServerEvent
  turn_started : String → String → Owner → AppServerEvent
  turn_completed : TurnCompletion → AppServerEvent
  agent_message_delta : String → String → String → String → AppServerEvent
  server_error : String → String → String → Bool → AppServerEvent
  unknown_notification : String → Json → AppServerEvent
  unknown_response : Json → AppServerEvent
  unsupported_server_request : String → AppServerEvent
  protocol_error : String → AppServerEvent
  transport_closed : Bool → Option String → AppServerEvent

pub record StartThreadOptions : Type 0 where
  pub cwd : Option String
  pub model : Option String
  pub approval_policy : Option String
  pub sandbox : Option String
  pub developer_instructions : Option String
