-- ===== src/Control.antt =====
-- internal/control/protocol.go: the messages between a client and the daemon.
pub mod Server
pub mod Handling
use dovik.Prelude.{ℕ, ℤ, pos, String, Bool, Option, none, some, List, [], ◌∷◌, Map, nat_beq, negsuc}
use dovik.Supervision.State.{ProcessState, ProcessRuntime}
use dovik.Supervision.Output.{OutputEvent, OutputTail}
use dovik.Supervision.Registry.{ProjectDefinition, ProcessDefinition}

abbrev pub protocol_version : ℤ
protocol_version = pos 1

abbrev pub is_protocol_version : ℤ → Bool
is_protocol_version (pos n) = nat_beq n 1
is_protocol_version (negsuc n) = nat_beq 0 1

-- A request names its operation by a text; any other text is `unsupported`.
pub data Operation : Type 0 where
  identity_call gh_execute agent_run : Operation
  project_add project_remove project_list : Operation
  process_add process_remove process_list : Operation
  process_start process_stop process_restart process_status process_logs : Operation
  unsupported : String → Operation

-- `Payload` is raw JSON.
pub record Request (Payload : Type 0) : Type 0 where
  pub version : ℤ
  pub id : String
  pub operation : Operation
  pub payload : Payload

pub data ErrorCode : Type 0 where
  incompatible_version invalid_request operation_failed internal_error : ErrorCode

pub record Response (Encoded : Type 0) : Type 0 where
  pub version : ℤ
  pub id : String
  pub result : Option Encoded
  pub error : Option ErrorCode

pub record ProjectInput : Type 0 where
  pub id : String
  pub root_directory : String

pub record ProjectReference : Type 0 where
  pub project_id : String

pub record ProcessInput : Type 0 where
  pub project_id : String
  pub id : String
  pub command : String
  pub arguments : List String
  pub working_directory : String
  pub environment_overrides : Option (Map String String)

pub record ProcessReference : Type 0 where
  pub project_id : String
  pub process_id : String

pub record LogsInput : Type 0 where
  pub project_id : String
  pub process_id : String
  pub after_sequence : ℕ
  pub limit : ℤ

pub record ProjectView : Type 0 where
  pub id : String
  pub root_directory : String

pub record ProcessView : Type 0 where
  pub project_id : String
  pub id : String
  pub command : String
  pub arguments : List String
  pub working_directory : String

pub record RuntimeView : Type 0 where
  pub project_id : String
  pub process_id : String
  pub instance_id : String
  pub pid : Option ℤ
  pub state : ProcessState
  pub started_at : Option ℕ
  pub finished_at : Option ℕ
  pub exit_code : Option ℤ
  pub termination_reason : String

pub record StatusView : Type 0 where
  pub exists : Bool
  pub runtime : Option RuntimeView

pub record OutputTailView : Type 0 where
  pub events : List OutputEvent
  pub truncated : Bool

unfoldable pub project_to_view : ProjectDefinition → ProjectView
project_to_view d = record { id = d.id; root_directory = d.root_directory }

unfoldable pub process_to_view : ProcessDefinition → ProcessView
process_to_view d = record {
  project_id = d.project_id;
  id = d.id;
  command = d.command;
  arguments = d.arguments;
  working_directory = d.working_directory;
}

unfoldable pub runtime_to_view : ProcessRuntime → RuntimeView
runtime_to_view r = record {
  project_id = r.project_id;
  process_id = r.process_id;
  instance_id = r.instance_id;
  pid = r.pid;
  state = r.state;
  started_at = r.started_at;
  finished_at = r.finished_at;
  exit_code = r.exit_code;
  termination_reason = r.termination_reason;
}
