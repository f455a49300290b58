-- ===== src/Operator.antt =====
-- internal/mcpoperator/server.go: the tools that an MCP client operates the daemon with.
-- The client of the daemon is a parameter, and a handler's answers are those of its calls. The text
-- of an error that a tool shows is a constructor. The views of views.go have the fields of the views of
-- the control protocol, and stand for them; output data stays a list of bytes.
pub mod Limits
use dovik.Prelude.{
  ℕ, ℤ, pos, negsuc, String, Bool, true, false, ◌||◌, Option, none, some, List, [], map, leb, ltb,
  if◌then◌else◌, ◌==◌, string_eq,
}
use dovik.Supervision.State.{ProcessRuntime, zero_runtime}
use dovik.Supervision.Output.{OutputTail}
use dovik.Supervision.Registry.{ProjectDefinition, ProcessDefinition}
use dovik.Control.{
  ProjectView, ProcessView, StatusView, RuntimeView, project_to_view, process_to_view,
  runtime_to_view,
}
use dovik.Identity.Model.{every, is_space}

pub data InputError : Type 0 where
  empty_project_id empty_process_id limit_out_of_range : InputError

-- The errors that `toolError` tells apart; a `*control.ProtocolError` has a code.
pub data Failure : Type 0 where
  invalid : InputError → Failure
  deadline canceled other : Failure
  protocol : String → Failure

-- what a tool shows
pub data ToolError : Type 0 where
  invalid_arguments : InputError → ToolError
  timed_out was_canceled incompatible_version operation_failed daemon_error : ToolError
  connection_error : ToolError

-- ctx.Err()
pub data Context : Type 0 where
  alive past_deadline given_up : Context

-- strings.TrimSpace(text) == ""
unfoldable pub is_blank : String → Bool
unfolding every
is_blank text = every is_space text

unfoldable pub validate_project_id : String → Option InputError
unfolding is_blank
validate_project_id project_id = if is_blank project_id then some empty_project_id else none

unfoldable pub validate_ids : String → String → Option InputError
unfolding validate_project_id is_blank
validate_ids project_id process_id = elim (validate_project_id project_id) [
  | some e ↦ some e
  | none ↦ if is_blank process_id then some empty_process_id else none
]

-- The `switch` over the code of a protocol error, after the checks of time and cancellation.
abbrev protocol_error : Failure → ToolError
protocol_error (protocol code) =
    if code == "incompatible_version"
    then incompatible_version
    else if code == "operation_failed"
    then operation_failed
    else daemon_error
protocol_error failure = connection_error

unfoldable pub tool_error : Context → Failure → ToolError
tool_error context (invalid e) = invalid_arguments e
tool_error past_deadline failure = timed_out
tool_error context deadline = timed_out
tool_error given_up failure = was_canceled
tool_error alive canceled = was_canceled
tool_error alive failure = protocol_error failure

-- what a call of the client returns beside its error
abbrev pub Answer {ℓ} : Type ℓ → Type ℓ
Answer A = A × Option Failure

pub record Client : Type 0 where
  pub list_projects : Answer (List ProjectDefinition)
  pub list_processes : String → Answer (List ProcessDefinition)
  pub status : String → String → Answer (ProcessRuntime × Bool)
  pub logs : String → String → ℕ → ℤ → Answer OutputTail

abbrev refuse {ℓ} : {A : Type ℓ} → A → InputError → Answer A
refuse zero e = (zero, some (invalid e))

-- The handlers of the tools.
unfoldable pub projects_tool : Client → Answer (List ProjectView)
projects_tool client =
    let (projects, error) = client.list_projects in (map project_to_view projects, error)

unfoldable pub list_tool : Client → String → Answer (List ProcessView)
unfolding validate_project_id
list_tool client project_id = elim (validate_project_id project_id) [
  | some e ↦ refuse [] e
  | none ↦
      let (processes, error) = client.list_processes project_id in
      (map process_to_view processes, error)
]

unfoldable pub status_tool : Client → String → String → Answer StatusView
unfolding validate_ids
status_tool client project_id process_id = elim (validate_ids project_id process_id) [
  | some e ↦ refuse (record { exists = false; runtime = none }) e
  | none ↦
      let ((runtime, exists), error) = client.status project_id process_id in
      (
        record {
          exists = exists;
          runtime = if exists then some (runtime_to_view runtime) else none;
        },
        error,
      )
]

abbrev pub asked_limit : Option ℤ → ℤ
asked_limit none = pos 100
asked_limit (some limit) = limit

-- limit < 1 || limit > 1000
abbrev pub is_bad_limit : ℤ → Bool
is_bad_limit (pos n) = ltb n 1 || ltb 1000 n
is_bad_limit (negsuc n) = true

abbrev no_logs : OutputTail
no_logs = record { events = []; truncated = false }

unfoldable pub logs_tool : Client → String → String → ℕ → Option ℤ → Answer OutputTail
unfolding validate_ids
logs_tool client project_id process_id after limit = elim (validate_ids project_id process_id) [
  | some e ↦ refuse no_logs e
  | none ↦
      if is_bad_limit (asked_limit limit)
      then refuse no_logs limit_out_of_range
      else client.logs project_id process_id after (asked_limit limit)
]

-- The three tools that start, stop and restart share a handler, over the client's call.
unfoldable pub lifecycle_tool :
    (String → String → Answer ProcessRuntime) → String → String → Answer RuntimeView
unfolding validate_ids
lifecycle_tool call project_id process_id = elim (validate_ids project_id process_id) [
  | some e ↦ refuse (runtime_to_view zero_runtime) e
  | none ↦ let (runtime, error) = call project_id process_id in (runtime_to_view runtime, error)
]
