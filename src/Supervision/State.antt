-- ===== src/Supervision/State.antt =====
-- internal/supervision/state.go and model.go: the lifecycle states and the runtime record.
pub mod Graph
use dovik.Prelude.{ℕ, ℤ, String, Bool, true, false, ◌||◌, Option, none, some, if◌then◌else◌, not}

-- A `ProcessState` is a string: one of the six constants, or any other text.
pub data ProcessState : Type 0 where
  stopped starting running stopping exited failed : ProcessState
  unknown : String → ProcessState

-- to == running, to == stopping, ...
abbrev pub is_running : ProcessState → Bool
is_running running = true
is_running _ = false

abbrev pub is_stopping : ProcessState → Bool
is_stopping stopping = true
is_stopping _ = false

abbrev pub is_failed : ProcessState → Bool
is_failed failed = true
is_failed _ = false

abbrev pub is_exited : ProcessState → Bool
is_exited exited = true
is_exited _ = false

abbrev pub is_stopped : ProcessState → Bool
is_stopped stopped = true
is_stopped _ = false

unfoldable pub is_valid : ProcessState → Bool
is_valid stopped = true
is_valid starting = true
is_valid running = true
is_valid stopping = true
is_valid exited = true
is_valid failed = true
is_valid (unknown text) = false

unfoldable pub is_active : ProcessState → Bool
is_active starting = true
is_active running = true
is_active stopping = true
is_active _ = false

unfoldable pub is_terminal : ProcessState → Bool
is_terminal stopped = true
is_terminal exited = true
is_terminal failed = true
is_terminal _ = false

unfoldable pub can_transition : ProcessState → ProcessState → Bool
can_transition starting to = is_running to || is_stopping to || is_failed to
can_transition running to = is_stopping to || is_exited to || is_failed to
can_transition stopping to = is_stopped to || is_failed to
can_transition _ to = false

-- Times are opaque numbers; the code stores and copies them.
pub record ProcessRuntime : Type 0 where
  pub project_id : String
  pub process_id : String
  pub instance_id : String
  pub pid : Option ℤ
  pub state : ProcessState
  pub started_at : Option ℕ
  pub finished_at : Option ℕ
  pub exit_code : Option ℤ
  pub termination_reason : String

-- ProcessRuntime{}: every field has Go's zero value
abbrev pub zero_runtime : ProcessRuntime
zero_runtime = record {
  project_id = "";
  process_id = "";
  instance_id = "";
  pid = none;
  state = unknown "";
  started_at = none;
  finished_at = none;
  exit_code = none;
  termination_reason = "";
}

unfoldable pub new_process_runtime : String → String → String → ProcessRuntime
new_process_runtime project_id process_id instance_id = record zero_runtime {
  project_id = project_id;
  process_id = process_id;
  instance_id = instance_id;
  state = starting;
}

pub data TransitionError : Type 0 where
  invalid_current invalid_target invalid_transition : TransitionError

-- The receiver is changed in place: the runtime comes back beside the error.
unfoldable pub transition : ProcessRuntime → ProcessState → ProcessRuntime × Option TransitionError
unfolding is_valid can_transition
transition runtime next =
    if not (is_valid runtime.state)
    then (runtime, some invalid_current)
    else if not (is_valid next)
    then (runtime, some invalid_target)
    else if not (can_transition runtime.state next)
    then (runtime, some invalid_transition)
    else (record runtime { state = next }, none)
