-- ===== src/Tests/Operators.antt =====
-- A client whose daemon keeps no output.
use dovik.Prelude.{ℕ, pos, ◌≡◌, ◌≤◌, ◌⊎◌, false, none, some, []}
use dovik.Supervision.State.{zero_runtime}
use dovik.Operator.{Client, InputError, invalid, logs_tool}
use dovik.Operator.Limits.{logs_tool_lem}

abbrev quiet : Client
quiet = record {
  list_projects = ([], none);
  list_processes = λ _. ([], none);
  status = λ _ _. ((zero_runtime, false), none);
  logs = λ _ _ _ _. (record { events = []; truncated = false }, none);
}

logs_tool_lem_example :
    ((e : InputError) × ((logs_tool quiet "shop" "web" 0 none).1 ≡ some (invalid e)))
    ⊎ ((n : ℕ) × (logs_tool quiet "shop" "web" 0 none ≡ quiet.logs "shop" "web" 0 (pos n))
        × (1 ≤ n)
        × (n ≤ 1000))
logs_tool_lem_example = logs_tool_lem quiet "shop" "web" 0 none
