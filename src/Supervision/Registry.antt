-- ===== src/Supervision/Registry.antt =====
-- internal/supervision/registry.go and model.go: projects, their processes and runtimes.
-- A Go map of pointers is an association list whose values may be nil; a pointer that is shared
-- (a runtime read through its process) is read and written through the keys.
pub mod Reconcile
pub mod Repeat
use dovik.Prelude.{
  ℕ, ℤ, String, Bool, true, false, ◌||◌, not, Option, none, some, List, [], ◌∷◌, Map, if◌then◌else◌,
}
use dovik.Supervision.State.{
  ProcessState, failed, ProcessRuntime, TransitionError, is_valid, is_active, transition,
}

pub record ProjectDefinition : Type 0 where
  pub id : String
  pub root_directory : String

pub record ProcessDefinition : Type 0 where
  pub project_id : String
  pub id : String
  pub command : String
  pub arguments : List String
  pub working_directory : String
  pub environment_overrides : Option (Map String String)

pub record RegisteredProcess : Type 0 where
  pub definition : ProcessDefinition
  pub runtime : Option ProcessRuntime

pub record RegisteredProject : Type 0 where
  pub definition : ProjectDefinition
  pub processes : Map String (Option RegisteredProcess)

pub record Registry : Type 0 where
  pub projects : Map String (Option RegisteredProject)

abbrev pub new_registry : Registry
new_registry = record { projects = [] }

abbrev pub daemon_restart_reason : String
daemon_restart_reason = "daemon-restart"

pub data ReconcileError : Type 0 where
  no_project_record : String → ReconcileError
  no_process_record : String → ReconcileError
  invalid_state : String → ReconcileError
  reconcile_failed : String → TransitionError → ReconcileError

pub data Reconciled : Type 0 where
  changed : Bool → Reconciled
  refused : ReconcileError → Reconciled

-- The body of the inner loop for a process with a runtime; the process comes back as the loop
-- leaves it, beside whether it changed or the error that ends both loops.
unfoldable pub reconcile_runtime :
    ℕ → String → RegisteredProcess → ProcessRuntime → RegisteredProcess × Reconciled
unfolding is_valid is_active transition
reconcile_runtime at process_id process runtime =
    if not (is_valid runtime.state)
    then (process, refused (invalid_state process_id))
    else if not (is_active runtime.state)
    then (process, changed false)
    else (let (runtime', error) = transition runtime failed in
        elim error [
          | some e ↦
              (record process { runtime = some runtime' }, refused (reconcile_failed process_id e))
          | none ↦ (
            record process {
              runtime = some (record runtime' {
                finished_at = some at;
                termination_reason = daemon_restart_reason;
              });
            },
            changed true,
          )
        ])

unfoldable pub reconcile_process :
    ℕ → String → Option RegisteredProcess → Option RegisteredProcess × Reconciled
unfolding reconcile_runtime
reconcile_process at process_id none = (none, refused (no_process_record process_id))
reconcile_process at process_id (some process) = elim process.runtime [
  | none ↦ (some process, changed false)
  | some runtime ↦
      let (process', result) = reconcile_runtime at process_id process runtime in
      (some process', result)
]

-- The inner loop; `seen` is the variable `changed`.
unfoldable pub reconcile_processes :
    ℕ
    → Bool
    → Map String (Option RegisteredProcess)
    → Map String (Option RegisteredProcess) × Reconciled
unfolding reconcile_process
reconcile_processes at seen [] = ([], changed seen)
reconcile_processes at seen ((process_id, process) ∷ rest) =
    let (process', result) = reconcile_process at process_id process in
    elim result [
      | refused e ↦ ((process_id, process') ∷ rest, refused e)
      | changed now ↦
          let (rest', result') = reconcile_processes at (seen || now) rest in
          ((process_id, process') ∷ rest', result')
    ]

-- The outer loop.
unfoldable pub reconcile_projects :
    ℕ
    → Bool
    → Map String (Option RegisteredProject)
    → Map String (Option RegisteredProject) × Reconciled
unfolding reconcile_processes
reconcile_projects at seen [] = ([], changed seen)
reconcile_projects at seen ((project_id, none) ∷ rest) =
    ((project_id, none) ∷ rest, refused (no_project_record project_id))
reconcile_projects at seen ((project_id, some project) ∷ rest) =
    let (processes', result) = reconcile_processes at seen project.processes in
    elim result [
      | refused e ↦
          ((project_id, some (record project { processes = processes' })) ∷ rest, refused e)
      | changed now ↦
          let (rest', result') = reconcile_projects at now rest in
          ((project_id, some (record project { processes = processes' })) ∷ rest', result')
    ]

unfoldable pub reconcile_after_daemon_restart : Registry → ℕ → Registry × Reconciled
unfolding reconcile_projects
reconcile_after_daemon_restart registry at =
    let (projects', result) = reconcile_projects at false registry.projects in
    (record { projects = projects' }, result)
