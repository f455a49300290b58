-- ===== src/Supervision/Operations.antt =====
-- internal/supervision/registry_operations.go: adding, removing and listing definitions.
pub mod Rollback
pub mod Editing
pub mod Settling
pub mod Keeping
use Prim.Native.String.{compare}
use text.Mathlib.Text.{is_lt}
use mathlib.Core.Option.{map}
use dovik.Prelude.{
  ℕ, String, Bool, true, false, ◌||◌, not, Option, none, some, List, [], ◌∷◌, Map, lookup, insert,
  delete, find, is_some, is_abs, join_path, if◌then◌else◌, ◌==◌, string_eq,
}
use dovik.Supervision.State.{is_active}
use dovik.Supervision.Registry.{
  ProjectDefinition, ProcessDefinition, RegisteredProject, RegisteredProcess, Registry,
}
use dovik.Supervision.Persister.{Persister, Fault}
use dovik.Supervision.Manager.{
  ProcessKey, key_eq, LifecycleError, project_not_found, project_id_required, root_relative,
  root_missing, root_not_directory, project_exists, project_not_empty, process_id_required,
  command_required, process_exists, directory_missing, directory_not_directory, process_active,
  persist_failed, Result, ok, err, Manager, find_process, persist,
}
use dovik.Supervision.Lifecycle.Start.{active_runtime}

-- `os.Stat(path)` and `info.IsDir()`: nothing, or whether the path is a directory.
abbrev pub Stat : Type 0
Stat = String → Option Bool

-- the error of a stat of a directory, if any
abbrev pub stat_error : Option Bool → LifecycleError → LifecycleError → Option LifecycleError
stat_error none missing other = some missing
stat_error (some true) missing other = none
stat_error (some false) missing other = some other

-- The copy that is handed out keeps the environment overrides back.
unfoldable pub public_process_definition : ProcessDefinition → ProcessDefinition
public_process_definition d = record d { environment_overrides = none }

-- The directory of a process relative to its project is checked as an absolute one.
unfoldable pub directory_error :
    Stat → RegisteredProject → ProcessDefinition → Option LifecycleError
directory_error stat project d =
    if d.working_directory == ""
    then none
    else stat_error
        (stat (
          if not (is_abs d.working_directory)
          then join_path project.definition.root_directory d.working_directory
          else d.working_directory))
        directory_missing directory_not_directory

-- The checks of `AddProject`, in order.
unfoldable pub project_error : Stat → Registry → ProjectDefinition → Option LifecycleError
project_error stat registry d =
    if d.id == ""
    then some project_id_required
    else if not (is_abs d.root_directory)
    then some root_relative
    else elim (stat_error (stat d.root_directory) root_missing root_not_directory) [
      | some e ↦ some e
      | none ↦ if is_some (find d.id registry.projects) then some project_exists else none
    ]

-- The checks of `AddProcess` on a project that is there, in order.
unfoldable pub process_error : Stat → RegisteredProject → ProcessDefinition → Option LifecycleError
unfolding directory_error
process_error stat project d =
    if d.id == ""
    then some process_id_required
    else if d.command == ""
    then some command_required
    else if is_some (find d.id project.processes)
    then some process_exists
    else directory_error stat project d

-- `projects[left].ID < projects[right].ID`
abbrev before : String → String → Bool
before a b = is_lt (compare a b)

unfoldable pub insert_project : ProjectDefinition → List ProjectDefinition → List ProjectDefinition
insert_project d [] = d ∷ []
insert_project d (x ∷ xs) = if before x.id d.id then x ∷ insert_project d xs else d ∷ x ∷ xs

unfoldable pub insert_process : ProcessDefinition → List ProcessDefinition → List ProcessDefinition
insert_process d [] = d ∷ []
insert_process d (x ∷ xs) = if before x.id d.id then x ∷ insert_process d xs else d ∷ x ∷ xs

-- The loop and the sort of `ListProjects`; nothing where a nil record would be dereferenced.
unfoldable pub project_list :
    Map String (Option RegisteredProject) → Option (List ProjectDefinition)
unfolding insert_project
project_list [] = some []
project_list ((id, none) ∷ m) = none
project_list ((id, some project) ∷ m) = map (insert_project project.definition) (project_list m)

unfoldable pub process_list :
    Map String (Option RegisteredProcess) → Option (List ProcessDefinition)
unfolding insert_process public_process_definition
process_list [] = some []
process_list ((id, none) ∷ m) = none
process_list ((id, some process) ∷ m) =
    map (insert_process (public_process_definition process.definition)) (process_list m)

module _ {P : Persister} where
  abbrev pub with_projects : Manager P → Map String (Option RegisteredProject) → Manager P
  with_projects m projects = record m { registry = record { projects = projects } }

  unfoldable pub add_project :
      Stat → Manager P → ProjectDefinition → Manager P × Result ProjectDefinition
  unfolding project_error persist
  add_project stat m d = elim (project_error stat m.registry d) [
    | some e ↦ (m, err e)
    | none ↦
        let added =
          insert d.id (some (record { definition = d; processes = [] })) m.registry.projects in
        let (m', fault) = persist (with_projects m added) in
        elim fault [
          | some f ↦ (with_projects m' (delete d.id added), err (persist_failed f))
          | none ↦ (m', ok d)
        ]
  ]

  unfoldable pub remove_project : Manager P → String → Manager P × Option LifecycleError
  unfolding persist
  remove_project m id = elim (find id m.registry.projects) [
    | none ↦ (m, some project_not_found)
    | some project ↦ elim project.processes [
      | p ∷ ps ↦ (m, some project_not_empty)
      | [] ↦
          let removed = delete id m.registry.projects in
          let (m', fault) = persist (with_projects m removed) in
          elim fault [
            | some f ↦
                (with_projects m' (insert id (some project) removed), some (persist_failed f))
            | none ↦ (m', none)
          ]
    ]
  ]

  unfoldable pub list_projects : Manager P → Option (List ProjectDefinition)
  unfolding project_list
  list_projects m = project_list m.registry.projects

  abbrev pub with_processes :
      Manager P → String → RegisteredProject → Map String (Option RegisteredProcess) → Manager P
  with_processes m id project processes =
      with_projects m
        (insert id (some (record project { processes = processes })) m.registry.projects)

  unfoldable pub add_process :
      Stat → Manager P → ProcessDefinition → Manager P × Result ProcessDefinition
  unfolding process_error persist public_process_definition
  add_process stat m d = elim (find d.project_id m.registry.projects) [
    | none ↦ (m, err project_not_found)
    | some project ↦ elim (process_error stat project d) [
      | some e ↦ (m, err e)
      | none ↦
          let added =
            insert d.id (some (record { definition = d; runtime = none })) project.processes in
          let (m', fault) = persist (with_processes m d.project_id project added) in
          elim fault [
            | some f ↦
                (with_processes m' d.project_id project (delete d.id added), err (persist_failed f))
            | none ↦ (m', ok (public_process_definition d))
          ]
    ]
  ]

  unfoldable pub remove_process : Manager P → ProcessKey → Manager P × Option LifecycleError
  unfolding find_process active_runtime persist
  remove_process m key = elim (find_process m.registry key) [
    | err e ↦ (m, some e)
    | ok (project, process) ↦ elim (active_runtime process) [
      | some r ↦ (m, some process_active)
      | none ↦
          let removed = delete key.process_id project.processes in
          let (m', fault) = persist (with_processes m key.project_id project removed) in
          elim fault [
            | some f ↦ (
              with_processes m' key.project_id project
                  (insert key.process_id (some process) removed),
              some (persist_failed f),
            )
            | none ↦ (record m' { outputs = delete key m'.outputs }, none)
          ]
    ]
  ]

  unfoldable pub list_processes : Manager P → String → Result (Option (List ProcessDefinition))
  unfolding process_list
  list_processes m id = elim (find id m.registry.projects) [
    | none ↦ err project_not_found
    | some project ↦ ok (process_list project.processes)
  ]

-- The requests that change the registry's definitions.
pub data Request : Type 0 where
  adds_project : ProjectDefinition → Request
  removes_project : String → Request
  adds_process : ProcessDefinition → Request
  removes_process : ProcessKey → Request

abbrev pub fault_of {ℓ} : {A : Type ℓ} → Result A → Option LifecycleError
fault_of (ok a) = none
fault_of (err e) = some e

abbrev pub request :
    {P : Persister} → Stat → Manager P → Request → Manager P × Option LifecycleError
request stat m (adds_project d) = let (m', r) = add_project stat m d in (m', fault_of r)
request stat m (removes_project id) = remove_project m id
request stat m (adds_process d) = let (m', r) = add_process stat m d in (m', fault_of r)
request stat m (removes_process key) = remove_process m key
