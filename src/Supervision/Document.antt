-- ===== src/Supervision/Document.antt =====
-- internal/supervision/registry_document.go: the registry as the document that is persisted.
-- `cloneStrings`, `cloneStringMap`, `cloneInt` and `cloneTime` copy a value: here a value is its own
-- copy. Paths are those of Unix.
use dovik.Prelude.{
  ℕ, ℤ, pos, negsuc, is_positive, String, Bool, true, false, ◌||◌, not, Option, none, some, List,
  [], ◌∷◌, Map, lookup, insert, find, keys, sort_strings, is_abs, ◌==◌, string_eq, is_some, nat_beq,
}
use dovik.Supervision.State.{ProcessState, ProcessRuntime, is_valid}
use dovik.Supervision.Registry.{RegisteredProcess, RegisteredProject, Registry}

pub record RuntimeDocument : Type 0 where
  pub instance_id : String
  pub pid : Option ℤ
  pub state : ProcessState
  pub started_at : Option ℕ
  pub finished_at : Option ℕ
  pub exit_code : Option ℤ
  pub termination_reason : String

pub record ProcessDocument : Type 0 where
  pub id : String
  pub command : String
  pub arguments : List String
  pub working_directory : String
  pub environment_overrides : Option (Map String String)
  pub runtime : Option RuntimeDocument

pub record ProjectDocument : Type 0 where
  pub id : String
  pub root_directory : String
  pub processes : List ProcessDocument

pub record RegistryDocument : Type 0 where
  pub version : ℤ
  pub projects : List ProjectDocument

abbrev pub registry_document_version : ℤ
registry_document_version = pos 1

abbrev pub is_document_version : ℤ → Bool
is_document_version (pos n) = nat_beq n 1
is_document_version (negsuc n) = false

pub data DocumentError : Type 0 where
  nil_registry invalid_project relative_root invalid_process empty_command : DocumentError
  invalid_runtime invalid_state invalid_pid : DocumentError
  unsupported_version empty_project_id duplicate_project : DocumentError
  empty_process_id duplicate_process : DocumentError

pub data Result {ℓ} (A : Type ℓ) : Type ℓ where
  ok : A → Result A
  err : DocumentError → Result A

-- if err != nil { return err }
infixl 5 ◌>>=◌ ◌>>◌
abbrev pub ◌>>=◌ {ℓ κ} : {A : Type ℓ} {B : Type κ} → Result A → (A → Result B) → Result B
err problem >>= next = err problem
ok value >>= next = next value

abbrev pub ◌>>◌ {ℓ} : {B : Type ℓ} → Result (Unit {0}) → Result B → Result B
err problem >> next = err problem
ok checked >> next = next

-- if test { return error }
abbrev pub fail_if : Bool → DocumentError → Result (Unit {0})
fail_if true e = err e
fail_if false e = ok tt

unfoldable pub runtime_to_document : Option ProcessRuntime → Option RuntimeDocument
runtime_to_document none = none
runtime_to_document (some r) = some (record {
  instance_id = r.instance_id;
  pid = r.pid;
  state = r.state;
  started_at = r.started_at;
  finished_at = r.finished_at;
  exit_code = r.exit_code;
  termination_reason = r.termination_reason;
})

unfoldable pub document_to_runtime :
    String → String → Option RuntimeDocument → Option ProcessRuntime
document_to_runtime project_id process_id none = none
document_to_runtime project_id process_id (some d) = some (record {
  project_id = project_id;
  process_id = process_id;
  instance_id = d.instance_id;
  pid = d.pid;
  state = d.state;
  started_at = d.started_at;
  finished_at = d.finished_at;
  exit_code = d.exit_code;
  termination_reason = d.termination_reason;
})

unfoldable pub validate_registered_project :
    String → Option RegisteredProject → Result RegisteredProject
validate_registered_project project_id none = err invalid_project
validate_registered_project project_id (some project) = do
  fail_if (project_id == "" || not (project.definition.id == project_id)) invalid_project
  fail_if (not (is_abs project.definition.root_directory)) relative_root
  ok project

-- runtime.PID != nil && *runtime.PID <= 0
abbrev pub has_bad_pid : Option ℤ → Bool
has_bad_pid none = false
has_bad_pid (some pid) = not (is_positive pid)

unfoldable pub validate_runtime : String → String → Option ProcessRuntime → Result (Unit {0})
validate_runtime project_id process_id none = ok tt
validate_runtime project_id process_id (some r) = do
  fail_if
      (not (r.project_id == project_id) || not (r.process_id == process_id) || r.instance_id == "")
      invalid_runtime
  fail_if (not (is_valid r.state)) invalid_state
  fail_if (has_bad_pid r.pid) invalid_pid

unfoldable pub validate_registered_process :
    String → String → Option RegisteredProcess → Result RegisteredProcess
unfolding validate_runtime
validate_registered_process project_id process_id none = err invalid_process
validate_registered_process project_id process_id (some process) = do
  fail_if
      (process_id == ""
        || not (process.definition.id == process_id)
        || not (process.definition.project_id == project_id))
      invalid_process
  fail_if (process.definition.command == "") empty_command
  validate_runtime project_id process_id process.runtime
  ok process

abbrev pub process_document : String → RegisteredProcess → ProcessDocument
process_document process_id process = record {
  id = process_id;
  command = process.definition.command;
  arguments = process.definition.arguments;
  working_directory = process.definition.working_directory;
  environment_overrides = process.definition.environment_overrides;
  runtime = runtime_to_document process.runtime;
}

-- The inner loop of `registryToDocument`, over the sorted process IDs.
unfoldable pub process_documents :
    String → Map String (Option RegisteredProcess) → List String → Result (List ProcessDocument)
unfolding validate_registered_process
process_documents project_id processes [] = ok []
process_documents project_id processes (process_id ∷ ids) = do
  process ← validate_registered_process project_id process_id (find process_id processes)
  rest ← process_documents project_id processes ids
  ok (process_document process_id process ∷ rest)

unfoldable pub project_documents :
    Map String (Option RegisteredProject) → List String → Result (List ProjectDocument)
unfolding validate_registered_project process_documents sort_strings
project_documents projects [] = ok []
project_documents projects (project_id ∷ ids) = do
  project ← validate_registered_project project_id (find project_id projects)
  processes ← process_documents project_id project.processes (sort_strings (keys project.processes))
  rest ← project_documents projects ids
  ok (
      record {
        id = project_id;
        root_directory = project.definition.root_directory;
        processes = processes;
      }
      ∷ rest)

unfoldable pub registry_to_document : Option Registry → Result RegistryDocument
unfolding project_documents
registry_to_document none = err nil_registry
registry_to_document (some registry) = do
  projects ← project_documents registry.projects (sort_strings (keys registry.projects))
  ok (record { version = registry_document_version; projects = projects })

abbrev pub process_of : String → ProcessDocument → RegisteredProcess
process_of project_id d = record {
  definition = record {
    project_id = project_id;
    id = d.id;
    command = d.command;
    arguments = d.arguments;
    working_directory = d.working_directory;
    environment_overrides = d.environment_overrides;
  };
  runtime = document_to_runtime project_id d.id d.runtime;
}

-- process.Runtime != nil && !process.Runtime.State.IsValid()
abbrev pub has_bad_state : Option ProcessRuntime → Bool
has_bad_state none = false
has_bad_state (some r) = not (is_valid r.state)

-- The inner loop of `documentToRegistry`; `known` is `project.Processes` so far.
unfoldable pub load_processes :
    String
    → Map String (Option RegisteredProcess)
    → List ProcessDocument
    → Result (Map String (Option RegisteredProcess))
unfolding document_to_runtime
load_processes project_id known [] = ok known
load_processes project_id known (d ∷ ds) = do
  fail_if (d.id == "") empty_process_id
  fail_if (d.command == "") empty_command
  fail_if (is_some (lookup d.id known)) duplicate_process
  fail_if (has_bad_state (process_of project_id d).runtime) invalid_state
  load_processes project_id (insert d.id (some (process_of project_id d)) known) ds

unfoldable pub load_projects :
    Map String (Option RegisteredProject)
    → List ProjectDocument
    → Result (Map String (Option RegisteredProject))
unfolding load_processes
load_projects known [] = ok known
load_projects known (d ∷ ds) = do
  fail_if (d.id == "") empty_project_id
  fail_if (not (is_abs d.root_directory)) relative_root
  fail_if (is_some (lookup d.id known)) duplicate_project
  processes ← load_processes d.id [] d.processes
  load_projects
      (insert d.id
        (some (record {
          definition = record { id = d.id; root_directory = d.root_directory };
          processes = processes;
        }))
        known)
      ds

unfoldable pub document_to_registry : RegistryDocument → Result Registry
unfolding load_projects
document_to_registry document = do
  fail_if (not (is_document_version document.version)) unsupported_version
  projects ← load_projects [] document.projects
  ok (record { projects = projects })
