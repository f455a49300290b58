-- ===== src/Supervision/Manager.antt =====
-- `LifecycleManager` of internal/supervision/lifecycle.go: its state, and access to the registry.
-- The mutex makes each section under it one step. A `*managedRuntime`, which the maps `active` and
-- `outputs` and the observing goroutine share, is an index into `runtimes`.
pub mod Lookup
use text.Mathlib.TextEquality.{eq_iff}
use dovik.Prelude.{
  ℕ, zero, suc, ℤ, is_positive, String, ◌≡◌, ◌↔◌, arith, Bool, true, false, ◌&&◌, ◌||◌, not, Option,
  none, some, List, [], ◌∷◌, Map, lookup, insert, delete, find, Eq, ◌==◌, string_eq, if◌then◌else◌,
}
use dovik.Supervision.State.{ProcessRuntime, zero_runtime, TransitionError}
use dovik.Supervision.Output
use dovik.Supervision.Output.{OutputBuffer, OutputTail, tail}
use dovik.Supervision.Registry.{ProcessDefinition, RegisteredProcess, RegisteredProject, Registry}
use dovik.Supervision.Persister.{Persister, Fault}

pub record ProcessKey : Type 0 where
  pub project_id : String
  pub process_id : String

abbrev pub key_beq : ProcessKey → ProcessKey → Bool
key_beq a b = a.project_id == b.project_id && a.process_id == b.process_id

pub key_beq_iff : (a b : ProcessKey) → (key_beq a b ≡ true) ↔ (a ≡ b)
key_beq_iff a b = ground (arith, eq_iff a.project_id b.project_id, eq_iff a.process_id b.process_id)

instance abbrev pub key_eq : Eq ProcessKey
key_eq = record { beq = key_beq; beq_iff = key_beq_iff }

pub data LifecycleError : Type 0 where
  project_not_found process_not_found : LifecycleError
  project_id_required root_relative root_missing root_not_directory project_exists : LifecycleError
  project_not_empty process_id_required command_required process_exists : LifecycleError
  directory_missing directory_not_directory process_active : LifecycleError
  no_instance_id start_failed not_owned ownership_changed request_stop_failed : LifecycleError
  canceled no_output_buffer bad_limits nil_registry : LifecycleError
  persist_failed : Fault → LifecycleError
  transition_failed : TransitionError → LifecycleError
  -- errors.Join
  joined : LifecycleError → LifecycleError → LifecycleError

pub data Result {ℓ} (A : Type ℓ) : Type ℓ where
  ok : A → Result A
  err : LifecycleError → Result A

-- What the platform is asked to do to an owned process, named by its PID.
pub data Effect : Type 0 where
  launched requested_stop killed : ℤ → Effect

pub record ManagedRuntime : Type 0 where
  pub instance_id : String
  pub pid : ℤ
  pub output : OutputBuffer
  pub done : Bool
  pub finish_error : Option LifecycleError

module _ (P : Persister) where
  open P use {Disk}

  -- `observers` are the goroutines of `observeExit` that still wait.
  pub record Manager : Type 0 where
    pub registry : Registry
    pub disk : Disk
    pub active : Map ProcessKey ℕ
    pub outputs : Map ProcessKey ℕ
    pub runtimes : List ManagedRuntime
    pub observers : Map ProcessKey ℕ
    pub output_byte_limit : ℤ
    pub output_event_limit : ℤ
    pub effects : List Effect

-- A read through a `*managedRuntime`.
abbrev pub runtime_of : List ManagedRuntime → ℕ → Option ManagedRuntime
runtime_of [] h = none
runtime_of (r ∷ rs) zero = some r
runtime_of (r ∷ rs) (suc h) = runtime_of rs h

unfoldable pub find_process : Registry → ProcessKey → Result (RegisteredProject × RegisteredProcess)
find_process registry key = elim (find key.project_id registry.projects) [
  | none ↦ err project_not_found
  | some project ↦ elim (find key.process_id project.processes) [
    | none ↦ err process_not_found
    | some process ↦ ok (project, process)
  ]
]

-- A write through the `*RegisteredProcess` that `findProcess` returned.
unfoldable pub set_process : Registry → ProcessKey → RegisteredProcess → Registry
set_process registry key process = elim (find key.project_id registry.projects) [
  | none ↦ registry
  | some project ↦ record {
    projects =
        insert key.project_id
          (some
            (record project { processes = insert key.process_id (some process) project.processes }))
          registry.projects;
  }
]

module _ {P : Persister} where
  open P use {save}

  -- manager.persister.Save(manager.registry)
  unfoldable pub persist : Manager P → Manager P × Option Fault
  persist m = let (disk', fault) = save m.disk m.registry in (record m { disk = disk' }, fault)

  -- process.Runtime = &runtime
  unfoldable pub set_runtime :
      Manager P → ProcessKey → RegisteredProcess → ProcessRuntime → Manager P
  unfolding set_process
  set_runtime m key process runtime = record m {
    registry = set_process m.registry key (record process { runtime = some runtime });
  }

  -- `cloneRuntime` copies; a value is its own copy.
  unfoldable pub status : Manager P → ProcessKey → ProcessRuntime × Bool × Option LifecycleError
  unfolding find_process
  status m key = elim (find_process m.registry key) [
    | err e ↦ (zero_runtime, false, some e)
    | ok (project, process) ↦ elim process.runtime [
      | none ↦ (zero_runtime, false, none)
      | some runtime ↦ (runtime, true, none)
    ]
  ]

  unfoldable pub logs : Manager P → ProcessKey → ℕ → ℤ → Output.Result OutputTail
  unfolding tail
  logs m key after limit = elim (lookup key m.outputs) [
    | none ↦ Output.ok (record { events = []; truncated = false })
    | some h ↦ elim (runtime_of m.runtimes h) [
      | none ↦ Output.ok (record { events = []; truncated = false })
      | some managed ↦ tail managed.output after limit
    ]
  ]

-- A nil persister is left out: the section has one.
unfoldable pub new_lifecycle_manager :
    {P : Persister} → Option Registry → P.Disk → ℤ → ℤ → Result (Manager P)
new_lifecycle_manager none disk byte_limit event_limit = err nil_registry
new_lifecycle_manager (some registry) disk byte_limit event_limit =
    if not (is_positive byte_limit) || not (is_positive event_limit)
    then err bad_limits
    else ok (record {
      registry = registry;
      disk = disk;
      active = [];
      outputs = [];
      runtimes = [];
      observers = [];
      output_byte_limit = byte_limit;
      output_event_limit = event_limit;
      effects = [];
    })
