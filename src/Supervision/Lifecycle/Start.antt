-- ===== src/Supervision/Lifecycle/Start.antt =====
-- `Start`, with the errors of each of its steps.
use dovik.Prelude.{
  ℕ, ℤ, String, false, not, Option, none, some, List, [], ◌∷◌, ◌++◌, insert, length, is_abs,
  join_path, if◌then◌else◌, ◌==◌, string_eq,
}
use dovik.Supervision.State.{
  ProcessRuntime, zero_runtime, new_process_runtime, running, failed, is_active, transition,
}
use dovik.Supervision.Output
use dovik.Supervision.Output.{OutputBuffer, new_output_buffer}
use dovik.Supervision.Registry.{ProcessDefinition, RegisteredProcess, RegisteredProject}
use dovik.Supervision.Persister.{Persister}
use dovik.Supervision.Manager.{
  ProcessKey, key_eq, LifecycleError, transition_failed, persist_failed, no_instance_id,
  no_output_buffer, start_failed, joined, ok, err, launched, killed, Manager, find_process,
  set_process, persist, set_runtime,
}
use dovik.Supervision.Lifecycle.Command.{Command, new_command}

-- What the world answers during one `Start`: a fresh instance ID, the inherited environment, the
-- PID that a command gets if it can be launched, and the time at two places.
pub record StartInput : Type 0 where
  pub instance_id : Option String
  pub inherited : List String
  pub launch : Command → Option ℤ
  pub started_at : ℕ
  pub failed_at : ℕ

-- What `Start` and `Stop` return beside the manager.
abbrev pub Reply : Type 0
Reply = ProcessRuntime × Option LifecycleError

abbrev pub join_error : LifecycleError → Option LifecycleError → LifecycleError
join_error e none = e
join_error e (some f) = joined e f

-- The working directory of the command.
unfoldable pub resolve_directory : RegisteredProject → ProcessDefinition → ProcessDefinition
resolve_directory project definition =
    let root = project.definition.root_directory in
    if definition.working_directory == ""
    then record definition { working_directory = root }
    else if not (is_abs definition.working_directory)
    then record definition { working_directory = join_path root definition.working_directory }
    else definition

-- the runtime of a process that has one and whose state is active
unfoldable pub active_runtime : RegisteredProcess → Option ProcessRuntime
active_runtime process = elim process.runtime [
  | none ↦ none
  | some runtime ↦ if is_active runtime.state then some runtime else none
]

module _ {P : Persister} where
  -- `failStart`: a failed transition comes back before anything is saved.
  unfoldable pub fail_start :
      Manager P
      → ProcessKey
      → RegisteredProcess
      → ProcessRuntime
      → ℕ
      → Manager P × ProcessRuntime × Option LifecycleError
  unfolding set_runtime persist transition
  fail_start m key process runtime at =
      let noted = record runtime { finished_at = some at; termination_reason = "start-failed" } in
      let (runtime', error) = transition noted failed in
      let m1 = set_runtime m key process runtime' in
      elim error [
        | some e ↦ (m1, runtime', some (transition_failed e))
        | none ↦
            let (m2, fault) = persist m1 in
            (m2, runtime', elim fault [ none ↦ none | some f ↦ some (persist_failed f) ])
      ]

  -- `failRunningProcess` ignores the error of the transition and that of the save.
  unfoldable pub fail_running_process :
      Manager P → ProcessKey → RegisteredProcess → ProcessRuntime → ℕ → Manager P × ProcessRuntime
  unfolding set_runtime persist transition
  fail_running_process m key process runtime at =
      let noted = record runtime {
        finished_at = some at;
        termination_reason = "observation-failed";
      } in
      let (runtime', error) = transition noted failed in
      let (m', fault) = persist (set_runtime m key process runtime') in (m', runtime')

  -- The end of `Start`: the daemon owns the process, and a goroutine observes it.
  unfoldable pub own : Manager P → ProcessKey → String → ℤ → OutputBuffer → Manager P
  own m key instance_id pid output =
      let h = length m.runtimes in
      record m {
        runtimes =
            m.runtimes
            ++ (record {
              instance_id = instance_id;
              pid = pid;
              output = output;
              done = false;
              finish_error = none;
            })
              ∷ [];
        active = insert key h m.active;
        outputs = insert key h m.outputs;
        observers = (key, h) ∷ m.observers;
      }

  -- From the launched process on.
  unfoldable pub start_running :
      Manager P
      → ProcessKey
      → RegisteredProcess
      → ProcessRuntime
      → OutputBuffer
      → StartInput
      → ℤ
      → Manager P × Reply
  unfolding fail_start fail_running_process own
  start_running m key process runtime output input pid =
      let noted = record runtime { pid = some pid; started_at = some input.started_at } in
      let (runtime', error) = transition noted running in
      let m1 = set_runtime m key process runtime' in
      elim error [
        | some e ↦
            let (m2, failed', ignored) =
              fail_start (record m1 { effects = m1.effects ++ killed pid ∷ [] }) key process
                runtime' input.failed_at in
            (m2, (failed', some (transition_failed e)))
        | none ↦
            let (m2, fault) = persist m1 in
            elim fault [
              | some f ↦
                  let (m3, failed') =
                    fail_running_process (record m2 { effects = m2.effects ++ killed pid ∷ [] }) key
                      process runtime' input.failed_at in
                  (m3, (failed', some (persist_failed f)))
              | none ↦ (own m2 key runtime.instance_id pid output, (runtime', none))
            ]
      ]

  -- From the persisted `starting` runtime on.
  unfoldable pub start_launch :
      Manager P
      → ProcessKey
      → RegisteredProject
      → RegisteredProcess
      → ProcessRuntime
      → StartInput
      → Manager P × Reply
  unfolding start_running new_output_buffer resolve_directory new_command
  start_launch m key project process runtime input =
      elim (new_output_buffer m.output_byte_limit m.output_event_limit) [
        | Output.err e ↦ (m, (zero_runtime, some no_output_buffer))
        | Output.ok output ↦
            elim (input.launch
              (new_command input.inherited (resolve_directory project process.definition))) [
                | none ↦
                    let (m', runtime', error) = fail_start m key process runtime input.failed_at in
                    (m', (runtime', some (join_error start_failed error)))
                | some pid ↦
                    start_running (record m { effects = m.effects ++ launched pid ∷ [] }) key
                      process runtime output input pid
              ]
      ]

  unfoldable pub start_fresh :
      Manager P
      → ProcessKey
      → RegisteredProject
      → RegisteredProcess
      → StartInput
      → Manager P × Reply
  unfolding start_launch new_process_runtime
  start_fresh m key project process input = elim input.instance_id [
    | none ↦ (m, (zero_runtime, some no_instance_id))
    | some id ↦
        let runtime = new_process_runtime key.project_id key.process_id id in
        let (m', fault) = persist (set_runtime m key process runtime) in
        elim fault [
          | some f ↦ (
            record m' { registry = set_process m'.registry key process },
            (zero_runtime, some (persist_failed f)),
          )
          | none ↦ start_launch m' key project process runtime input
        ]
  ]

  unfoldable pub start : Manager P → ProcessKey → StartInput → Manager P × Reply
  unfolding start_fresh active_runtime find_process
  start m key input = elim (find_process m.registry key) [
    | err e ↦ (m, (zero_runtime, some e))
    | ok (project, process) ↦ elim (active_runtime process) [
      | some runtime ↦ (m, (runtime, none))
      | none ↦ start_fresh m key project process input
    ]
  ]
