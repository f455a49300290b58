-- ===== src/Control/Server.antt =====
-- internal/control/server.go: a request is checked, executed on the manager and answered.
-- The codec is that of encoding/json, a parameter; so are the identity service and, as for the
-- manager, what the world answers. A nil dereference or a negative length ends the daemon.
use dovik.Prelude.{
  String, Bool, true, false, not, Option, none, some, List, map, if◌then◌else◌, ◌==◌, string_eq,
}
use dovik.Supervision.Output
use dovik.Supervision.Output.{OutputError, OutputTail}
use dovik.Supervision.State.{ProcessRuntime}
use dovik.Supervision.Registry.{ProjectDefinition, ProcessDefinition}
use dovik.Supervision.Persister.{Persister}
use dovik.Supervision.Manager.{ProcessKey, LifecycleError, Result, ok, err, Manager, status, logs}
use dovik.Supervision.Lifecycle.Start.{StartInput, start}
use dovik.Supervision.Lifecycle.Stop.{Wait, stop, restart}
use dovik.Supervision.Operations.{
  Stat, add_project, remove_project, list_projects, add_process, remove_process, list_processes,
}
use dovik.Control.{
  is_protocol_version, protocol_version, Operation, identity_call, project_add, project_remove,
  project_list, process_add, process_remove, process_list, process_start, process_stop,
  process_restart, process_status, process_logs, Request, ErrorCode, incompatible_version,
  invalid_request, operation_failed, internal_error, Response, ProjectInput, ProjectReference,
  ProcessInput, ProcessReference, LogsInput, ProjectView, ProcessView, RuntimeView, StatusView,
  OutputTailView, project_to_view, process_to_view, runtime_to_view,
}

-- What `execute` returns as `any`; `identity_result` is the identity service's own.
pub data Value (Identity : Type 0) : Type 0 where
  nothing_more : Value Identity
  project_view : ProjectView → Value Identity
  project_views : List ProjectView → Value Identity
  process_view : ProcessView → Value Identity
  process_views : List ProcessView → Value Identity
  runtime_view : RuntimeView → Value Identity
  status_view : StatusView → Value Identity
  tail_view : OutputTailView → Value Identity
  identity_result : Identity → Value Identity

pub data ControlError : Type 0 where
  no_identities bad_identity_request bad_payload identity_failed not_supported : ControlError
  manager_failed : LifecycleError → ControlError
  output_failed : OutputError → ControlError

pub data Executed (Identity : Type 0) : Type 0 where
  gives : Value Identity → Executed Identity
  fails : ControlError → Executed Identity
  crashes : Executed Identity

-- `decodePayload` for the types of input, and `marshalResult`.
pub record Codec (Payload Identity Encoded : Type 0) : Type 0 where
  pub project_input : Payload → Option ProjectInput
  pub project_reference : Payload → Option ProjectReference
  pub process_input : Payload → Option ProcessInput
  pub process_reference : Payload → Option ProcessReference
  pub logs_input : Payload → Option LogsInput
  pub encode : Value Identity → Option Encoded

-- What the manager's operations are given during the request, and the identity service if there is
-- one: nothing where the request does not decode, else what its call returns.
pub record World (P : Persister) (Payload Identity : Type 0) : Type 0 where
  pub stat : Stat
  pub input : StartInput
  pub wait : Wait P
  pub identities : Option (Payload → Option (Option Identity))

abbrev pub key_of : ProcessReference → ProcessKey
key_of r = record { project_id = r.project_id; process_id = r.process_id }

abbrev pub project_of : ProjectInput → ProjectDefinition
project_of i = record { id = i.id; root_directory = i.root_directory }

abbrev pub definition_of : ProcessInput → ProcessDefinition
definition_of i = record {
  project_id = i.project_id;
  id = i.id;
  command = i.command;
  arguments = i.arguments;
  working_directory = i.working_directory;
  environment_overrides = i.environment_overrides;
}

abbrev pub respond :
    {Encoded : Type 0} → String → Option Encoded → Option ErrorCode → Response Encoded
respond id result error = record {
  version = protocol_version;
  id = id;
  result = result;
  error = error;
}

-- input, err := decode(payload); if err != nil { return nil, err }
abbrev pub decoded :
    {P : Persister} {Identity A : Type 0}
    → Option A
    → Manager P
    → (A → Manager P × Executed Identity)
    → Manager P × Executed Identity
decoded none m body = (m, fails bad_payload)
decoded (some input) m body = body input

module _ {Identity : Type 0} where
  abbrev pub from_error : Value Identity → Option LifecycleError → Executed Identity
  from_error value none = gives value
  from_error value (some e) = fails (manager_failed e)

  abbrev pub from_list :
      {A : Type 0} → (List A → Value Identity) → Option (List A) → Executed Identity
  from_list view none = crashes
  from_list view (some items) = gives (view items)

  abbrev pub from_tail : Output.Result OutputTail → Executed Identity
  from_tail (Output.ok t) =
      gives (tail_view (record { events = t.events; truncated = t.truncated }))
  from_tail (Output.err Output.panics) = crashes
  from_tail (Output.err e) = fails (output_failed e)

  abbrev pub from_status : ProcessRuntime × Bool × Option LifecycleError → Executed Identity
  from_status (r, exists, some e) = fails (manager_failed e)
  from_status (r, false, none) = gives (status_view (record { exists = false; runtime = none }))
  from_status (r, true, none) =
      gives (status_view (record { exists = true; runtime = some (runtime_to_view r) }))

  abbrev pub from_project : Result ProjectDefinition → Executed Identity
  from_project (ok d) = gives (project_view (project_to_view d))
  from_project (err e) = fails (manager_failed e)

  abbrev pub from_process : Result ProcessDefinition → Executed Identity
  from_process (ok d) = gives (process_view (process_to_view d))
  from_process (err e) = fails (manager_failed e)

  abbrev pub from_processes : Result (Option (List ProcessDefinition)) → Executed Identity
  from_processes (ok ds) = from_list (λ xs. process_views (map process_to_view xs)) ds
  from_processes (err e) = fails (manager_failed e)

  -- `identities.Call`
  abbrev pub from_identity :
      {Payload : Type 0} → Option (Payload → Option (Option Identity)) → Payload → Executed Identity
  from_identity none payload = fails no_identities
  from_identity (some call) payload = elim (call payload) [
    | none ↦ fails bad_identity_request
    | some none ↦ fails identity_failed
    | some (some result) ↦ gives (identity_result result)
  ]

-- the answer to what `execute` returned; nothing where the daemon ends
abbrev pub answer :
    {Payload Identity Encoded : Type 0}
    → Codec Payload Identity Encoded
    → String
    → Executed Identity
    → Option (Response Encoded)
answer codec id crashes = none
answer codec id (fails e) = some (respond id none (some operation_failed))
answer codec id (gives value) = elim (codec.encode value) [
  | none ↦ some (respond id none (some internal_error))
  | some result ↦ some (respond id (some result) none)
]

module _ {P : Persister} {Payload Identity Encoded : Type 0} where
  unfoldable pub execute :
      Codec Payload Identity Encoded
      → World P Payload Identity
      → Manager P
      → Operation
      → Payload
      → Manager P × Executed Identity
  unfolding add_project remove_project list_projects add_process remove_process list_processes
  execute codec world m identity_call payload = (m, from_identity world.identities payload)
  execute codec world m project_add payload =
      decoded (codec.project_input payload) m
        (λ i. let (m', reply) = add_project world.stat m (project_of i) in (m', from_project reply))
  execute codec world m project_remove payload =
      decoded (codec.project_reference payload) m (λ i.
        let (m', error) = remove_project m i.project_id in (m', from_error nothing_more error))
  execute codec world m project_list payload =
      (m, from_list (λ ds. project_views (map project_to_view ds)) (list_projects m))
  execute codec world m process_add payload = decoded (codec.process_input payload) m (λ i.
      let (m', reply) = add_process world.stat m (definition_of i) in (m', from_process reply))
  execute codec world m process_remove payload =
      decoded (codec.process_reference payload) m
        (λ i. let (m', error) = remove_process m (key_of i) in (m', from_error nothing_more error))
  execute codec world m process_list payload =
      decoded (codec.project_reference payload) m
        (λ i. (m, from_processes (list_processes m i.project_id)))
  execute codec world m process_start payload = decoded (codec.process_reference payload) m (λ i.
      let (m', reply) = start m (key_of i) world.input in
      (m', from_error (runtime_view (runtime_to_view reply.0)) reply.1))
  execute codec world m process_stop payload = decoded (codec.process_reference payload) m (λ i.
      let (m', reply) = stop m (key_of i) world.wait in
      (m', from_error (runtime_view (runtime_to_view reply.0)) reply.1))
  execute codec world m process_restart payload = decoded (codec.process_reference payload) m (λ i.
      let (m', reply) = restart m (key_of i) world.wait world.input in
      (m', from_error (runtime_view (runtime_to_view reply.0)) reply.1))
  execute codec world m process_status payload =
      decoded (codec.process_reference payload) m (λ i. (m, from_status (status m (key_of i))))
  execute codec world m process_logs payload = decoded (codec.logs_input payload) m (λ i. (
    m,
    from_tail (
        logs m (record { project_id = i.project_id; process_id = i.process_id }) i.after_sequence
          i.limit),
  ))
  execute codec world m operation payload = (m, fails not_supported)

  unfoldable pub handle_request :
      Codec Payload Identity Encoded
      → World P Payload Identity
      → Manager P
      → Request Payload
      → Manager P × Option (Response Encoded)
  unfolding execute
  handle_request codec world m request =
      if not (is_protocol_version request.version)
      then (m, some (respond request.id none (some incompatible_version)))
      else if request.id == ""
      then (m, some (respond request.id none (some invalid_request)))
      else (let (m', executed) = execute codec world m request.operation request.payload in
          (m', answer codec request.id executed))
