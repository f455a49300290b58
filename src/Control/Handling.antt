-- ===== src/Control/Handling.antt =====
-- What a client may rely on, and what it cannot break, whatever it sends.
use dovik.Prelude.{
  String, ◌≡◌, refl, Bool, true, false, not, Option, none, some, Option-cases, Bool-cases, inl, inr,
  ◌||◌, ◌==◌, string_eq, is_none, is_some, arith,
}
use dovik.Supervision.Persister.{Persister}
use dovik.Supervision.Manager.{Manager}
use dovik.Supervision.Lifecycle.Ownership.{IsOwned}
use dovik.Supervision.Lifecycle.Starting.{start-IsOwned}
use dovik.Supervision.Lifecycle.Halting.{KeepsOwned, stop-IsOwned, restart-IsOwned}
use dovik.Supervision.Operations.{adds_project, removes_project, adds_process, removes_process}
use dovik.Supervision.Operations.Keeping.{request-IsOwned}
use dovik.Control.{
  protocol_version, is_protocol_version, Operation, identity_call, gh_execute, agent_run,
  project_add, project_remove, project_list, process_add, process_remove, process_list,
  process_start, process_stop, process_restart, process_status, process_logs, unsupported, Request,
  Response,
}
use dovik.Control.Server.{
  Codec, World, Executed, gives, fails, crashes, decoded, key_of, project_of, definition_of, answer,
  execute, handle_request,
}

decoded-IsOwned :
    {P : Persister} {Identity A : Type 0} (input : Option A) (m : Manager P)
    (body : A → Manager P × Executed Identity)
    → IsOwned m
    → ((a : A) → IsOwned (body a).0)
    → IsOwned (decoded input m body).0
decoded-IsOwned none m body o keeps = o
decoded-IsOwned (some a) m body o keeps = keeps a

-- the operations that only read
abbrev pub is_read : Operation → Bool
is_read project_list = true
is_read process_list = true
is_read process_status = true
is_read process_logs = true
is_read identity_call = true
is_read gh_execute = true
is_read agent_run = true
is_read (unsupported text) = true
is_read _ = false

decoded-same :
    {P : Persister} {Identity A : Type 0} (input : Option A) (m : Manager P)
    (reply : A → Executed Identity)
    → (decoded input m (λ i. (m, reply i))).0 ≡ m
decoded-same none m reply = refl
decoded-same (some a) m reply = refl

answer_lem :
    {Payload Identity Encoded : Type 0} (codec : Codec Payload Identity Encoded) (id : String)
    (executed : Executed Identity) (r : Response Encoded)
    → answer codec id executed ≡ some r
    → (r.version ≡ protocol_version) × (r.id ≡ id) × (is_some r.result ≡ is_none r.error)
answer_lem codec id crashes r h = absurd (cc h)
answer_lem codec id (fails e) r h = ground (arith, h)
answer_lem codec id (gives value) r h = elim (Option-cases (codec.encode value)) [
  | inl e ↦ ground (arith, e, h)
  | inr (x, e) ↦ ground (arith, e, h)
]

module _ {P : Persister} {Payload Identity Encoded : Type 0}
    (codec : Codec Payload Identity Encoded) (world : World P Payload Identity)
    (m : Manager P) where
  execute-IsOwned :
      (operation : Operation) (payload : Payload)
      → KeepsOwned world.wait
      → IsOwned m
      → IsOwned (execute codec world m operation payload).0
  unfolding execute
  execute-IsOwned identity_call payload keeps o = o
  execute-IsOwned gh_execute payload keeps o = o
  execute-IsOwned agent_run payload keeps o = o
  execute-IsOwned project_add payload keeps o =
      decoded-IsOwned (codec.project_input payload) m _ o
        (λ i. request-IsOwned world.stat m (adds_project (project_of i)) o)
  execute-IsOwned project_remove payload keeps o =
      decoded-IsOwned (codec.project_reference payload) m _ o
        (λ i. request-IsOwned world.stat m (removes_project i.project_id) o)
  execute-IsOwned project_list payload keeps o = o
  execute-IsOwned process_add payload keeps o =
      decoded-IsOwned (codec.process_input payload) m _ o
        (λ i. request-IsOwned world.stat m (adds_process (definition_of i)) o)
  execute-IsOwned process_remove payload keeps o =
      decoded-IsOwned (codec.process_reference payload) m _ o
        (λ i. request-IsOwned world.stat m (removes_process (key_of i)) o)
  execute-IsOwned process_list payload keeps o =
      decoded-IsOwned (codec.project_reference payload) m _ o (λ i. o)
  execute-IsOwned process_start payload keeps o =
      decoded-IsOwned (codec.process_reference payload) m _ o
        (λ i. start-IsOwned m (key_of i) world.input o)
  execute-IsOwned process_stop payload keeps o =
      decoded-IsOwned (codec.process_reference payload) m _ o
        (λ i. stop-IsOwned m (key_of i) world.wait keeps o)
  execute-IsOwned process_restart payload keeps o =
      decoded-IsOwned (codec.process_reference payload) m _ o
        (λ i. restart-IsOwned m (key_of i) world.wait world.input keeps o)
  execute-IsOwned process_status payload keeps o =
      decoded-IsOwned (codec.process_reference payload) m _ o (λ i. o)
  execute-IsOwned process_logs payload keeps o =
      decoded-IsOwned (codec.logs_input payload) m _ o (λ i. o)
  execute-IsOwned (unsupported text) payload keeps o = o

  execute-reads :
      (operation : Operation) (payload : Payload)
      → is_read operation ≡ true
      → (execute codec world m operation payload).0 ≡ m
  unfolding execute
  execute-reads project_list payload h = refl
  execute-reads process_list payload h = decoded-same (codec.project_reference payload) m _
  execute-reads process_status payload h = decoded-same (codec.process_reference payload) m _
  execute-reads process_logs payload h = decoded-same (codec.logs_input payload) m _
  execute-reads identity_call payload h = refl
  execute-reads gh_execute payload h = refl
  execute-reads agent_run payload h = refl
  execute-reads (unsupported text) payload h = refl
  execute-reads operation payload h = cc

  -- Whatever a client sends, decodable or not, a request keeps the invariant of ownership, provided
  -- that what goes on while a stop waits keeps it.
  pub handle_request-IsOwned :
      (request : Request Payload)
      → KeepsOwned world.wait
      → IsOwned m
      → IsOwned (handle_request codec world m request).0
  unfolding handle_request
  handle_request-IsOwned request keeps o = elim (Bool-cases (is_protocol_version request.version)) [
    | inr old ↦ rw (old, handle_request) o
    | inl good ↦ elim (Bool-cases (request.id == "")) [
      | inl empty ↦ rw (good, empty, handle_request) o
      | inr named ↦
          rw (good, named, handle_request)
            (execute-IsOwned request.operation request.payload keeps o)
    ]
  ]

  -- A request leaves the manager as it was if its version is not the protocol's, if it has no ID, or
  -- if its operation only reads.
  pub handle_request-same :
      (request : Request Payload)
      → (not (is_protocol_version request.version) || request.id == "" || is_read request.operation)
        ≡ true
      → (handle_request codec world m request).0 ≡ m
  unfolding handle_request
  handle_request-same request h = elim (Bool-cases (is_protocol_version request.version)) [
    | inr old ↦ rw (old, handle_request) refl
    | inl good ↦ elim (Bool-cases (request.id == "")) [
      | inl empty ↦ rw (good, empty, handle_request) refl
      | inr named ↦
          rw (good, named, handle_request)
            (execute-reads request.operation request.payload (ground (arith, good, named, h)))
    ]
  ]

  -- Every response is of the protocol's version, repeats the ID of its request, and has either a
  -- result or an error, and not both.
  pub handle_request_lem :
      (request : Request Payload) (r : Response Encoded)
      → (handle_request codec world m request).1 ≡ some r
      → (r.version ≡ protocol_version) × (r.id ≡ request.id) × (is_some r.result ≡ is_none r.error)
  unfolding handle_request
  handle_request_lem request r h = elim (Bool-cases (is_protocol_version request.version)) [
    | inr old ↦ ground (arith, old, h)
    | inl good ↦ elim (Bool-cases (request.id == "")) [
      | inl empty ↦ ground (arith, good, empty, h)
      | inr named ↦
          answer_lem codec request.id (execute codec world m request.operation request.payload).1 r
            (rw (good, named, handle_request) at h)
    ]
  ]
