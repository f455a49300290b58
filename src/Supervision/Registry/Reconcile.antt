-- ===== src/Supervision/Registry/Reconcile.antt =====
-- What `ReconcileAfterDaemonRestart` leaves behind.
use dovik.Prelude.{
  ℕ, String, ◌≡◌, refl, Bool, true, false, ◌||◌, Option, none, some, Option-cases, inl, inr, [],
  ◌∷◌, Map, All, if◌then◌else◌, arith,
}
use dovik.Supervision.State.{failed, ProcessRuntime, is_valid, is_active}
use dovik.Supervision.Registry.{
  RegisteredProcess, RegisteredProject, Registry, changed, daemon_restart_reason, reconcile_runtime,
  reconcile_process, reconcile_processes, reconcile_projects, reconcile_after_daemon_restart,
}

-- The reference: an interrupted runtime fails at time `at`; any other process stays as it is.
abbrev pub settle_runtime : ℕ → ProcessRuntime → ProcessRuntime
settle_runtime at runtime =
    if is_active runtime.state
    then record runtime {
      state = failed;
      finished_at = some at;
      termination_reason = daemon_restart_reason;
    }
    else runtime

abbrev pub settle_process : ℕ → RegisteredProcess → RegisteredProcess
settle_process at process = elim process.runtime [
  | none ↦ process
  | some runtime ↦ record process { runtime = some (settle_runtime at runtime) }
]

abbrev pub settle_processes :
    ℕ → Map String (Option RegisteredProcess) → Map String (Option RegisteredProcess)
settle_processes at [] = []
settle_processes at ((id, none) ∷ rest) = (id, none) ∷ settle_processes at rest
settle_processes at ((id, some process) ∷ rest) =
    (id, some (settle_process at process)) ∷ settle_processes at rest

abbrev pub settle_projects :
    ℕ → Map String (Option RegisteredProject) → Map String (Option RegisteredProject)
settle_projects at [] = []
settle_projects at ((id, none) ∷ rest) = (id, none) ∷ settle_projects at rest
settle_projects at ((id, some project) ∷ rest) =
    (id, some (record project { processes = settle_processes at project.processes }))
    ∷ settle_projects at rest

-- Every record is there, and every runtime is in a state of the model.
abbrev pub ProcessOk : String × Option RegisteredProcess → Type 0
ProcessOk (id, none) = ⊥
ProcessOk (id, some process) =
    (r : ProcessRuntime) → process.runtime ≡ some r → is_valid r.state ≡ true

abbrev pub ProjectOk : String × Option RegisteredProject → Type 0
ProjectOk (id, none) = ⊥
ProjectOk (id, some project) = All ProcessOk project.processes

-- whether a process has an active runtime
abbrev pub interrupted : RegisteredProcess → Bool
interrupted process = elim process.runtime [ none ↦ false | some r ↦ is_active r.state ]

abbrev pub any_process : Map String (Option RegisteredProcess) → Bool
any_process [] = false
any_process ((id, none) ∷ rest) = any_process rest
any_process ((id, some process) ∷ rest) = interrupted process || any_process rest

abbrev pub any_project : Map String (Option RegisteredProject) → Bool
any_project [] = false
any_project ((id, none) ∷ rest) = any_project rest
any_project ((id, some project) ∷ rest) = any_process project.processes || any_project rest

reconcile_runtime-settle :
    (at : ℕ) (id : String) (process : RegisteredProcess) (r : ProcessRuntime)
    → process.runtime ≡ some r
    → is_valid r.state ≡ true
    → reconcile_runtime at id process r
      ≡ (record process { runtime = some (settle_runtime at r) }, changed (is_active r.state))
unfolding reconcile_runtime
reconcile_runtime-settle at id process r e h = ground arith

reconcile_process-settle :
    (at : ℕ) (id : String) (process : RegisteredProcess)
    → ProcessOk (id, some process)
    → reconcile_process at id (some process)
      ≡ (some (settle_process at process), changed (interrupted process))
unfolding reconcile_process
reconcile_process-settle at id process h = elim (Option-cases process.runtime) [
  | inl idle ↦ ground arith
  | inr (r, e) ↦ rw (e, reconcile_runtime-settle at id process r e (h r e))
]

or_assoc : (a b c : Bool) → ((a || b) || c) ≡ (a || (b || c))
or_assoc true b c = refl
or_assoc false b c = refl

or_false : (a : Bool) → (a || false) ≡ a
or_false true = refl
or_false false = refl

reconcile_processes-settle :
    (at : ℕ) (seen : Bool) (m : Map String (Option RegisteredProcess))
    → All ProcessOk m
    → reconcile_processes at seen m ≡ (settle_processes at m, changed (seen || any_process m))
unfolding reconcile_processes
reconcile_processes-settle at seen [] h = rw or_false
reconcile_processes-settle at seen ((id, none) ∷ rest) h = absurd h.0
reconcile_processes-settle at seen ((id, some process) ∷ rest) h =
    rw
      (
        reconcile_process-settle at id process h.0,
        reconcile_processes-settle at (seen || interrupted process) rest h.1,
        or_assoc seen (interrupted process) (any_process rest),
        reconcile_processes,
      )
      (rw (reconcile_process-settle at id process h.0))

reconcile_projects-settle :
    (at : ℕ) (seen : Bool) (m : Map String (Option RegisteredProject))
    → All ProjectOk m
    → reconcile_projects at seen m ≡ (settle_projects at m, changed (seen || any_project m))
unfolding reconcile_projects
reconcile_projects-settle at seen [] h = rw or_false
reconcile_projects-settle at seen ((id, none) ∷ rest) h = absurd h.0
reconcile_projects-settle at seen ((id, some project) ∷ rest) h =
    rw
      (
        reconcile_processes-settle at seen project.processes h.0,
        reconcile_projects-settle at (seen || any_process project.processes) rest h.1,
        or_assoc seen (any_process project.processes) (any_project rest),
        reconcile_projects,
      )
      (rw (reconcile_processes-settle at seen project.processes h.0))

abbrev pub settled : ℕ → Registry → Registry
settled at registry = record { projects = settle_projects at registry.projects }

-- On a registry whose records are all there and whose runtimes are all in a state of the model,
-- the reconciliation succeeds: each active runtime becomes a failed one that finished at `at` for
-- the reason "daemon-restart", nothing else changes, and it reports a change exactly when some
-- runtime was active.
pub reconcile-settle :
    (registry : Registry) (at : ℕ)
    → All ProjectOk registry.projects
    → reconcile_after_daemon_restart registry at ≡ (
      record { projects = settle_projects at registry.projects },
      changed (any_project registry.projects),
    )
unfolding reconcile_after_daemon_restart
reconcile-settle registry at h = rw (reconcile_projects-settle at false registry.projects h)

settle_process-idle :
    (at : ℕ) (process : RegisteredProcess) → interrupted (settle_process at process) ≡ false
unfolding is_active
settle_process-idle at process = ground arith

settle_processes-idle :
    (at : ℕ) (m : Map String (Option RegisteredProcess))
    → any_process (settle_processes at m) ≡ false
settle_processes-idle at [] = refl
settle_processes-idle at ((id, none) ∷ rest) = settle_processes-idle at rest
settle_processes-idle at ((id, some process) ∷ rest) =
    rw (settle_process-idle at process) (settle_processes-idle at rest)

pub settle_projects-idle :
    (at : ℕ) (m : Map String (Option RegisteredProject))
    → any_project (settle_projects at m) ≡ false
settle_projects-idle at [] = refl
settle_projects-idle at ((id, none) ∷ rest) = settle_projects-idle at rest
settle_projects-idle at ((id, some project) ∷ rest) =
    rw (settle_processes-idle at project.processes) (settle_projects-idle at rest)
