-- ===== src/Supervision/Registry/Repeat.antt =====
-- Reconciling a second time.
use dovik.Prelude.{
  ℕ, String, ◌≡◌, refl, ap, ◌∙◌, false, Option, none, some, Option-cases, inl, inr, [], ◌∷◌, Map,
  All, arith,
}
use dovik.Supervision.State.{is_valid, is_active}
use dovik.Supervision.Registry.{
  RegisteredProcess, RegisteredProject, Registry, changed, reconcile_after_daemon_restart,
}
use dovik.Supervision.Registry.Reconcile.{
  settle_process, settle_processes, settle_projects, settled, ProcessOk, ProjectOk,
  reconcile-settle, settle_projects-idle,
}

settle_process-Ok :
    (at : ℕ) (id : String) (process : RegisteredProcess)
    → ProcessOk (id, some process)
    → ProcessOk (id, some (settle_process at process))
unfolding is_active is_valid
settle_process-Ok at id process h r e = elim (Option-cases process.runtime) [
  | inl idle ↦ ground arith
  | inr (q, i) ↦ ground (arith, h q i)
]

settle_processes-Ok :
    (at : ℕ) (m : Map String (Option RegisteredProcess))
    → All ProcessOk m
    → All ProcessOk (settle_processes at m)
settle_processes-Ok at [] h = tt
settle_processes-Ok at ((id, none) ∷ rest) h = (h.0, settle_processes-Ok at rest h.1)
settle_processes-Ok at ((id, some process) ∷ rest) h =
    (settle_process-Ok at id process h.0, settle_processes-Ok at rest h.1)

settle_projects-Ok :
    (at : ℕ) (m : Map String (Option RegisteredProject))
    → All ProjectOk m
    → All ProjectOk (settle_projects at m)
settle_projects-Ok at [] h = tt
settle_projects-Ok at ((id, none) ∷ rest) h = (h.0, settle_projects-Ok at rest h.1)
settle_projects-Ok at ((id, some project) ∷ rest) h =
    (settle_processes-Ok at project.processes h.0, settle_projects-Ok at rest h.1)

settle_process-twice :
    (at later : ℕ) (process : RegisteredProcess)
    → settle_process later (settle_process at process) ≡ settle_process at process
unfolding is_active
settle_process-twice at later process = ground arith

settle_processes-twice :
    (at later : ℕ) (m : Map String (Option RegisteredProcess))
    → settle_processes later (settle_processes at m) ≡ settle_processes at m
settle_processes-twice at later [] = refl
settle_processes-twice at later ((id, none) ∷ rest) =
    ap (◌∷◌ (id, none)) (settle_processes-twice at later rest)
settle_processes-twice at later ((id, some process) ∷ rest) =
    rw (settle_process-twice at later process, settle_processes-twice at later rest)

settle_projects-twice :
    (at later : ℕ) (m : Map String (Option RegisteredProject))
    → settle_projects later (settle_projects at m) ≡ settle_projects at m
settle_projects-twice at later [] = refl
settle_projects-twice at later ((id, none) ∷ rest) =
    ap (◌∷◌ (id, none)) (settle_projects-twice at later rest)
settle_projects-twice at later ((id, some project) ∷ rest) =
    rw (settle_processes-twice at later project.processes, settle_projects-twice at later rest)

-- On a registry whose records are all there and whose runtimes are all in a state of the model the
-- pass is idempotent: a second one, at any time, changes nothing and says so.
pub reconcile_twice :
    (registry : Registry) (at later : ℕ)
    → All ProjectOk registry.projects
    → let once = (reconcile_after_daemon_restart registry at).0 in
      reconcile_after_daemon_restart once later ≡ (once, changed false)
reconcile_twice registry at later h = rw (reconcile-settle registry at h) (
    reconcile-settle (settled at registry) later (settle_projects-Ok at registry.projects h)
    ∙ rw (settle_projects-twice at later registry.projects, settle_projects-idle))
