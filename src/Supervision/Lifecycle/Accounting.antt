-- ===== src/Supervision/Lifecycle/Accounting.antt =====
-- `Start` accounts for every process that it launches.
use dovik.Prelude.{
  ℕ, ℤ, ◌≡◌, ◌≢◌, refl, none, some, Option-cases, inl, inr, [], ◌∷◌, ◌++◌, insert, length, arith,
}
use dovik.Supervision.State.{ProcessState, running, ProcessRuntime, new_process_runtime, transition}
use dovik.Supervision.Output
use dovik.Supervision.Output.{OutputBuffer, new_output_buffer, OutputError}
use dovik.Supervision.Registry.{RegisteredProject, RegisteredProcess, Registry}
use dovik.Supervision.Persister.{Persister}
use dovik.Supervision.Manager
use dovik.Supervision.Manager.{
  ProcessKey, key_eq, Manager, ManagedRuntime, runtime_of, launched, killed, LifecycleError, ok,
  err, find_process, persist, set_runtime,
}
use dovik.Supervision.Lifecycle.Command.{new_command}
use dovik.Supervision.Lifecycle.Start.{
  StartInput, Reply, start, start_fresh, start_launch, start_running, fail_start,
  fail_running_process, own, active_runtime, resolve_directory,
}

transition-pid : (r : ProcessRuntime) (s : ProcessState) → (transition r s).0.pid ≡ r.pid
unfolding transition
transition-pid r s = ground arith

module _ {P : Persister} where
  -- What a `Start` from `m` did to the processes of the system: it launched none, or it launched one
  -- and killed it again, or it launched one and owns it.
  pub data Accounted (m : Manager P) (key : ProcessKey) (after : Manager P × Reply) : Type 0 where
    not_launched : after.0.effects ≡ m.effects → after.0.active ≡ m.active → Accounted m key after
    undone :
        (pid : ℤ)
        → after.0.effects ≡ (m.effects ++ launched pid ∷ []) ++ killed pid ∷ []
        → after.0.active ≡ m.active
        → after.1.1 ≢ none
        → Accounted m key after
    adopted :
        (pid : ℤ)
        → after.0.effects ≡ m.effects ++ launched pid ∷ []
        → after.0.active ≡ insert key (length m.runtimes) m.active
        → after.1.0.pid ≡ some pid
        → after.1.1 ≡ none
        → Accounted m key after

  fail_start-keeps :
      (m : Manager P) (key : ProcessKey) (process : RegisteredProcess) (r : ProcessRuntime) (at : ℕ)
      → let m' = (fail_start m key process r at).0 in
        (m'.effects ≡ m.effects) × (m'.active ≡ m.active)
  unfolding fail_start set_runtime persist
  fail_start-keeps m key process r at = ground arith

  start_running-Accounted :
      (m : Manager P) (key : ProcessKey) (process : RegisteredProcess) (r : ProcessRuntime)
      (output : OutputBuffer) (input : StartInput) (pid : ℤ)
      → Accounted m key (
          start_running
            (record m { effects = m.effects ++ launched pid ∷ [] })
            key
            process
            r
            output
            input
            pid)
  unfolding start_running set_runtime persist own fail_running_process
  start_running-Accounted m key process r output input pid =
      let noted = record r { pid = some pid; started_at = some input.started_at } in
      let r' = (transition noted running).0 in
      let m0 = record m { effects = m.effects ++ launched pid ∷ [] } in
      let m1 = set_runtime m0 key process r' in
      elim (Option-cases (transition noted running).1) [
        | inr (e, p) ↦
            let kept =
              fail_start-keeps (record m1 { effects = m1.effects ++ killed pid ∷ [] }) key process
                r' input.failed_at in
            undone pid (rw (p, start_running) kept.0) (rw (p, start_running) kept.1)
              (rw (p, start_running) (λ q. cc q))
        | inl p ↦ elim (Option-cases (persist m1).1) [
          | inr (f, q) ↦
              undone pid (rw (p, start_running) (rw q refl)) (rw (p, start_running) (rw q refl))
                (rw (p, start_running) (rw q (λ e. cc e)))
          | inl q ↦
              adopted pid (rw (p, start_running) (rw q refl)) (rw (p, start_running) (rw q refl))
                (rw (p, start_running) (rw q (transition-pid noted running)))
                (rw (p, start_running) (rw q refl))
        ]
      ]

  start_launch-Accounted :
      (m : Manager P) (key : ProcessKey) (project : RegisteredProject) (process : RegisteredProcess)
      (r : ProcessRuntime) (input : StartInput)
      → Accounted m key (start_launch m key project process r input)
  unfolding start_launch
  start_launch-Accounted m key project process r input =
      go (new_output_buffer m.output_byte_limit m.output_event_limit) refl
    where
      go :
          (made : Output.Result OutputBuffer)
          → new_output_buffer m.output_byte_limit m.output_event_limit ≡ made
          → Accounted m key (start_launch m key project process r input)
      go (Output.err e) p = not_launched (rw (p, start_launch) refl) (rw (p, start_launch) refl)
      go (Output.ok output) p =
          elim (Option-cases (
            input.launch
              (new_command input.inherited (resolve_directory project process.definition)))) [
                | inl q ↦
                    let kept = fail_start-keeps m key process r input.failed_at in
                    not_launched (rw (p, q, start_launch) kept.0) (rw (p, q, start_launch) kept.1)
                | inr (pid, q) ↦
                    rw (p, q, start_launch)
                      (start_running-Accounted m key process r output input pid)
              ]

  -- The registry and the store do not matter to the account.
  Accounted-saved :
      (m : Manager P) (key : ProcessKey) (registry : Registry) (disk : P.Disk)
      (after : Manager P × Reply)
      → Accounted (record m { registry = registry; disk = disk }) key after
      → Accounted m key after
  Accounted-saved m key registry disk after (not_launched e a) = not_launched e a
  Accounted-saved m key registry disk after (undone pid e a r) = undone pid e a r
  Accounted-saved m key registry disk after (adopted pid e a p r) = adopted pid e a p r

  start_fresh-Accounted :
      (m : Manager P) (key : ProcessKey) (project : RegisteredProject) (process : RegisteredProcess)
      (input : StartInput)
      → Accounted m key (start_fresh m key project process input)
  unfolding start_fresh persist set_runtime
  start_fresh-Accounted m key project process input = elim (Option-cases input.instance_id) [
    | inl p ↦ rw (p, start_fresh) (not_launched refl refl)
    | inr (id, p) ↦
        let r = new_process_runtime key.project_id key.process_id id in
        let saved = persist (set_runtime m key process r) in
        elim (Option-cases saved.1) [
          | inr (f, q) ↦ rw (p, start_fresh) (rw q (not_launched refl refl))
          | inl q ↦
              rw (p, start_fresh)
                (rw q (
                  Accounted-saved m key saved.0.registry saved.0.disk _
                    (start_launch-Accounted saved.0 key project process r input)))
        ]
  ]

  -- Whatever the registry, the store and the platform do, a `Start` launches no process and leaves
  -- `active` alone; or it launches one, kills that one again, leaves `active` alone and reports an
  -- error; or it launches one and reports no error, the runtime it returns has the PID, and `active`
  -- has a new managed runtime for the process. No process is launched and then lost.
  pub start-Accounted :
      (m : Manager P) (key : ProcessKey) (input : StartInput) → Accounted m key (start m key input)
  unfolding start
  start-Accounted m key input = go (find_process m.registry key) refl
    where
      go :
          (found : Manager.Result (RegisteredProject × RegisteredProcess))
          → find_process m.registry key ≡ found
          → Accounted m key (start m key input)
      go (err e) p = rw (p, start) (not_launched refl refl)
      go (ok (project, process)) p = elim (Option-cases (active_runtime process)) [
        | inr (r, q) ↦ rw (p, start) (rw q (not_launched refl refl))
        | inl q ↦ rw (p, start) (rw q (start_fresh-Accounted m key project process input))
      ]
