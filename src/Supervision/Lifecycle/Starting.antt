-- ===== src/Supervision/Lifecycle/Starting.antt =====
-- `Start` keeps the invariant of ownership, on each of its paths.
use dovik.Prelude.{ℕ, ℤ, ◌≡◌, refl, sym, ap, ◌∙◌, Option, none, some, Option-cases, inl, inr, arith}
use dovik.Supervision.State.{
  ProcessState, starting, running, failed, ProcessRuntime, new_process_runtime, is_active,
}
use dovik.Supervision.State.Graph.{
  ◌⟶◌, started, start_failed, crashes, transition_error, transition_runtime,
}
use dovik.Supervision.Output.{OutputBuffer}
use dovik.Supervision.Registry.{RegisteredProject, RegisteredProcess}
use dovik.Supervision.Persister.{Persister}
use dovik.Supervision.Manager
use dovik.Supervision.Manager.{
  ProcessKey, key_eq, Manager, Effect, set_process, set_runtime, persist, ok, err, find_process,
}
use dovik.Supervision.Manager.Lookup.{process_at, runtime_in, find_process-some}
use dovik.Supervision.Lifecycle.Command.{new_command}
use dovik.Supervision.Lifecycle.Start.{
  StartInput, fail_start, fail_running_process, start_running, start_launch, start_fresh, start,
  active_runtime, resolve_directory,
}
use dovik.Supervision.Lifecycle.Ownership.{ActiveAt, IsOwned, OwnedBut-of_idle}
use dovik.Supervision.Lifecycle.Begun.{
  Starting, Starting-effects, Starting-idle, Starting-own, Starting-persist, Starting-process,
  Starting-set_runtime, idle_runtime, new_output_buffer_total,
}

module _ {P : Persister} (key : ProcessKey) where
  -- The process has failed: no entry of the maps is needed.
  Starting-failed :
      (m : Manager P) (r : ProcessRuntime)
      → Starting key m (some (record r { state = failed }))
      → IsOwned m
  unfolding is_active
  Starting-failed m r s = Starting-idle key m _ s (λ q e. ground arith)

  fail_start-IsOwned :
      (m : Manager P) (runtime : Option ProcessRuntime) (process : RegisteredProcess)
      (r : ProcessRuntime) (s : ProcessState) (at : ℕ)
      → Starting key m runtime
      → r.state ≡ s
      → s ⟶ failed
      → IsOwned (fail_start m key process r at).0
  unfolding fail_start
  fail_start-IsOwned m runtime process r s at st e edge =
      let noted = record r { finished_at = some at; termination_reason = "start-failed" } in
      rw
        (
          transition_error noted s failed e edge,
          transition_runtime noted s failed e edge,
          fail_start,
        )
        (Starting-failed _ noted (
          Starting-persist key _ _
            (Starting-set_runtime key m runtime process (record noted { state = failed }) st)))

  fail_running_process-IsOwned :
      (m : Manager P) (runtime : Option ProcessRuntime) (process : RegisteredProcess)
      (r : ProcessRuntime) (at : ℕ)
      → Starting key m runtime
      → r.state ≡ running
      → IsOwned (fail_running_process m key process r at).0
  unfolding fail_running_process
  fail_running_process-IsOwned m runtime process r at st e =
      let noted = record r { finished_at = some at; termination_reason = "observation-failed" } in
      rw (transition_runtime noted running failed e crashes, fail_running_process)
        (Starting-failed _ noted (
          Starting-persist key _ _
            (Starting-set_runtime key m runtime process (record noted { state = failed }) st)))

  start_running-IsOwned :
      (m : Manager P) (runtime : Option ProcessRuntime) (process : RegisteredProcess)
      (r : ProcessRuntime) (output : OutputBuffer) (input : StartInput) (pid : ℤ)
      → Starting key m runtime
      → r.state ≡ starting
      → IsOwned (start_running m key process r output input pid).0
  unfolding start_running
  start_running-IsOwned m runtime process r output input pid st e =
      let noted = record r { pid = some pid; started_at = some input.started_at } in
      let running' = record noted { state = running } in
      let m1 = set_runtime m key process running' in
      let s1 = Starting-persist key _ _ (Starting-set_runtime key m runtime process running' st) in
      rw
        (
          transition_error noted starting running e started,
          transition_runtime noted starting running e started,
          start_running,
        )
        (elim (Option-cases (persist m1).1) [
          | inl saved ↦ rw saved (
              rw (transition_runtime noted starting running e started)
                (Starting-own key _ running' pid output s1 refl))
          | inr (f, faulty) ↦ rw faulty (
              rw (transition_runtime noted starting running e started) (
                fail_running_process-IsOwned _ _ process running' input.failed_at
                  (Starting-effects key _ _ _ s1) refl))
        ])

  start_launch-IsOwned :
      (m : Manager P) (project : RegisteredProject) (process : RegisteredProcess)
      (r : ProcessRuntime) (input : StartInput)
      → Starting key m (some r)
      → r.state ≡ starting
      → IsOwned (start_launch m key project process r input).0
  unfolding start_launch
  start_launch-IsOwned m project process r input st e =
      let (output, fits) =
        new_output_buffer_total m.output_byte_limit m.output_event_limit st.bytes st.events in
      rw (fits, start_launch)
        (elim (Option-cases (
          input.launch
            (new_command input.inherited (resolve_directory project process.definition)))) [
              | inl refused ↦ rw refused (
                  fail_start-IsOwned m (some r) process r starting input.failed_at st e
                    start_failed)
              | inr (pid, launched) ↦ rw launched (
                  start_running-IsOwned _ (some r) process r output input pid
                    (Starting-effects key m (some r) _ st) e)
            ])

  start_fresh-IsOwned :
      (m : Manager P) (project : RegisteredProject) (process : RegisteredProcess)
      (input : StartInput)
      → Starting key m process.runtime
      → active_runtime process ≡ none
      → IsOwned (start_fresh m key project process input).0
  unfolding start_fresh
  start_fresh-IsOwned m project process input st idle = elim (Option-cases input.instance_id) [
    | inl missing ↦
        rw (missing, start_fresh)
          (Starting-idle key m process.runtime st (idle_runtime process idle))
    | inr (id, named) ↦
        let r = new_process_runtime key.project_id key.process_id id in
        let m1 = persist (set_runtime m key process r) in
        let s1 =
          Starting-persist key _ _ (Starting-set_runtime key m process.runtime process r st) in
        rw (named, start_fresh)
          (elim (Option-cases m1.1) [
            | inl saved ↦ rw saved (start_launch-IsOwned m1.0 project process r input s1 refl)
            | inr (f, faulty) ↦ rw faulty (
                Starting-idle key _ process.runtime (Starting-process key m1.0 (some r) process s1)
                  (idle_runtime process idle))
          ])
  ]

  not_active :
      (m : Manager P) (process : RegisteredProcess)
      → process_at m.registry key ≡ some process
      → active_runtime process ≡ none
      → ¬ ActiveAt m.registry key
  not_active m process there idle (r, at, active) =
      let p = idle_runtime process idle r (sym (ap runtime_in there) ∙ at) in cc

-- `Start` keeps the invariant of ownership, whatever the world answers and whichever save fails:
-- an active runtime is always one that the daemon observes, and it owns no other.
pub start-IsOwned :
    {P : Persister} (m : Manager P) (key : ProcessKey) (input : StartInput)
    → IsOwned m
    → IsOwned (start m key input).0
unfolding start
start-IsOwned m key input o = go (find_process m.registry key) refl
  where
    go :
        (found : Manager.Result (RegisteredProject × RegisteredProcess))
        → find_process m.registry key ≡ found
        → IsOwned (start m key input).0
    go (err e) missing = rw (missing, start) o
    go (ok (project, process)) found = elim (Option-cases (active_runtime process)) [
      | inr (r, active) ↦ rw (found, active, start) o
      | inl idle ↦
          let there = find_process-some m.registry key project process found in
          rw (found, idle, start)
            (start_fresh-IsOwned key m project process input
              (record {
                bytes = o.bytes;
                events = o.events;
                all =
                    OwnedBut-of_idle key m.registry m.active m.observers m.runtimes o.all
                      (not_active key m process there idle);
                process = process;
                there = there;
                now = refl;
              })
              idle)
    ]
