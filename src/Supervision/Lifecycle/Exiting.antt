-- ===== src/Supervision/Lifecycle/Exiting.antt =====
-- `observeExit` keeps the invariant of ownership, and always finds the runtime that it observes.
use dovik.Prelude.{
  ℕ, zero, suc, ℤ, pos, negsuc, String, ◌≢◌, ◌≡◌, refl, sym, ap, ◌∙◌, true, false, Option, none,
  some, Option-cases, Bool-cases, inl, inr, lookup, delete, lookup-delete_self, string_eq, is_zero,
  ==_iff, arith,
}
use dovik.Supervision.State.{
  ProcessState, running, stopping, failed, stopped, exited, ProcessRuntime, is_active, is_terminal,
}
use dovik.Supervision.State.Graph.{
  ◌⟶◌, exits, crashes, stops, stop_failed, transition_error, transition_runtime,
}
use dovik.Supervision.Registry.{RegisteredProcess}
use dovik.Supervision.Persister.{Persister}
use dovik.Supervision.Manager.{
  ProcessKey, key_eq, Manager, LifecycleError, set_process, set_runtime, persist, status,
}
use dovik.Supervision.Manager.Lookup.{
  process_at, runtime_in, process_at-set_self, process_at-found, status-found, found-status,
}
use dovik.Supervision.Lifecycle.Exit.{
  WaitError, ProcessExit, exit_target, exit_runtime, settle_exit, finish, observe_exit,
}
use dovik.Supervision.Lifecycle.Ownership.{is_live, ActiveAt, IsOwned, Tracks}
use dovik.Supervision.Lifecycle.Adopt.{Owned-exit}

-- Whatever the exit, it is an edge of the diagram from the state of an owned runtime.
exit_edge : (exit : ProcessExit) (s : ProcessState) → is_live s ≡ true → s ⟶ (exit_target exit s).0
unfolding exit_target
exit_edge exit running live = elim (Option-cases exit.error) [
  | inr (e, bad) ↦ rw (bad, exit_target) crashes
  | inl clean ↦ elim (Bool-cases (is_zero exit.code)) [
    | inl no_failure ↦ rw (clean, no_failure, exit_target) exits
    | inr other ↦ rw (clean, other, exit_target) crashes
  ]
]
exit_edge exit stopping live = elim (Option-cases exit.error) [
  | inr (e, bad) ↦ rw (bad, exit_target) stop_failed
  | inl clean ↦ rw (clean, exit_target) stops
]
exit_edge exit s live = cc

exit_target-inactive :
    (exit : ProcessExit) (s : ProcessState) → is_active (exit_target exit s).0 ≡ false
unfolding exit_target is_active
exit_target-inactive exit s = ground arith

-- The runtime that the exit of a process leaves.
abbrev pub exited_runtime : ProcessExit → ℕ → ProcessRuntime → ProcessRuntime
exited_runtime exit now runtime = record (exit_runtime exit now runtime) {
  state = (exit_target exit runtime.state).0;
}

pub tracked_process :
    (o : Option RegisteredProcess) (r : ProcessRuntime)
    → runtime_in o ≡ some r
    → (process : RegisteredProcess) × (o ≡ some process) × (process.runtime ≡ some r)
tracked_process none r e = absurd (cc e)
tracked_process (some process) r e = (process, refl, e)

module _ {P : Persister} where
  settle_exit-eq :
      (m : Manager P) (key : ProcessKey) (process : RegisteredProcess) (r : ProcessRuntime)
      (exit : ProcessExit) (now : ℕ)
      → is_live r.state ≡ true
      → let (m', failure) = settle_exit m key process r exit now in
        m' ≡ record (persist (set_runtime m key process (exited_runtime exit now r))).0 {
          active = delete key m.active;
        }
  unfolding settle_exit
  settle_exit-eq m key process r exit now live =
      let edge = exit_edge exit r.state live in
      let noted = exit_runtime exit now r in
      let next = (exit_target exit r.state).0 in
      rw (transition_error noted r.state next refl edge, settle_exit)
        (rw (transition_runtime noted r.state next refl edge))

  -- `observeExit` finds the process and its runtime: no error of ownership is possible.
  observe_exit-eq :
      (m : Manager P) (key : ProcessKey) (h : ℕ) (exit : ProcessExit) (now : ℕ)
      (process : RegisteredProcess) (t : Tracks m.registry m.runtimes key h)
      → process_at m.registry key ≡ some process
      → process.runtime ≡ some t.runtime
      → let (m', failure) = settle_exit m key process t.runtime exit now in
        observe_exit m key h exit now ≡ finish m' h failure
  unfolding observe_exit
  observe_exit-eq m key h exit now process t there has =
      let (project, found) = process_at-found m.registry key process there in
      rw (
        found,
        has,
        t.at,
        (==_iff t.runtime.instance_id t.managed.instance_id).1 t.same,
        observe_exit,
      )

  exited-idle :
      (m : Manager P) (key : ProcessKey) (old process : RegisteredProcess) (exit : ProcessExit)
      (now : ℕ) (r : ProcessRuntime)
      → process_at m.registry key ≡ some old
      → ¬ ActiveAt
          (set_process m.registry key
            (record process { runtime = some (exited_runtime exit now r) }))
          key
  exited-idle m key old process exit now r there (q, at, active) =
      let self =
        process_at-set_self m.registry key old
          (record process { runtime = some (exited_runtime exit now r) }) there in
      let same : exited_runtime exit now r ≡ q = cc (ap runtime_in self) in
      cc (exit_target-inactive exit r.state, same)

  finished-IsOwned :
      (m : Manager P) (key : ProcessKey) (h : ℕ) (process : RegisteredProcess) (exit : ProcessExit)
      (now : ℕ) (r : ProcessRuntime) (failure : Option LifecycleError)
      → IsOwned m
      → lookup key m.active ≡ some h
      → process_at m.registry key ≡ some process
      → IsOwned (
          finish
            (record (persist (
              set_runtime
                (record m { observers = delete key m.observers })
                key
                process
                (exited_runtime exit now r))).0 { active = delete key m.active })
            h
            failure)
  unfolding finish persist set_runtime
  finished-IsOwned m key h process exit now r failure o here there = record {
    bytes = o.bytes;
    events = o.events;
    all =
        Owned-exit key m.registry m.active m.observers m.runtimes h process _ failure o.all here
          there (exited-idle m key process process exit now r there);
  }

-- When the goroutine that observes a process takes the lock after the process has exited, the
-- invariant of ownership holds again once it is through: the process is no longer active, nobody
-- observes it, and every other process is owned as before.
pub observe_exit-IsOwned :
    {P : Persister} (m : Manager P) (key : ProcessKey) (h : ℕ) (exit : ProcessExit) (now : ℕ)
    → IsOwned m
    → lookup key m.observers ≡ some h
    → IsOwned (observe_exit (record m { observers = delete key m.observers }) key h exit now)
observe_exit-IsOwned m key h exit now o observing =
    let here = sym (o.all.observed key) ∙ observing in
    let t = o.all.tracks key h here in
    let (process, there, has) = tracked_process (process_at m.registry key) t.runtime t.found in
    let m0 = record m { observers = delete key m.observers } in
    rw
      (
        observe_exit-eq m0 key h exit now process t there has,
        settle_exit-eq m0 key process t.runtime exit now t.live,
      )
      (finished-IsOwned m key h process exit now t.runtime _ o here there)

module _ {P : Persister} (m : Manager P) (key : ProcessKey) (h : ℕ) (process : RegisteredProcess)
    (exit : ProcessExit) (now : ℕ) (r : ProcessRuntime) (failure : Option LifecycleError) where
  abbrev finished_manager : Manager P
  finished_manager =
      finish
        (record (persist (set_runtime m key process (exited_runtime exit now r))).0 {
          active = delete key m.active;
        })
        h failure

  finished-status :
      process_at m.registry key ≡ some process
      → status finished_manager key ≡ (exited_runtime exit now r, true, none)
  unfolding finish persist set_runtime
  finished-status there = status-found finished_manager key (exited_runtime exit now r) (
      ap runtime_in (
        process_at-set_self m.registry key process
          (record process { runtime = some (exited_runtime exit now r) }) there))

  finished-active : lookup key finished_manager.active ≡ none
  unfolding finish persist set_runtime
  finished-active = lookup-delete_self key m.active

exit_target-is_terminal :
    (exit : ProcessExit) (s : ProcessState) → is_terminal (exit_target exit s).0 ≡ true
unfolding exit_target is_terminal
exit_target-is_terminal exit s = ground arith

-- What becomes of an owned process, by its state before and by how it ended: an exit that could not
-- be observed is a failure; one that was asked for is a stop; one that was not is an end by itself,
-- which fails if the code is not 0.
pub data EndsAs : Option WaitError → ℤ → ProcessState → ProcessState → String → Type 0 where
  unobserved :
      (before : ProcessState) (e : WaitError) (code : ℤ)
      → EndsAs (some e) code before failed "observation-failed"
  requested : (code : ℤ) → EndsAs none code stopping stopped "requested-stop"
  natural : EndsAs none (pos 0) running exited "natural-exit"
  crashed : (code : ℤ) → code ≢ pos 0 → EndsAs none code running failed "natural-exit"

-- The runtime after the exit: how it ended and when; the exit code, but where the process has none,
-- which is below 0; and all else as it was.
pub record Exited (exit : ProcessExit) (now : ℕ) (before after : ProcessRuntime) : Type 0 where
  pub ends : EndsAs exit.error exit.code before.state after.state after.termination_reason
  pub finished_at : after.finished_at ≡ some now
  pub has_code : (n : ℕ) → exit.code ≡ pos n → after.exit_code ≡ some (pos n)
  pub no_code : (n : ℕ) → exit.code ≡ negsuc n → after.exit_code ≡ before.exit_code
  pub project_id : after.project_id ≡ before.project_id
  pub process_id : after.process_id ≡ before.process_id
  pub instance_id : after.instance_id ≡ before.instance_id
  pub pid : after.pid ≡ before.pid
  pub started_at : after.started_at ≡ before.started_at

exit_target-EndsAs :
    (error : Option WaitError) (code : ℤ) (s : ProcessState)
    → is_live s ≡ true
    → let (after, reason) = exit_target (record { code = code; error = error }) s in
      EndsAs error code s after reason
unfolding exit_target
exit_target-EndsAs (some e) code s live = unobserved s e code
exit_target-EndsAs none (pos zero) running live = natural
exit_target-EndsAs none (pos (suc n)) running live = crashed (pos (suc n)) (λ e. absurd (cc e))
exit_target-EndsAs none (negsuc n) running live = crashed (negsuc n) (λ e. absurd (cc e))
exit_target-EndsAs none code stopping live = requested code
exit_target-EndsAs none code s live = cc

exited_runtime-Exited :
    (exit : ProcessExit) (now : ℕ) (r : ProcessRuntime)
    → is_live r.state ≡ true
    → Exited exit now r (exited_runtime exit now r)
unfolding exit_runtime
exited_runtime-Exited exit now r live = record {
  ends = exit_target-EndsAs exit.error exit.code r.state live;
  finished_at = refl;
  has_code = λ n e. rw e refl;
  no_code = λ n e. rw e refl;
  project_id = refl;
  process_id = refl;
  instance_id = refl;
  pid = refl;
  started_at = refl;
}

-- When the goroutine that observes an owned process is through, whatever the exit and whether or
-- not the save fails: the status of the process is its last runtime with the finish time, the exit
-- code, if the process has one, and the state and the reason of such an end; that state is terminal,
-- and the process is no longer active.
pub observe_exit-status :
    {P : Persister} (m : Manager P) (key : ProcessKey) (h : ℕ) (exit : ProcessExit) (now : ℕ)
    (r : ProcessRuntime)
    → IsOwned m
    → lookup key m.observers ≡ some h
    → status m key ≡ (r, true, none)
    → let m' = observe_exit (record m { observers = delete key m.observers }) key h exit now in
      (r' : ProcessRuntime) × (status m' key ≡ (r', true, none))
      × Exited exit now r r'
      × (is_terminal r'.state ≡ true)
      × (lookup key m'.active ≡ none)
observe_exit-status m key h exit now r o observing shown =
    let here = sym (o.all.observed key) ∙ observing in
    let t = o.all.tracks key h here in
    let (process, there, has) = tracked_process (process_at m.registry key) t.runtime t.found in
    let m0 = record m { observers = delete key m.observers } in
    let same : t.runtime ≡ r = cc (t.found, found-status m key r shown) in
    let live : is_live r.state ≡ true = rw same at t.live in
    let finished = observe_exit-eq m0 key h exit now process t there has in
    let settled = settle_exit-eq m0 key process t.runtime exit now t.live in
    (
      exited_runtime exit now r,
      rw (finished, settled) (rw same (finished-status m0 key h process exit now r _ there)),
      exited_runtime-Exited exit now r live,
      exit_target-is_terminal exit r.state,
      rw (finished, settled) (finished-active m0 key h process exit now t.runtime _),
    )
