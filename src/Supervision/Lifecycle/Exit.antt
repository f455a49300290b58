-- ===== src/Supervision/Lifecycle/Exit.antt =====
-- `observeExit` of lifecycle.go, and `Wait` of process.go, whose answer it reads.
use dovik.Prelude.{
  ℕ, zero, suc, ℤ, negsuc, is_nonneg, is_zero, String, Bool, true, Option, none, some, List, [],
  ◌∷◌, delete, if◌then◌else◌, ◌==◌, string_eq, not,
}
use dovik.Supervision.State.{
  ProcessState, ProcessRuntime, failed, stopped, exited, is_stopping, transition,
}
use dovik.Supervision.Registry.{RegisteredProcess}
use dovik.Supervision.Persister.{Persister}
use dovik.Supervision.Manager.{
  ProcessKey, key_eq, LifecycleError, transition_failed, persist_failed, ownership_changed, ok, err,
  ManagedRuntime, runtime_of, Manager, find_process, persist, set_runtime,
}

pub data WaitError : Type 0 where
  exit_error wait_failed close_failed : WaitError

pub record ProcessExit : Type 0 where
  pub code : ℤ
  pub error : Option WaitError

-- an `*exec.ExitError` only says that the code is not 0
abbrev clear_exit : Option WaitError → Option WaitError
clear_exit (some exit_error) = none
clear_exit error = error

abbrev with_close : Bool → Option WaitError → Option WaitError
with_close true none = some close_failed
with_close closed error = error

-- `Wait`, from the error of the command, the exit code of its process state, which may be nil, and
-- whether closing the platform's owner fails.
unfoldable pub wait_exit : Option WaitError → Option ℤ → Bool → ProcessExit
wait_exit error code close_fails = record {
  code = elim code [ none ↦ negsuc 0 | some c ↦ c ];
  error = with_close close_fails (clear_exit error);
}

-- The `switch` over the exit and the state of the runtime.
unfoldable pub exit_target : ProcessExit → ProcessState → ProcessState × String
exit_target exit state = elim exit.error [
  | some e ↦ (failed, "observation-failed")
  | none ↦
      if is_stopping state
      then (stopped, "requested-stop")
      else if is_zero exit.code
      then (exited, "natural-exit")
      else (failed, "natural-exit")
]

unfoldable pub exit_runtime : ProcessExit → ℕ → ProcessRuntime → ProcessRuntime
unfolding exit_target
exit_runtime exit now runtime = record runtime {
  finished_at = some now;
  exit_code = if is_nonneg exit.code then some exit.code else runtime.exit_code;
  termination_reason = (exit_target exit runtime.state).1;
}

-- A write to the managed runtime that the goroutine observes: `close(managed.done)`, with the
-- error that was set before, if one was.
abbrev pub finish_at : ℕ → Option LifecycleError → List ManagedRuntime → List ManagedRuntime
finish_at h error [] = []
finish_at zero error (r ∷ rs) =
    record r { done = true; finish_error = elim error [ none ↦ r.finish_error | some e ↦ some e ] }
    ∷ rs
finish_at (suc h) error (r ∷ rs) = r ∷ finish_at h error rs

module _ {P : Persister} where
  unfoldable pub finish : Manager P → ℕ → Option LifecycleError → Manager P
  finish m h error = record m { runtimes = finish_at h error m.runtimes }

  -- The runtime is still the one that was started.
  unfoldable pub settle_exit :
      Manager P
      → ProcessKey
      → RegisteredProcess
      → ProcessRuntime
      → ProcessExit
      → ℕ
      → Manager P × Option LifecycleError
  unfolding exit_runtime set_runtime persist transition
  settle_exit m key process runtime exit now =
      let (runtime', error) =
        transition (exit_runtime exit now runtime) (exit_target exit runtime.state).0 in
      let m1 = set_runtime m key process runtime' in
      let (m2, failure) = elim error as (λ _. Manager P × Option LifecycleError) [
        | some e ↦ (m1, some (transition_failed e))
        | none ↦
            let (m', fault) = persist m1 in
            (m', elim fault [ none ↦ none | some f ↦ some (persist_failed f) ])
      ] in
      (record m2 { active = delete key m2.active }, failure)

  unfoldable pub observe_exit : Manager P → ProcessKey → ℕ → ProcessExit → ℕ → Manager P
  unfolding find_process settle_exit finish
  observe_exit m key h exit now = elim (find_process m.registry key) [
    | err e ↦ finish m h (some e)
    | ok (project, process) ↦ elim process.runtime [
      | none ↦ finish m h (some ownership_changed)
      | some runtime ↦ elim (runtime_of m.runtimes h) [
        | none ↦ finish m h (some ownership_changed)
        | some managed ↦
            if not (runtime.instance_id == managed.instance_id)
            then finish m h (some ownership_changed)
            else (let (m', failure) = settle_exit m key process runtime exit now in
                finish m' h failure)
      ]
    ]
  ]
