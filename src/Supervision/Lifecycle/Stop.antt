-- ===== src/Supervision/Lifecycle/Stop.antt =====
-- `Stop`, `Restart` and `Shutdown` of lifecycle.go. The lock is released while `Stop` waits: what
-- the other goroutines do then, and which case of the `select` fires, is an argument.
use dovik.Prelude.{
  ℕ, ℤ, Bool, true, false, not, Option, none, some, List, [], ◌∷◌, ◌++◌, lookup, keys, ◌==◌,
  string_eq, if◌then◌else◌,
}
use dovik.Supervision.State.{
  ProcessRuntime, zero_runtime, stopping, stopped, is_stopping, transition,
}
use dovik.Supervision.Registry.{RegisteredProcess}
use dovik.Supervision.Persister.{Persister}
use dovik.Supervision.Manager
use dovik.Supervision.Manager.{
  ProcessKey, key_eq, LifecycleError, transition_failed, persist_failed, not_owned, joined,
  request_stop_failed, canceled, ok, err, requested_stop, killed, ManagedRuntime, runtime_of,
  Manager, find_process, persist, set_runtime,
}
use dovik.Supervision.Lifecycle.Start.{Reply, StartInput, active_runtime, start}

-- The section of `Stop` under the lock returns, or goes on to wait for the runtime `h`; the second
-- field is `requestStop`.
pub data StopBegin : Type 0 where
  returns : Reply → StopBegin
  waits : ℕ → Bool → StopBegin

-- How the wait ends: the platform refuses the request, the process has exited, or the context is
-- done.
pub data StopOutcome : Type 0 where
  refused exited done : StopOutcome

-- the result for a process that is not active
unfoldable pub idle_reply : ProcessKey → RegisteredProcess → Reply
idle_reply key process = elim process.runtime [
  | none ↦ (
    record zero_runtime {
      project_id = key.project_id;
      process_id = key.process_id;
      state = stopped;
    },
    none,
  )
  | some runtime ↦ (runtime, none)
]

abbrev pub Wait : Persister → Type 0
Wait P = Manager P → Manager P × StopOutcome

module _ {P : Persister} where
  -- `manager.active[key]`, read through the pointer
  abbrev pub active_at : Manager P → ProcessKey → Option (ℕ × ManagedRuntime)
  active_at m key = elim (lookup key m.active) [
    | none ↦ none
    | some h ↦ elim (runtime_of m.runtimes h) [ none ↦ none | some r ↦ some (h, r) ]
  ]

  -- From the owned runtime on: unless a stop was requested before, `stopping` is persisted, and
  -- taken back if that fails.
  unfoldable pub stop_owned :
      Manager P → ProcessKey → RegisteredProcess → ProcessRuntime → ℕ → Manager P × StopBegin
  unfolding set_runtime persist transition
  stop_owned m key process runtime h =
      if is_stopping runtime.state
      then (m, waits h false)
      else (let (runtime', error) = transition runtime stopping in
          elim error as (λ _. Manager P × StopBegin) [
            | some e ↦ (m, returns (zero_runtime, some (transition_failed e)))
            | none ↦
                let (m', fault) = persist (set_runtime m key process runtime') in
                elim fault [
                  | some f ↦ (
                    set_runtime m' key process (record runtime' { state = runtime.state }),
                    returns (zero_runtime, some (persist_failed f)),
                  )
                  | none ↦ (m', waits h true)
                ]
          ])

  unfoldable pub stop_begin : Manager P → ProcessKey → Manager P × StopBegin
  unfolding find_process active_runtime idle_reply stop_owned
  stop_begin m key = elim (find_process m.registry key) [
    | err e ↦ (m, returns (zero_runtime, some e))
    | ok (project, process) ↦ elim (active_runtime process) [
      | none ↦ (m, returns (idle_reply key process))
      | some runtime ↦ elim (active_at m key) [
        | none ↦ (m, returns (zero_runtime, some not_owned))
        | some (h, managed) ↦
            if not (managed.instance_id == runtime.instance_id)
            then (m, returns (zero_runtime, some not_owned))
            else stop_owned m key process runtime h
      ]
    ]
  ]

  unfoldable pub status_with_error : Manager P → ProcessKey → Option LifecycleError → Reply
  unfolding find_process
  status_with_error m key error = elim (find_process m.registry key) [
    | err e ↦ (zero_runtime, some (elim error [ none ↦ e | some f ↦ joined f e ]))
    | ok (project, process) ↦ elim process.runtime [
      | none ↦ (zero_runtime, error)
      | some runtime ↦ (runtime, error)
    ]
  ]

  abbrev finish_error_at : Manager P → ℕ → Option LifecycleError
  finish_error_at m h = elim (runtime_of m.runtimes h) [ none ↦ none | some r ↦ r.finish_error ]

  abbrev pub note : (ℤ → Manager.Effect) → ℕ → Manager P → Manager P
  note effect h m = elim (runtime_of m.runtimes h) [
    | none ↦ m
    | some r ↦ record m { effects = m.effects ++ effect r.pid ∷ [] }
  ]

  -- The end of `Stop`, after the wait for `h`.
  unfoldable pub stop_end : Manager P → ProcessKey → ℕ → StopOutcome → Manager P × Reply
  unfolding status_with_error
  stop_end m key h refused = (m, status_with_error m key (some request_stop_failed))
  stop_end m key h exited = (m, status_with_error m key (finish_error_at m h))
  stop_end m key h done = let m' = note killed h m in (m', status_with_error m' key (some canceled))

  unfoldable pub stop : Manager P → ProcessKey → Wait P → Manager P × Reply
  unfolding stop_begin stop_end
  stop m key wait =
      let (m1, begun) = stop_begin m key in
      elim begun as (λ _. Manager P × Reply) [
        | returns reply ↦ (m1, reply)
        | waits h request ↦
            let (m2, outcome) = wait (if request then note requested_stop h m1 else m1) in
            stop_end m2 key h outcome
      ]

  unfoldable pub restart : Manager P → ProcessKey → Wait P → StartInput → Manager P × Reply
  unfolding stop start
  restart m key wait input =
      let (m', stopped_reply) = stop m key wait in
      elim stopped_reply.1 as (λ _. Manager P × Reply) [
        | some e ↦ (m', (zero_runtime, some e))
        | none ↦ start m' key input
      ]

  -- The loop of `Shutdown`; each key has a wait of its own.
  unfoldable pub shutdown_keys :
      Manager P
      → List ProcessKey
      → (ProcessKey → Wait P)
      → Option LifecycleError
      → Manager P × Option LifecycleError
  unfolding stop
  shutdown_keys m [] wait failure = (m, failure)
  shutdown_keys m (key ∷ ks) wait failure =
      let (m', reply) = stop m key (wait key) in
      shutdown_keys m' ks wait (elim reply.1 [
        | none ↦ failure
        | some e ↦ some (elim failure [ none ↦ e | some f ↦ joined f e ])
      ])

  unfoldable pub shutdown : Manager P → (ProcessKey → Wait P) → Manager P × Option LifecycleError
  unfolding shutdown_keys
  shutdown m wait = shutdown_keys m (keys m.active) wait none
