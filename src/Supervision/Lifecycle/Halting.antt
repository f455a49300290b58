-- ===== src/Supervision/Lifecycle/Halting.antt =====
-- `Stop`, `Restart` and `Shutdown` as wholes, around what goes on while they wait.
use dovik.Prelude.{
  ℕ, ℤ, ◌≡◌, refl, true, false, Option, none, Option-cases, List, [], ◌∷◌, keys, inl, inr,
}
use dovik.Supervision.Persister.{Persister}
use dovik.Supervision.Manager.{
  ProcessKey, key_eq, Manager, LifecycleError, runtime_of, requested_stop, killed, Effect,
}
use dovik.Supervision.Lifecycle.Start.{StartInput}
use dovik.Supervision.Lifecycle.Stop.{
  Wait, StopBegin, returns, waits, StopOutcome, refused, exited, done, note, stop_begin, stop_end,
  stop, restart, shutdown_keys, shutdown,
}
use dovik.Supervision.Lifecycle.Ownership.{IsOwned}
use dovik.Supervision.Lifecycle.Starting.{start-IsOwned}
use dovik.Supervision.Lifecycle.Stopping.{stop_begin-IsOwned}

module _ {P : Persister} where
  -- What happens during a wait keeps the invariant, as the steps of a run do.
  abbrev pub KeepsOwned : Wait P → Type 0
  KeepsOwned wait = (m : Manager P) → IsOwned m → IsOwned (wait m).0

  note-IsOwned :
      (effect : ℤ → Effect) (h : ℕ) (m : Manager P) → IsOwned m → IsOwned (note effect h m)
  note-IsOwned effect h m o = elim (Option-cases (runtime_of m.runtimes h)) [
    | inl e ↦ rw (e, note) o
    | inr (r, e) ↦ rw (e, note) (record { bytes = o.bytes; events = o.events; all = o.all })
  ]

  stop_end-IsOwned :
      (m : Manager P) (key : ProcessKey) (h : ℕ) (outcome : StopOutcome)
      → IsOwned m
      → IsOwned (stop_end m key h outcome).0
  unfolding stop_end
  stop_end-IsOwned m key h refused o = o
  stop_end-IsOwned m key h exited o = o
  stop_end-IsOwned m key h done o = note-IsOwned killed h m o

  -- `Stop` keeps the invariant of ownership, provided that what goes on while it waits keeps it.
  pub stop-IsOwned :
      (m : Manager P) (key : ProcessKey) (wait : Wait P)
      → KeepsOwned wait
      → IsOwned m
      → IsOwned (stop m key wait).0
  unfolding stop
  stop-IsOwned m key wait keeps o = go (stop_begin m key).1 refl
    where
      o1 : IsOwned (stop_begin m key).0
      o1 = (stop_begin-IsOwned m key o).0

      go : (begun : StopBegin) → (stop_begin m key).1 ≡ begun → IsOwned (stop m key wait).0
      go (returns reply) p = rw (p, stop) o1
      go (waits h true) p =
          let asked = note requested_stop h (stop_begin m key).0 in
          rw (p, stop)
            (stop_end-IsOwned (wait asked).0 key h (wait asked).1
              (keeps asked (note-IsOwned requested_stop h (stop_begin m key).0 o1)))
      go (waits h false) p =
          let m1 = (stop_begin m key).0 in
          rw (p, stop) (stop_end-IsOwned (wait m1).0 key h (wait m1).1 (keeps m1 o1))

  -- `Restart` keeps the invariant of ownership in the same way.
  pub restart-IsOwned :
      (m : Manager P) (key : ProcessKey) (wait : Wait P) (input : StartInput)
      → KeepsOwned wait
      → IsOwned m
      → IsOwned (restart m key wait input).0
  unfolding restart
  restart-IsOwned m key wait input keeps o =
      let halted = stop-IsOwned m key wait keeps o in
      elim (Option-cases (stop m key wait).1.1) [
        | inr (e, p) ↦ rw (p, restart) halted
        | inl p ↦ rw (p, restart) (start-IsOwned (stop m key wait).0 key input halted)
      ]

  shutdown_keys-IsOwned :
      (m : Manager P) (ks : List ProcessKey) (wait : ProcessKey → Wait P)
      (failure : Option LifecycleError)
      → ((key : ProcessKey) → KeepsOwned (wait key))
      → IsOwned m
      → IsOwned (shutdown_keys m ks wait failure).0
  unfolding shutdown_keys
  shutdown_keys-IsOwned m [] wait failure keeps o = o
  shutdown_keys-IsOwned m (key ∷ ks) wait failure keeps o =
      shutdown_keys-IsOwned (stop m key (wait key)).0 ks wait _ keeps
        (stop-IsOwned m key (wait key) (keeps key) o)

  -- So does `Shutdown`, whatever its stops return.
  pub shutdown-IsOwned :
      (m : Manager P) (wait : ProcessKey → Wait P)
      → ((key : ProcessKey) → KeepsOwned (wait key))
      → IsOwned m
      → IsOwned (shutdown m wait).0
  unfolding shutdown
  shutdown-IsOwned m wait keeps o = shutdown_keys-IsOwned m (keys m.active) wait none keeps o
