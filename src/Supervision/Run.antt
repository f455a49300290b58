-- ===== src/Supervision/Run.antt =====
-- The life of the daemon: the steps that its goroutines take under the lock, in any order.
use mathlib.Core.Path.{subst}
use dovik.Prelude.{
  ℕ, zero, suc, ℤ, String, ◌≡◌, refl, sym, ap, ◌∙◌, true, false, Option, none, some, Option-cases,
  Bool-cases, inl, inr, List, [], ◌∷◌, ◌++◌, All, Map, lookup, lookup-empty, lookup-cons, find,
  delete, is_positive, string_eq, arith,
}
use dovik.Supervision.Registry.{
  RegisteredProject, RegisteredProcess, Registry, Reconciled, reconcile_after_daemon_restart,
}
use dovik.Supervision.Registry.Reconcile.{
  ProjectOk, interrupted, any_process, any_project, settle_projects, reconcile-settle,
  settle_projects-idle,
}
use dovik.Supervision.Persister.{Persister}
use dovik.Supervision.Manager.{
  ProcessKey, key_eq, Effect, Manager, ok, new_lifecycle_manager, ManagedRuntime, runtime_of,
}
use dovik.Supervision.Manager.Lookup.{process_at}
use dovik.Supervision.Output.{OutputBuffer}
use dovik.Supervision.Operations.{Stat, Request, request}
use dovik.Supervision.Operations.Keeping.{request-IsOwned}
use dovik.Supervision.Lifecycle.Start.{StartInput, start}
use dovik.Supervision.Lifecycle.Stop.{stop_begin}
use dovik.Supervision.Lifecycle.Exit.{ProcessExit, observe_exit}
use dovik.Supervision.Lifecycle.Ownership.{ActiveAt, Tracks, Owned, IsOwned}
use dovik.Supervision.Lifecycle.Starting.{start-IsOwned}
use dovik.Supervision.Lifecycle.Stopping.{stop_begin-IsOwned}
use dovik.Supervision.Lifecycle.Exiting.{observe_exit-IsOwned}

infix 4 ◌↝◌ ◌↝*◌
-- A capturing goroutine appends to the output of a managed runtime.
abbrev pub set_output : ℕ → OutputBuffer → List ManagedRuntime → List ManagedRuntime
set_output h output [] = []
set_output zero output (r ∷ rs) = record r { output = output } ∷ rs
set_output (suc h) output (r ∷ rs) = r ∷ set_output h output rs

-- One section under the lock, or what goes on beside it. A goroutine that observes takes its step once.
pub data ◌↝◌ {P : Persister} : Manager P → Manager P → Type 1 where
  starts : (m : Manager P) (key : ProcessKey) (input : StartInput) → m ↝ (start m key input).0
  begins_stop : (m : Manager P) (key : ProcessKey) → m ↝ (stop_begin m key).0
  acts : (m : Manager P) (effect : Effect) → m ↝ record m { effects = m.effects ++ effect ∷ [] }
  asks : (stat : Stat) (m : Manager P) (q : Request) → m ↝ (request stat m q).0
  emits :
      (m : Manager P) (h : ℕ) (output : OutputBuffer)
      → m ↝ record m { runtimes = set_output h output m.runtimes }
  observes :
      (m : Manager P) (key : ProcessKey) (h : ℕ) (exit : ProcessExit) (now : ℕ)
      → lookup key m.observers ≡ some h
      → m ↝ observe_exit (record m { observers = delete key m.observers }) key h exit now

pub data ◌↝*◌ {P : Persister} : Manager P → Manager P → Type 1 where
  at_rest : (m : Manager P) → m ↝* m
  then_step : (m m1 m2 : Manager P) → m ↝* m1 → m1 ↝ m2 → m ↝* m2

with_output :
    (rs : List ManagedRuntime) (h j : ℕ) (output : OutputBuffer) (r : ManagedRuntime)
    → runtime_of rs j ≡ some r
    → (r' : ManagedRuntime) × (runtime_of (set_output h output rs) j ≡ some r')
      × (r'.done ≡ r.done)
      × (r'.instance_id ≡ r.instance_id)
with_output [] h j output r e = absurd (cc e)
with_output (x ∷ rs) zero zero output r e = (record x { output = output }, refl, cc, cc)
with_output (x ∷ rs) zero (suc j) output r e = (r, e, refl, refl)
with_output (x ∷ rs) (suc h) zero output r e = (r, e, refl, refl)
with_output (x ∷ rs) (suc h) (suc j) output r e = with_output rs h j output r e

Tracks-output :
    (registry : Registry) (rs : List ManagedRuntime) (k : ProcessKey) (j h : ℕ)
    (output : OutputBuffer)
    → Tracks registry rs k j
    → Tracks registry (set_output h output rs) k j
Tracks-output registry rs k j h output t =
    let (managed, at, done, same) = with_output rs h j output t.managed t.at in
    record {
      managed = managed;
      runtime = t.runtime;
      at = at;
      pending = done ∙ t.pending;
      found = t.found;
      same = t.same ∙ sym same;
      live = t.live;
    }

step-IsOwned : {P : Persister} (m m' : Manager P) → m ↝ m' → IsOwned m → IsOwned m'
step-IsOwned _ _ (starts m key input) o = start-IsOwned m key input o
step-IsOwned _ _ (begins_stop m key) o = (stop_begin-IsOwned m key o).0
step-IsOwned _ _ (acts m effect) o = record { bytes = o.bytes; events = o.events; all = o.all }
step-IsOwned _ _ (asks stat m q) o = request-IsOwned stat m q o
step-IsOwned _ _ (emits m h output) o = record {
  bytes = o.bytes;
  events = o.events;
  all = record {
    tracks = λ k j l. Tracks-output m.registry m.runtimes k j h output (o.all.tracks k j l);
    owned = o.all.owned;
    observed = o.all.observed;
    distinct = o.all.distinct;
    apart = o.all.apart;
  };
}
step-IsOwned _ _ (observes m key h exit now e) o = observe_exit-IsOwned m key h exit now o e

pub run-IsOwned : {P : Persister} (m m' : Manager P) → m ↝* m' → IsOwned m → IsOwned m'
run-IsOwned _ _ (at_rest m) o = o
run-IsOwned _ _ (then_step m m1 m2 run step) o = step-IsOwned m1 m2 step (run-IsOwned m m1 run o)

-- Where no runtime of a registry is interrupted, none is active.
idle_process :
    (m : Map String (Option RegisteredProcess)) (id : String) (process : RegisteredProcess)
    → any_process m ≡ false
    → find id m ≡ some process
    → interrupted process ≡ false
idle_process [] id process idle found =
    absurd (ground (arith, found, lookup-empty {V = Option RegisteredProcess} id))
idle_process ((j, none) ∷ m) id process idle found =
    ground (arith, found, lookup-cons j id none m, idle_process m id process idle)
idle_process ((j, some p) ∷ m) id process idle found =
    ground (arith, found, idle, lookup-cons j id (some p) m, idle_process m id process)

idle_project :
    (m : Map String (Option RegisteredProject)) (id : String) (project : RegisteredProject)
    → any_project m ≡ false
    → find id m ≡ some project
    → any_process project.processes ≡ false
idle_project [] id project idle found =
    absurd (ground (arith, found, lookup-empty {V = Option RegisteredProject} id))
idle_project ((j, none) ∷ m) id project idle found =
    ground (arith, found, lookup-cons j id none m, idle_project m id project idle)
idle_project ((j, some p) ∷ m) id project idle found =
    ground (arith, found, idle, lookup-cons j id (some p) m, idle_project m id project)

settled-idle :
    (registry : Registry) (key : ProcessKey)
    → any_project registry.projects ≡ false
    → ¬ ActiveAt registry key
unfolding process_at
settled-idle registry key idle (r, found, active) =
    elim (Option-cases (find key.project_id registry.projects)) [
      | inl p ↦ ground (arith, p, found)
      | inr (project, p) ↦ elim (Option-cases (find key.process_id project.processes)) [
        | inl q ↦ ground (arith, p, q, found)
        | inr (process, q) ↦
            let quiet =
              idle_process project.processes key.process_id process
                (idle_project registry.projects key.project_id project idle p) q in
            ground (arith, p, q, found, active, quiet)
      ]
    ]

fresh-Owned :
    (registry : Registry) → any_project registry.projects ≡ false → Owned registry [] [] []
fresh-Owned registry idle = record {
  tracks = λ k h l. absurd (cc (l, lookup-empty {V = ℕ} k));
  owned = λ k a. absurd (settled-idle registry k idle a);
  observed = λ k. refl;
  distinct = tt;
  apart = λ k j h l _. absurd (cc (l, lookup-empty {V = ℕ} k));
}

module _ {P : Persister} where
  new_manager-IsOwned :
      (registry : Registry) (disk : P.Disk) (bytes events : ℤ) (m : Manager P)
      → any_project registry.projects ≡ false
      → new_lifecycle_manager {P = P} (some registry) disk bytes events ≡ ok m
      → IsOwned m
  unfolding new_lifecycle_manager
  new_manager-IsOwned registry disk bytes events m idle made =
      elim (Bool-cases (is_positive bytes)) [
        | inr p ↦ absurd (ground (arith, p, made))
        | inl p ↦ elim (Bool-cases (is_positive events)) [
          | inr q ↦ absurd (ground (arith, p, q, made))
          | inl q ↦
              subst IsOwned (made_as p q)
                (record { bytes = p; events = q; all = fresh-Owned registry idle })
        ]
      ]
    where
      made_as :
          is_positive bytes ≡ true
          → is_positive events ≡ true
          → record {
            registry = registry;
            disk = disk;
            active = [];
            outputs = [];
            runtimes = [];
            observers = [];
            output_byte_limit = bytes;
            output_event_limit = events;
            effects = [];
          }
            ≡ m
      made_as p q = ground (arith, p, q, made)

  -- A daemon loads a registry whose records are all there and in states of the model, reconciles it
  -- and makes a manager of it. However its goroutines then interleave, and whatever the store, the
  -- platform and the clients do: every entry of `active` is the current runtime of its process, is
  -- running or stopping and not done; every process whose runtime is active has an entry; exactly
  -- one goroutine observes each entry; and no two entries share a runtime.
  pub daemon-IsOwned :
      (registry : Registry) (at : ℕ) (disk : P.Disk) (bytes events : ℤ) (m m' : Manager P)
      → All ProjectOk registry.projects
      → new_lifecycle_manager {P = P}
          (some (reconcile_after_daemon_restart registry at).0)
          disk
          bytes
          events
        ≡ ok m
      → m ↝* m'
      → IsOwned m'
  daemon-IsOwned registry at disk bytes events m m' ready made run = run-IsOwned m m' run (
      new_manager-IsOwned (record { projects = settle_projects at registry.projects }) disk bytes
        events m (settle_projects-idle at registry.projects)
        (rw⁻¹ (ap (λ (r : Registry × Reconciled). r.0) (reconcile-settle registry at ready)) made))
