-- ===== src/Supervision/Operations/Keeping.antt =====
-- The requests on the registry leave the daemon the owner of every active process.
use dovik.Prelude.{ℕ, ◌≡◌, sym, ap, ◌∙◌, Option, none, some, ◌⊎◌, inl, inr, List, Map, arith}
use dovik.Supervision.Registry.{RegisteredProcess, Registry}
use dovik.Supervision.Persister.{Persister}
use dovik.Supervision.Manager.{ProcessKey, key_eq, LifecycleError, ManagedRuntime, Manager}
use dovik.Supervision.Manager.Lookup.{process_at, runtime_in, key_cases}
use dovik.Supervision.Lifecycle.Start.{active_runtime}
use dovik.Supervision.Lifecycle.Ownership.{ActiveAt, Owned, IsOwned, live-active}
use dovik.Supervision.Operations.{
  Stat, Request, adds_project, removes_project, adds_process, removes_process, request,
}
use dovik.Supervision.Operations.Rollback.{Edits, Untouched, Settled}
use dovik.Supervision.Operations.Settling.{request-Settled}

-- The runtime of a process is as it was, or it was not active and is gone.
abbrev Keeps : Registry → Registry → ProcessKey → Type 0
Keeps a b key =
    (runtime_in (process_at b key) ≡ runtime_in (process_at a key))
    ⊎ (¬ ActiveAt a key × (runtime_in (process_at b key) ≡ none))

Owned-of_Keeps :
    (a b : Registry) (active observers : Map ProcessKey ℕ) (runtimes : List ManagedRuntime)
    → ((key : ProcessKey) → Keeps a b key)
    → Owned a active observers runtimes
    → Owned b active observers runtimes
Owned-of_Keeps a b active observers runtimes keeps o = record {
  tracks = λ k h l.
      let t = o.tracks k h l in
      record {
        managed = t.managed;
        runtime = t.runtime;
        at = t.at;
        pending = t.pending;
        found = elim (keeps k) [
          | inl same ↦ same ∙ t.found
          | inr gone ↦ absurd (gone.0 (t.runtime, t.found, live-active t.runtime.state t.live))
        ];
        same = t.same;
        live = t.live;
      };
  owned = λ k active_there. elim (keeps k) [
    | inl same ↦ let (r, found, active) = active_there in o.owned k (r, sym same ∙ found, active)
    | inr gone ↦ let (r, found, active) = active_there in absurd (cc (gone.1, found))
  ];
  observed = o.observed;
  distinct = o.distinct;
  apart = o.apart;
}

idle-not_active :
    (registry : Registry) (key : ProcessKey) (process : RegisteredProcess)
    → process_at registry key ≡ some process
    → active_runtime process ≡ none
    → ¬ ActiveAt registry key
unfolding active_runtime
idle-not_active registry key process there idle (r, found, active) =
    let has : process.runtime ≡ some r = sym (ap runtime_in there) ∙ found in
    ground (arith, has, active, idle)

Edits-Keeps : (q : Request) (a b : Registry) → Edits q a b → (key : ProcessKey) → Keeps a b key
Edits-Keeps (adds_project d) a b e key = inl (ap runtime_in (e.processes key))
Edits-Keeps (removes_project id) a b e key = inl (ap runtime_in (e.processes key))
Edits-Keeps (adds_process d) a b e key =
    elim (key_cases (record { project_id = d.project_id; process_id = d.id }) key) [
      | inl here ↦
          let old : process_at a key ≡ none = ap (process_at a) (sym here.0) ∙ e.allowed.1 in
          let new = e.processes key in inl (ground (arith, here.1, new, old))
      | inr other ↦ inl (let new = e.processes key in ground (arith, other.1, new))
    ]
Edits-Keeps (removes_process gone) a b e key = elim (key_cases gone key) [
  | inl here ↦
      let (process, there, idle) = e.allowed in
      inr (
        idle-not_active a key process (ap (process_at a) (sym here.0) ∙ there) idle,
        (let new = e.processes key in ground (arith, here.1, new)),
      )
  | inr other ↦ inl (let new = e.processes key in ground (arith, other.1, new))
]

module _ {P : Persister} where
  IsOwned-of_Keeps :
      (m m' : Manager P)
      → Untouched m m'
      → ((key : ProcessKey) → Keeps m.registry m'.registry key)
      → IsOwned m
      → IsOwned m'
  IsOwned-of_Keeps m m' u keeps o = record {
    bytes = rw u.bytes o.bytes;
    events = rw u.events o.events;
    all =
        rw (u.active, u.observers, u.runtimes)
          (Owned-of_Keeps m.registry m'.registry m.active m.observers m.runtimes keeps o.all);
  }

  Settled-IsOwned :
      (m : Manager P) (q : Request) (reply : Manager P × Option LifecycleError)
      → Settled m q reply
      → IsOwned m
      → IsOwned reply.0
  Settled-IsOwned m q (m', none) (saved, edits, u) o =
      IsOwned-of_Keeps m m' u (Edits-Keeps q m.registry m'.registry edits) o
  Settled-IsOwned m q (m', some e) (unchanged, stored_after) o =
      IsOwned-of_Keeps m m' unchanged.untouched
        (λ key. inl (sym (ap runtime_in (unchanged.alike.processes key)))) o

  -- Adding or removing a project or a process, whether it is accepted or not, leaves the daemon the
  -- owner of every active process, and of no other.
  pub request-IsOwned :
      (stat : Stat) (m : Manager P) (q : Request) → IsOwned m → IsOwned (request stat m q).0
  request-IsOwned stat m q o = Settled-IsOwned m q (request stat m q) (request-Settled stat m q) o
