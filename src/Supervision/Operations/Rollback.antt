-- ===== src/Supervision/Operations/Rollback.antt =====
-- A request that is refused, or that cannot be saved, changes nothing that a client can read.
use text.Mathlib.TextEquality.{eq_iff}
use mathlib.Core.Path.{subst⁻¹}
use dovik.Prelude.{
  ℕ, String, ◌≡◌, ◌≢◌, refl, Option, none, some, Option-cases, ◌⊎◌, inl, inr, Map, insert, delete,
  find, lookup-insert, lookup-delete, if◌then◌else◌, ◌==◌, string_eq, arith,
}
use dovik.Supervision.Registry.{ProjectDefinition, RegisteredProject, RegisteredProcess, Registry}
use dovik.Supervision.Persister.{Persister, Fault, not_flushed, Holds}
use dovik.Supervision.Manager.{ProcessKey, key_eq, LifecycleError, persist_failed, Manager, persist}
use dovik.Supervision.Manager.Lookup.{process_at}
use dovik.Supervision.Lifecycle.Start.{active_runtime}
use dovik.Supervision.Operations.{
  with_projects, Request, adds_project, removes_project, adds_process, removes_process,
}

-- the definition of a project that is there
unfoldable pub project_at : Registry → String → Option ProjectDefinition
project_at registry id = elim (find id registry.projects) [
  | none ↦ none
  | some project ↦ some project.definition
]

-- Two registries that read alike.
pub record Alike (a b : Registry) : Type 0 where
  pub projects : (id : String) → project_at a id ≡ project_at b id
  pub processes : (key : ProcessKey) → process_at a key ≡ process_at b key

pub Alike-refl : (a : Registry) → Alike a a
Alike-refl a = record { projects = λ id. refl; processes = λ key. refl }

-- A write to a map at a key that it then takes back.
pub find-delete-insert :
    {V : Type 0} (k j : String) (v : Option V) (m : Map String (Option V))
    → find k m ≡ none
    → find j (delete k (insert k v m)) ≡ find j m
find-delete-insert k j v m e =
    ground (arith, eq_iff k j, lookup-delete k j (insert k v m), lookup-insert k j v m)

pub find-insert-delete :
    {V : Type 0} (k j : String) (v : V) (m : Map String (Option V))
    → find k m ≡ some v
    → find j (insert k (some v) (delete k m)) ≡ find j m
find-insert-delete k j v m e =
    ground (arith, eq_iff k j, lookup-insert k j (some v) (delete k m), lookup-delete k j m)

pub Alike-of_find :
    (a b : Registry) → ((id : String) → find id a.projects ≡ find id b.projects) → Alike a b
unfolding project_at process_at
Alike-of_find a b h = record {
  projects = λ id. ground (arith, h id);
  processes = λ key. ground (arith, h key.project_id);
}

-- A project that is written twice, the second time with processes that read as they did at first.
pub Alike-with_processes :
    (registry : Registry) (id : String) (project : RegisteredProject)
    (changed back : Map String (Option RegisteredProcess))
    → find id registry.projects ≡ some project
    → ((j : String) → find j back ≡ find j project.processes)
    → Alike registry (record {
      projects =
          insert id
            (some (record project { processes = back }))
            (insert id (some (record project { processes = changed })) registry.projects);
    })
unfolding project_at process_at
Alike-with_processes registry id project changed back e same = record {
  projects = λ j. ground (arith, eq_iff id j, twice j);
  processes =
      λ key. ground (arith, eq_iff id key.project_id, twice key.project_id, same key.process_id);
}
  where
    twice :
        (j : String)
        → find j (
            insert id
              (some (record project { processes = back }))
              (insert id (some (record project { processes = changed })) registry.projects))
          ≡ (if id == j
              then some (record project { processes = back })
              else find j registry.projects)
    twice j = ground (
      arith,
      eq_iff id j,
      lookup-insert id j (some (record project { processes = back }))
          (insert id (some (record project { processes = changed })) registry.projects),
      lookup-insert id j (some (record project { processes = changed })) registry.projects,
    )

-- What an accepted request makes of the definitions, at every project and at every process.
abbrev pub edited_project :
    Request → (String → Option ProjectDefinition) → String → Option ProjectDefinition
edited_project (adds_project d) old id = if d.id == id then some d else old id
edited_project (removes_project gone) old id = if gone == id then none else old id
edited_project _ old id = old id

abbrev pub edited_process :
    Request → (ProcessKey → Option RegisteredProcess) → ProcessKey → Option RegisteredProcess
edited_process (adds_process d) old key =
    if record { project_id = d.project_id; process_id = d.id } == key
    then some (record { definition = d; runtime = none })
    else old key
edited_process (removes_process gone) old key = if gone == key then none else old key
edited_process _ old key = old key

-- What of the registry allows a request.
abbrev pub Allowed : Request → Registry → Type 0
Allowed (adds_project d) registry = project_at registry d.id ≡ none
Allowed (removes_project id) registry =
    (project_at registry id ≢ none)
    × ((key : ProcessKey) → key.project_id ≡ id → process_at registry key ≡ none)
Allowed (adds_process d) registry =
    (project_at registry d.project_id ≢ none)
    × (process_at registry (record { project_id = d.project_id; process_id = d.id }) ≡ none)
Allowed (removes_process key) registry =
    (process : RegisteredProcess) × (process_at registry key ≡ some process)
    × (active_runtime process ≡ none)

pub record Edits (q : Request) (a b : Registry) : Type 0 where
  pub allowed : Allowed q a
  pub projects : (id : String) → project_at b id ≡ edited_project q (project_at a) id
  pub processes : (key : ProcessKey) → process_at b key ≡ edited_process q (process_at a) key

module _ {P : Persister} where
  open P use {stored, save, save_ok, save_failed, save_unflushed}

  -- No process of the system and no runtime is touched.
  pub record Untouched (m m' : Manager P) : Type 0 where
    pub active : m'.active ≡ m.active
    pub observers : m'.observers ≡ m.observers
    pub runtimes : m'.runtimes ≡ m.runtimes
    pub bytes : m'.output_byte_limit ≡ m.output_byte_limit
    pub events : m'.output_event_limit ≡ m.output_event_limit
    pub effects : m'.effects ≡ m.effects

  -- The registry reads as before.
  pub record Unchanged (m m' : Manager P) : Type 0 where
    pub alike : Alike m.registry m'.registry
    pub outputs : m'.outputs ≡ m.outputs
    pub untouched : Untouched m m'

  -- What the store holds after an error: the same document, or, if only the flush of the directory
  -- failed, that of the registry as it was asked for.
  abbrev pub StoredAfter : Manager P → Request → Manager P → LifecycleError → Type 0
  StoredAfter m q m' e =
      (stored m'.disk ≡ stored m.disk)
      ⊎ ((e ≡ persist_failed not_flushed)
          × ((edited : Registry) × Edits q m.registry edited × Holds P m'.disk edited))

  Unchanged-refl : (m : Manager P) → Unchanged m m
  Unchanged-refl m = record {
    alike = Alike-refl m.registry;
    outputs = refl;
    untouched = record {
      active = refl;
      observers = refl;
      runtimes = refl;
      bytes = refl;
      events = refl;
      effects = refl;
    };
  }

  -- A save that failed, with the registry put back.
  Unchanged-fault :
      (m : Manager P) (changed back : Map String (Option RegisteredProject)) (f : Fault)
      → (save m.disk (record { projects = changed })).1 ≡ some f
      → Alike m.registry (record { projects = back })
      → Unchanged m (with_projects ((persist (with_projects m changed)).0) back)
  unfolding persist
  Unchanged-fault m changed back f e alike = record {
    alike = alike;
    outputs = refl;
    untouched = record {
      active = refl;
      observers = refl;
      runtimes = refl;
      bytes = refl;
      events = refl;
      effects = refl;
    };
  }

  StoredAfter-fault :
      (m : Manager P) (q : Request) (changed back : Map String (Option RegisteredProject))
      → Edits q m.registry (record { projects = changed })
      → (f : Fault) → (save m.disk (record { projects = changed })).1 ≡ some f
      → StoredAfter m q
          (with_projects ((persist (with_projects m changed)).0) back)
          (persist_failed f)
  unfolding persist
  StoredAfter-fault m q changed back edits Fault.not_written e =
      inl (save_failed m.disk (record { projects = changed }) e)
  StoredAfter-fault m q changed back edits Fault.not_flushed e = inr (
    refl,
    (record { projects = changed }, edits, save_unflushed m.disk (record { projects = changed }) e),
  )

  -- What holds after a request, by the error that it reports.
  abbrev pub Settled : Manager P → Request → Manager P × Option LifecycleError → Type 0
  Settled m q (m', none) =
      Holds P m'.disk m'.registry × Edits q m.registry m'.registry × Untouched m m'
  Settled m q (m', some e) = Unchanged m m' × StoredAfter m q m' e

  -- A reply that comes of one save: the change is kept, or is put back.
  pub Settled-of_save :
      (m : Manager P) (q : Request) (changed back : Map String (Option RegisteredProject))
      (outputs : Map ProcessKey ℕ) (reply : Manager P × Option LifecycleError)
      → Edits q m.registry (record { projects = changed })
      → Alike m.registry (record { projects = back })
      → let (m', fault) = persist (with_projects m changed) in
        (fault ≡ none → reply ≡ (record m' { outputs = outputs }, none))
        → ((f : Fault) → fault ≡ some f → reply ≡ (with_projects m' back, some (persist_failed f)))
        → Settled m q reply
  unfolding persist
  Settled-of_save m q changed back outputs reply edits alike kept undone =
      elim (Option-cases (save m.disk (record { projects = changed })).1) [
        | inl e ↦ subst⁻¹ (Settled m q) (kept e) (
          save_ok m.disk (record { projects = changed }) e,
          edits,
          record {
            active = refl;
            observers = refl;
            runtimes = refl;
            bytes = refl;
            events = refl;
            effects = refl;
          },
        )
        | inr (f, e) ↦
            subst⁻¹ (Settled m q) (undone f e) (
              Unchanged-fault m changed back f e alike,
              StoredAfter-fault m q changed back edits f e,
            )
      ]

  pub Settled-of_refusal :
      (m : Manager P) (q : Request) (e : LifecycleError) (reply : Manager P × Option LifecycleError)
      → reply ≡ (m, some e)
      → Settled m q reply
  Settled-of_refusal m q e reply p = subst⁻¹ (Settled m q) p (Unchanged-refl m, inl refl)
