-- ===== src/Supervision/Manager/Lookup.antt =====
-- Reading a process of the registry, and what a write through its pointer changes.
use text.Mathlib.TextEquality.{eq_iff}
use dovik.Prelude.{
  ◌≡◌, refl, ◌∙◌, true, false, Option, none, some, Option-cases, Bool-cases, ◌⊎◌, ◌≢◌, inl, inr,
  find, insert, lookup-insert, ◌==◌, string_eq, if◌then◌else◌, arith,
}
use dovik.Supervision.State.{ProcessRuntime}
use dovik.Supervision.Registry.{RegisteredProject, RegisteredProcess, Registry}
use dovik.Supervision.Persister.{Persister}
use dovik.Supervision.Manager.{
  ProcessKey, key_eq, key_beq, key_beq_iff, ok, find_process, set_process, Manager, status,
}

-- the process of a key, if its project and it are there
unfoldable pub process_at : Registry → ProcessKey → Option RegisteredProcess
process_at registry key = elim (find key.project_id registry.projects) [
  | none ↦ none
  | some project ↦ find key.process_id project.processes
]

-- its runtime, if it has one
abbrev pub runtime_in : Option RegisteredProcess → Option ProcessRuntime
runtime_in none = none
runtime_in (some process) = process.runtime

pub find_process-some :
    (registry : Registry) (key : ProcessKey) (project : RegisteredProject)
    (process : RegisteredProcess)
    → find_process registry key ≡ ok (project, process)
    → process_at registry key ≡ some process
unfolding find_process process_at
find_process-some registry key project process h = ground arith

pub process_at-found :
    (registry : Registry) (key : ProcessKey) (process : RegisteredProcess)
    → process_at registry key ≡ some process
    → (project : RegisteredProject) × (find_process registry key ≡ ok (project, process))
unfolding find_process process_at
process_at-found registry key process h =
    elim (Option-cases (find key.project_id registry.projects)) [
      | inl e ↦ ground arith
      | inr (project, e) ↦ (project, ground arith)
    ]

-- A write to one process that is there changes what is read at its key, and at no other.
pub process_at-set_process :
    (registry : Registry) (key j : ProcessKey) (old process : RegisteredProcess)
    → process_at registry key ≡ some old
    → process_at (set_process registry key process) j
      ≡ (if key == j then some process else process_at registry j)
unfolding process_at set_process
process_at-set_process registry key j old process h =
    elim (Option-cases (find key.project_id registry.projects)) [
      | inl e ↦ ground arith
      | inr (project, e) ↦ ground (
        arith,
        eq_iff key.project_id j.project_id,
        lookup-insert key.project_id j.project_id
            (some (record project {
              processes = insert key.process_id (some process) project.processes;
            }))
            registry.projects,
        lookup-insert key.process_id j.process_id (some process) project.processes,
      )
    ]

pub key_cases :
    (a b : ProcessKey) → ((a ≡ b) × (key_beq a b ≡ true)) ⊎ ((a ≢ b) × (key_beq a b ≡ false))
key_cases a b = elim (Bool-cases (key_beq a b)) [
  | inl e ↦ inl ((key_beq_iff a b).0 e, e)
  | inr e ↦ inr (λ p. cc ((key_beq_iff a b).1 p), e)
]

module _ (registry : Registry) (key : ProcessKey) (old process : RegisteredProcess)
    (there : process_at registry key ≡ some old) where
  pub process_at-set_self : process_at (set_process registry key process) key ≡ some process
  process_at-set_self =
      process_at-set_process registry key key old process there
      ∙ rw ((key_beq_iff key key).1 refl) refl

  pub process_at-set_ne :
      (j : ProcessKey)
      → key ≢ j
      → process_at (set_process registry key process) j ≡ process_at registry j
  process_at-set_ne j h = elim (key_cases key j) [
    | inl same ↦ absurd (h same.0)
    | inr other ↦ process_at-set_process registry key j old process there ∙ rw other.1 refl
  ]

-- `Status` reports the runtime of the process at a key.
module _ {P : Persister} (m : Manager P) (key : ProcessKey) (r : ProcessRuntime) where
  pub status-found :
      runtime_in (process_at m.registry key) ≡ some r → status m key ≡ (r, true, none)
  unfolding status process_at find_process
  status-found h = ground (arith, h)

  pub found-status :
      status m key ≡ (r, true, none) → runtime_in (process_at m.registry key) ≡ some r
  unfolding status process_at find_process
  found-status h = ground (arith, h)
