-- ===== src/Supervision/Operations/Settling.antt =====
-- `AddProject`, `RemoveProject`, `AddProcess` and `RemoveProcess`: each is saved, or changes nothing.
use dovik.Prelude.{
  String, ◌≡◌, refl, sym, Option, none, some, Option-cases, inl, inr, [], ◌∷◌, Map, insert, delete,
  find, string_eq, arith,
}
use dovik.Supervision.Registry.{
  ProjectDefinition, ProcessDefinition, RegisteredProject, RegisteredProcess, Registry,
}
use dovik.Supervision.Persister.{Persister}
use dovik.Supervision.Manager.{
  ProcessKey, key_eq, project_not_found, project_not_empty, process_active, Result, ok, err,
  Manager, find_process, persist,
}
use dovik.Supervision.Lifecycle.Start.{active_runtime}
use dovik.Supervision.Operations.{
  Stat, project_error, process_error, add_project, remove_project, add_process, remove_process,
  with_processes, Request, adds_project, removes_project, adds_process, removes_process, request,
}
use dovik.Supervision.Operations.Rollback.{
  find-delete-insert, find-insert-delete, Alike-of_find, Alike-with_processes, Settled,
  Settled-of_save, Settled-of_refusal,
}
use dovik.Supervision.Operations.Editing.{
  Edits-add_project, Edits-remove_project, Edits-add_process, Edits-remove_process,
}

project_fresh :
    (stat : Stat) (registry : Registry) (d : ProjectDefinition)
    → project_error stat registry d ≡ none
    → find d.id registry.projects ≡ none
unfolding project_error
project_fresh stat registry d p = ground arith

module _ {P : Persister} where
  add_project-Settled :
      (stat : Stat) (m : Manager P) (d : ProjectDefinition)
      → Settled m (adds_project d) (request stat m (adds_project d))
  unfolding add_project persist
  add_project-Settled stat m d = elim (Option-cases (project_error stat m.registry d)) [
    | inr (e, p) ↦
        Settled-of_refusal m (adds_project d) e (request stat m (adds_project d))
          (rw (p, add_project) refl)
    | inl p ↦
        let added =
          insert d.id (some (record { definition = d; processes = [] })) m.registry.projects in
        Settled-of_save m (adds_project d) added (delete d.id added) m.outputs
          (request stat m (adds_project d))
          (Edits-add_project m.registry d (project_fresh stat m.registry d p))
          (Alike-of_find m.registry (record { projects = delete d.id added })
            (λ j. sym (
              find-delete-insert d.id j (some (record { definition = d; processes = [] }))
                m.registry.projects (project_fresh stat m.registry d p))))
          (λ q. rw (p, add_project) (rw q refl)) (λ f q. rw (p, add_project) (rw q refl))
  ]

  remove_project-Settled :
      (stat : Stat) (m : Manager P) (id : String)
      → Settled m (removes_project id) (request stat m (removes_project id))
  unfolding remove_project persist
  remove_project-Settled stat m id = elim (Option-cases (find id m.registry.projects)) [
    | inl p ↦
        Settled-of_refusal m (removes_project id) project_not_found
          (request stat m (removes_project id)) (rw (p, remove_project) refl)
    | inr (project, p) ↦ go project p project.processes refl
  ]
    where
      go :
          (project : RegisteredProject)
          → find id m.registry.projects ≡ some project
          → (processes : Map String (Option RegisteredProcess)) → project.processes ≡ processes
          → Settled m (removes_project id) (request stat m (removes_project id))
      go project p [] none_left =
          let removed = delete id m.registry.projects in
          let back = insert id (some project) removed in
          Settled-of_save m (removes_project id) removed back m.outputs
            (request stat m (removes_project id))
            (Edits-remove_project m.registry id project p none_left)
            (Alike-of_find m.registry (record { projects = back })
              (λ j. sym (find-insert-delete id j project m.registry.projects p)))
            (λ q. rw (p, remove_project) (rw none_left (rw q refl)))
            (λ f q. rw (p, remove_project) (simp (none_left, q)))
      go project p (x ∷ xs) left =
          Settled-of_refusal m (removes_project id) project_not_empty
            (request stat m (removes_project id)) (rw (p, remove_project) (rw left refl))

process_fresh :
    (stat : Stat) (project : RegisteredProject) (d : ProcessDefinition)
    → process_error stat project d ≡ none
    → find d.id project.processes ≡ none
unfolding process_error
process_fresh stat project d p = ground arith

-- A process that `findProcess` finds is in a project that is there.
found_in :
    (registry : Registry) (key : ProcessKey) (project : RegisteredProject)
    (process : RegisteredProcess)
    → find_process registry key ≡ ok (project, process)
    → (find key.project_id registry.projects ≡ some project)
      × (find key.process_id project.processes ≡ some process)
unfolding find_process
found_in registry key project process p = ground arith

module _ {P : Persister} where
  add_process-Settled :
      (stat : Stat) (m : Manager P) (d : ProcessDefinition)
      → Settled m (adds_process d) (request stat m (adds_process d))
  unfolding add_process persist
  add_process-Settled stat m d = elim (Option-cases (find d.project_id m.registry.projects)) [
    | inl p ↦
        Settled-of_refusal m (adds_process d) project_not_found (request stat m (adds_process d))
          (rw (p, add_process) refl)
    | inr (project, p) ↦ elim (Option-cases (process_error stat project d)) [
      | inr (e, q) ↦
          Settled-of_refusal m (adds_process d) e (request stat m (adds_process d))
            (rw (p, q, add_process) refl)
      | inl q ↦
          let new = some (record { definition = d; runtime = none }) in
          let added = insert d.id new project.processes in
          Settled-of_save m (adds_process d)
            (with_processes m d.project_id project added).registry.projects
            (insert d.project_id (some (record project { processes = delete d.id added }))
              (with_processes m d.project_id project added).registry.projects)
            m.outputs (request stat m (adds_process d))
            (Edits-add_process m.registry d.project_id project p d refl
              (process_fresh stat project d q))
            (Alike-with_processes m.registry d.project_id project added (delete d.id added) p (λ j.
              find-delete-insert d.id j new project.processes (process_fresh stat project d q)))
            (λ r. rw (p, q, add_process) (simp r)) (λ f r. rw (p, q, add_process) (simp r))
    ]
  ]

  remove_process-Settled :
      (stat : Stat) (m : Manager P) (key : ProcessKey)
      → Settled m (removes_process key) (request stat m (removes_process key))
  unfolding remove_process persist
  remove_process-Settled stat m key = go (find_process m.registry key) refl
    where
      go :
          (found : Result (RegisteredProject × RegisteredProcess))
          → find_process m.registry key ≡ found
          → Settled m (removes_process key) (request stat m (removes_process key))
      go (err e) p =
          Settled-of_refusal m (removes_process key) e (request stat m (removes_process key))
            (rw (p, remove_process) refl)
      go (ok (project, process)) p = elim (Option-cases (active_runtime process)) [
        | inr (runtime, q) ↦
            Settled-of_refusal m (removes_process key) process_active
              (request stat m (removes_process key)) (rw (p, remove_process) (rw q refl))
        | inl q ↦
            let removed = delete key.process_id project.processes in
            Settled-of_save m (removes_process key)
              (with_processes m key.project_id project removed).registry.projects
              (insert key.project_id
                (some (record project { processes = insert key.process_id (some process) removed }))
                (with_processes m key.project_id project removed).registry.projects)
              (delete key m.outputs) (request stat m (removes_process key))
              (Edits-remove_process m.registry key.project_id project
                (found_in m.registry key project process p).0 key process refl
                (found_in m.registry key project process p).1 q)
              (Alike-with_processes m.registry key.project_id project removed
                (insert key.process_id (some process) removed)
                (found_in m.registry key project process p).0
                (λ j.
                  find-insert-delete key.process_id j process project.processes
                    (found_in m.registry key project process p).1))
              (λ r. rw (p, remove_process) (rw q (simp r)))
              (λ f r. rw (p, remove_process) (rw q (simp r)))
      ]

  -- Whatever is asked, either the request is accepted, the store then holds the document of the
  -- registry, and the definitions are changed as it says and only so; or it reports an error, and
  -- then the registry reads as before at every project and process, no runtime, output or process is
  -- touched, and the store holds the same document, unless the error is that of a flush after the
  -- file was replaced: then the store holds the document of the registry changed as asked.
  pub request-Settled : (stat : Stat) (m : Manager P) (q : Request) → Settled m q (request stat m q)
  request-Settled stat m (adds_project d) = add_project-Settled stat m d
  request-Settled stat m (removes_project id) = remove_project-Settled stat m id
  request-Settled stat m (adds_process d) = add_process-Settled stat m d
  request-Settled stat m (removes_process key) = remove_process-Settled stat m key
