-- ===== src/Supervision/Operations/Editing.antt =====
-- What a write of each request to the registry makes of the definitions.
use text.Mathlib.TextEquality.{eq_iff}
use dovik.Prelude.{
  String, ◌≡◌, Option, none, some, [], lookup, insert, delete, find, lookup-insert, lookup-delete,
  lookup-empty, if◌then◌else◌, ◌==◌, string_eq, arith,
}
use dovik.Supervision.Registry.{
  ProjectDefinition, ProcessDefinition, RegisteredProject, RegisteredProcess, Registry,
}
use dovik.Supervision.Manager.{ProcessKey, key_eq}
use dovik.Supervision.Manager.Lookup.{process_at}
use dovik.Supervision.Lifecycle.Start.{active_runtime}
use dovik.Supervision.Operations.{adds_project, removes_project, adds_process, removes_process}
use dovik.Supervision.Operations.Rollback.{project_at, Edits}

module _ (registry : Registry) where
  pub Edits-add_project :
      (d : ProjectDefinition)
      → find d.id registry.projects ≡ none
      → Edits (adds_project d) registry (record {
        projects = insert d.id (some (record { definition = d; processes = [] })) registry.projects;
      })
  unfolding project_at process_at
  Edits-add_project d fresh = record {
    allowed = ground (arith, fresh);
    projects = λ id. ground (arith, eq_iff d.id id, written id);
    processes = λ key. ground (
      arith,
      eq_iff d.id key.project_id,
      written key.project_id,
      lookup-empty {V = Option RegisteredProcess} key.process_id,
    );
  }
    where
      written :
          (id : String)
          → lookup id
              (insert d.id (some (record { definition = d; processes = [] })) registry.projects)
            ≡ (if d.id == id
                then some (some (record { definition = d; processes = [] }))
                else lookup id registry.projects)
      written id =
          lookup-insert d.id id (some (record { definition = d; processes = [] })) registry.projects

  pub Edits-remove_project :
      (id : String) (project : RegisteredProject)
      → find id registry.projects ≡ some project
      → project.processes ≡ []
      → Edits (removes_project id) registry (record { projects = delete id registry.projects })
  unfolding project_at process_at
  Edits-remove_project id project found empty = record {
    allowed = (
      λ none_there. ground (arith, none_there, found),
      λ key same.
          ground
            (arith, found, same, empty, lookup-empty {V = Option RegisteredProcess} key.process_id),
    );
    projects = λ j. ground (arith, eq_iff id j, lookup-delete id j registry.projects);
    processes = λ key. ground (
      arith,
      eq_iff id key.project_id,
      lookup-delete id key.project_id registry.projects,
      empty,
      lookup-empty {V = Option RegisteredProcess} key.process_id,
    );
  }

  module _ (id : String) (project : RegisteredProject)
      (found : find id registry.projects ≡ some project) where
    pub Edits-add_process :
        (d : ProcessDefinition)
        → d.project_id ≡ id
        → find d.id project.processes ≡ none
        → Edits (adds_process d) registry (record {
          projects =
              insert id
                (some (record project {
                  processes =
                      insert d.id
                        (some (record { definition = d; runtime = none }))
                        project.processes;
                }))
                registry.projects;
        })
    unfolding project_at process_at
    Edits-add_process d here fresh = record {
      allowed = (
        λ none_there. ground (arith, none_there, here, found),
        ground (arith, here, found, fresh),
      );
      projects =
          λ j. ground (arith, eq_iff id j, lookup-insert id j (some changed) registry.projects);
      processes = λ key. ground (
        arith,
        here,
        eq_iff d.project_id key.project_id,
        eq_iff id key.project_id,
        eq_iff d.id key.process_id,
        lookup-insert id key.project_id (some changed) registry.projects,
        lookup-insert d.id key.process_id (some (record { definition = d; runtime = none }))
            project.processes,
      );
    }
      where
        changed : RegisteredProject
        changed = record project {
          processes =
              insert d.id (some (record { definition = d; runtime = none })) project.processes;
        }

    pub Edits-remove_process :
        (key : ProcessKey) (process : RegisteredProcess)
        → key.project_id ≡ id
        → find key.process_id project.processes ≡ some process
        → active_runtime process ≡ none
        → Edits (removes_process key) registry (record {
          projects =
              insert id
                (some (record project { processes = delete key.process_id project.processes }))
                registry.projects;
        })
    unfolding project_at process_at
    Edits-remove_process key process here there idle = record {
      allowed = (process, ground (arith, here, found, there), idle);
      projects = λ j. ground (
        arith,
        eq_iff id j,
        lookup-insert id j
            (some (record project { processes = delete key.process_id project.processes }))
            registry.projects,
      );
      processes = λ j. ground (
        arith,
        here,
        eq_iff key.project_id j.project_id,
        eq_iff id j.project_id,
        eq_iff key.process_id j.process_id,
        lookup-insert id j.project_id
            (some (record project { processes = delete key.process_id project.processes }))
            registry.projects,
        lookup-delete key.process_id j.process_id project.processes,
      );
    }
