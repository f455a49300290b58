-- ===== src/Supervision/Saving/Accepting.antt =====
-- What `Load` of internal/supervision/registry_store.go accepts.
use dovik.Prelude.{
  String, ◌≡◌, refl, ap, Bool, true, false, not, Option, none, some, Option-cases, Bool-cases, ◌⊎◌,
  inl, inr, List, [], ◌∷◌, ◌==◌, Map, All, All-insert, insert, lookup, is_some, is_abs, string_eq,
  arith, if◌then◌else◌,
}
use dovik.Storage.{Disk}
use dovik.Supervision.State.{ProcessRuntime, is_valid}
use dovik.Supervision.Registry.{RegisteredProcess, RegisteredProject, Registry, new_registry}
use dovik.Supervision.Registry.Reconcile.{ProcessOk, ProjectOk}
use dovik.Supervision.Document.{
  DocumentError, RegistryDocument, ProjectDocument, ProcessDocument, Result, ok, err, process_of,
  has_bad_state, load_processes, load_projects, is_document_version, document_to_registry,
}
use dovik.Supervision.Loading.{
  Reading, missing, unreadable, content, Trailing, loads, fails, not_read, not_private, not_decoded,
  load, validate_path, require_json_end, from_document,
}
use dovik.Supervision.Saving.{load_file, read_file}

Result-cases :
    {A : Type 0} (r : Result A) → ((e : DocumentError) × (r ≡ err e)) ⊎ ((a : A) × (r ≡ ok a))
Result-cases (err e) = inl (e, refl)
Result-cases (ok a) = inr (a, refl)

valid_of :
    (runtime : Option ProcessRuntime)
    → has_bad_state runtime ≡ false
    → (r : ProcessRuntime) → runtime ≡ some r
    → is_valid r.state ≡ true
valid_of none h r at = absurd (cc at)
valid_of (some q) h r at =
    let same : q ≡ r = cc at in
    ground (arith, h, ap (λ (x : ProcessRuntime). is_valid x.state) same)

load_processes-Ok :
    (project_id : String) (known : Map String (Option RegisteredProcess))
    (ds : List ProcessDocument) (m : Map String (Option RegisteredProcess))
    → All ProcessOk known
    → load_processes project_id known ds ≡ ok m
    → All ProcessOk m
unfolding load_processes
load_processes-Ok project_id known [] m h made = let same : known ≡ m = cc made in rw⁻¹ same h
load_processes-Ok project_id known (d ∷ ds) m h made = elim (Bool-cases (d.id == "")) [
  | inl e ↦ let made' = rw (e, load_processes) at made in absurd (cc made')
  | inr e ↦ elim (Bool-cases (d.command == "")) [
    | inl e1 ↦ let made' = rw (e, e1, load_processes) at made in absurd (cc made')
    | inr e1 ↦ elim (Bool-cases (is_some (lookup d.id known))) [
      | inl e2 ↦ let made' = rw (e, e1, e2, load_processes) at made in absurd (cc made')
      | inr e2 ↦ elim (Bool-cases (has_bad_state (process_of project_id d).runtime)) [
        | inl e3 ↦ let made' = rw (e, e1, e2, e3, load_processes) at made in absurd (cc made')
        | inr e3 ↦
            load_processes-Ok project_id (insert d.id (some (process_of project_id d)) known) ds m
              (All-insert ProcessOk d.id (some (process_of project_id d)) known
                (valid_of (process_of project_id d).runtime e3) h)
              (rw (e, e1, e2, e3, load_processes) at made)
      ]
    ]
  ]
]

load_projects-Ok :
    (ds : List ProjectDocument) (known : Map String (Option RegisteredProject))
    (m : Map String (Option RegisteredProject))
    → All ProjectOk known
    → load_projects known ds ≡ ok m
    → All ProjectOk m
unfolding load_projects
load_projects-Ok [] known m h made = let same : known ≡ m = cc made in rw⁻¹ same h
load_projects-Ok (d ∷ ds) known m h made = elim (Bool-cases (d.id == "")) [
  | inl e ↦ let made' = rw (e, load_projects) at made in absurd (cc made')
  | inr e ↦ elim (Bool-cases (not (is_abs d.root_directory))) [
    | inl e1 ↦ let made' = rw (e, e1, load_projects) at made in absurd (cc made')
    | inr e1 ↦ elim (Bool-cases (is_some (lookup d.id known))) [
      | inl e2 ↦ let made' = rw (e, e1, e2, load_projects) at made in absurd (cc made')
      | inr e2 ↦ elim (Result-cases (load_processes d.id [] d.processes)) [
        | inl (x, e3) ↦ let made' = rw (e, e1, e2, e3, load_projects) at made in absurd (cc made')
        | inr (processes, e3) ↦
            load_projects-Ok ds _ m
              (All-insert ProjectOk d.id (some _) known
                (load_processes-Ok d.id [] d.processes processes tt e3) h)
              (rw (e, e1, e2, e3, load_projects) at made)
      ]
    ]
  ]
]

-- Whatever document is read: the registry that it makes has every record, in states of the model.
document_to_registry-Ok :
    (document : RegistryDocument) (registry : Registry)
    → document_to_registry document ≡ ok registry
    → All ProjectOk registry.projects
unfolding document_to_registry
document_to_registry-Ok document registry made =
    elim (Bool-cases (not (is_document_version document.version))) [
      | inl e ↦ let made' = rw (e, document_to_registry) at made in absurd (cc made')
      | inr e ↦ elim (Result-cases (load_projects [] document.projects)) [
        | inl (x, e1) ↦ let made' = rw (e, e1, document_to_registry) at made in absurd (cc made')
        | inr (projects, e1) ↦
            let made' = rw (e, e1, document_to_registry) at made in
            let same : projects ≡ registry.projects = cc made' in
            rw⁻¹ same (load_projects-Ok document.projects [] projects tt e1)
      ]
    ]

Reading-cases :
    {A : Type 0} (r : Reading A) → (r ≡ missing) ⊎ ((r ≡ unreadable) ⊎ ((a : A) × (r ≡ content a)))
Reading-cases missing = inl refl
Reading-cases unreadable = inr (inl refl)
Reading-cases (content a) = inr (inr (a, refl))

from_document-Ok :
    (result : Result Registry) (registry : Registry)
    → ((made : Registry) → result ≡ ok made → All ProjectOk made.projects)
    → from_document result ≡ loads registry
    → All ProjectOk registry.projects
from_document-Ok (err e) registry all h = absurd (cc h)
from_document-Ok (ok made) registry all h =
    let same : made ≡ registry = cc h in rw⁻¹ same (all made refl)

module _ {Content : Type 0} (decode : Option Content → Option (RegistryDocument × Trailing)) where
  load-Ok :
      (path : String) (reading : Reading (Option Content)) (private : Bool) (registry : Registry)
      → load decode path reading private ≡ loads registry
      → All ProjectOk registry.projects
  unfolding load
  load-Ok path reading private registry h = elim (Option-cases (validate_path path)) [
    | inr (x, e) ↦ let h' = rw (e, load) at h in absurd (cc h')
    | inl e ↦ of_reading reading (rw (e, load) at h)
  ]
    where
      of_reading :
          (reading : Reading (Option Content))
          → (elim reading [
            | missing ↦ loads new_registry
            | unreadable ↦ fails not_read
            | content c ↦ if not private then fails not_private else elim (decode c) [
              | none ↦ fails not_decoded
              | some (document, trailing) ↦ elim (require_json_end trailing) [
                | some e ↦ fails e
                | none ↦ from_document (document_to_registry document)
              ]
            ]
          ])
            ≡ loads registry
          → All ProjectOk registry.projects
      of_reading missing h = let same : new_registry ≡ registry = cc h in rw⁻¹ same tt
      of_reading unreadable h = absurd (cc h)
      of_reading (content c) h = elim (Bool-cases (not private)) [
        | inl e ↦ let h' = rw e at h in absurd (cc h')
        | inr e ↦ elim (Option-cases (decode c)) [
          | inl e1 ↦ let h' = rw (e, e1) at h in absurd (cc h')
          | inr ((document, trailing), e1) ↦ elim (Option-cases (require_json_end trailing)) [
            | inr (x, e2) ↦ let h' = rw (e, e1, e2) at h in absurd (cc h')
            | inl e2 ↦
                from_document-Ok (document_to_registry document) registry
                  (document_to_registry-Ok document) (rw (e, e1, e2) at h)
          ]
        ]
      ]

  pub load_file-Ok :
      (path : String) (d : Disk Content) (registry : Registry)
      → (load_file decode path d).1 ≡ loads registry
      → All ProjectOk registry.projects
  unfolding load_file
  load_file-Ok path d registry h = elim (Option-cases (validate_path path)) [
    | inr (x, e) ↦ let h' = rw (e, load_file) at h in absurd (cc h')
    | inl e ↦ elim (Reading-cases (read_file path d).1) [
      | inl e1 ↦ load-Ok path missing true registry (rw (e, e1, load_file) at h)
      | inr (inl e1) ↦ load-Ok path unreadable true registry (rw (e, e1, load_file) at h)
      | inr (inr (text, e1)) ↦ load-Ok path (content text) _ registry (rw (e, e1, load_file) at h)
    ]
  ]
