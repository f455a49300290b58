-- ===== src/Supervision/Saving/Filing.antt =====
-- `FileRegistry` as the store that the manager needs.
use dovik.Prelude.{
  ℕ, String, ◌≡◌, ◌≢◌, refl, ◌∙◌, ap, true, false, Option, none, some, Option-cases, inl, inr,
  lookup, if◌then◌else◌, Bool-cases, string_eq,
}
use dovik.Storage.{Disk, dir_path, is_private}
use dovik.Supervision.Encoding.{as_read}
use dovik.Supervision.Registry.{Registry}
use dovik.Supervision.Document.{RegistryDocument, registry_to_document, Result, ok, err}
use dovik.Supervision.Loading.{Trailing, at_end, validate_path}
use dovik.Supervision.Persister.{Persister, Fault, not_written, not_flushed}
use dovik.Storage.{FileError}
use dovik.Supervision.Saving.{
  SaveError, file_failed, file_error, ensure_private_directory, write_file_atomically, save,
}
use dovik.Storage.Drafts.{is_late, reached, After, Written}
use dovik.Storage.Steps.{written_file}
use dovik.Supervision.Saving.Replacing.{
  ensure-files, write_file_atomically-private, write_file_atomically-Written,
}

-- The faults of the manager's interface.
abbrev pub fault_of : Option SaveError → Option Fault
fault_of none = none
fault_of (some (file_failed e)) = some (if is_late e then not_flushed else not_written)
fault_of (some e) = some not_written

abbrev pub document_in : Option (RegistryDocument × Trailing) → Option RegistryDocument
document_in none = none
document_in (some (document, trailing)) = some document

-- the document in the file at the path
unfoldable pub stored_document :
    {Content : Type 0}
    → (Option Content → Option (RegistryDocument × Trailing))
    → String
    → Disk Content
    → Option RegistryDocument
stored_document decode path d = elim (lookup path d.files) [
  | none ↦ none
  | some file ↦ document_in (decode file.content)
]

-- The directory of the path is there, for its owner alone.
abbrev pub PrivateFolder : {Content : Type 0} → String → Disk Content → Type 0
PrivateFolder path d =
    (mode : ℕ) × (lookup (dir_path path) d.directories ≡ some mode) × (is_private mode ≡ true)

module _ {Content : Type 0} (encode : RegistryDocument → Option Content) (path temp : String) where
  moved_folder :
      (d1 d' : Disk Content)
      → d'.directories ≡ d1.directories
      → PrivateFolder path d1
      → PrivateFolder path d'
  moved_folder d1 d' e (mode, at, private) = (mode, rw e at, private)

  abbrev pub save_registry : Disk Content → Registry → Disk Content × Option Fault
  save_registry d registry =
      let (d', error) = save encode path temp d registry in (d', fault_of error)

  -- The file at the path is a private one with the document of the registry.
  pub record NewFile (registry : Registry) (d : Disk Content) : Type 0 where
    pub document : RegistryDocument
    pub of_registry : registry_to_document (some registry) ≡ ok document
    pub text : Content
    pub encoded : encode document ≡ some text
    pub at : lookup path d.files ≡ some (written_file text)
    pub folder : PrivateFolder path d

  abbrev pub FileAfter : Registry → Disk Content → Disk Content → Option Fault → Type 0
  FileAfter registry d d' none = NewFile registry d'
  FileAfter registry d d' (some not_flushed) = NewFile registry d'
  FileAfter registry d d' (some not_written) = lookup path d'.files ≡ lookup path d.files

  -- What a save does to the files.
  pub record Stores (registry : Registry) (d d' : Disk Content) (fault : Option Fault)
      : Type 0 where
    pub file : FileAfter registry d d' fault
    pub others :
        (name : String) → temp ≢ name → path ≢ name → lookup name d'.files ≡ lookup name d.files

  unsaved : (registry : Registry) (d : Disk Content) → Stores registry d d (some not_written)
  unsaved registry d = record { file = refl; others = λ name ne ne'. refl }

  late_fault :
      (registry : Registry) (d d' : Disk Content) (e : FileError)
      → is_late e ≡ true
      → NewFile registry d'
      → FileAfter registry d d' (fault_of (some (file_failed e)))
  late_fault registry d d' e late new = rw late new

  early_fault :
      (registry : Registry) (d d' : Disk Content) (e : FileError)
      → is_late e ≡ false
      → lookup path d'.files ≡ lookup path d.files
      → FileAfter registry d d' (fault_of (some (file_failed e)))
  early_fault registry d d' e early old = rw early old

  -- From the files after the write to those after the save.
  Stores-of_Written :
      (registry : Registry) (document : RegistryDocument) (text : Content) (d d1 d' : Disk Content)
      (error : Option FileError)
      → temp ≢ path
      → registry_to_document (some registry) ≡ ok document
      → encode document ≡ some text
      → d1.files ≡ d.files
      → (reached error ≡ true → PrivateFolder path d1)
      → Written path temp (written_file text) d1 (d', error)
      → Stores registry d d' (fault_of (file_error error))
  Stores-of_Written registry document text d d1 d' none ne e1 e2 files folder h = record {
    file = record {
      document = document;
      of_registry = e1;
      text = text;
      encoded = e2;
      at = h.at;
      folder = moved_folder d1 d' h.directories (folder refl);
    };
    others = λ name ne1 ne2. h.others name ne1 ne2 ∙ ap (lookup name) files;
  }
  Stores-of_Written registry document text d d1 d' (some e) ne e1 e2 files folder h =
      elim (Bool-cases (is_late e)) [
        | inl late ↦
            let placed : After path temp (written_file text) d1 d' true = rw late at h in
            record {
              file = late_fault registry d d' e late (record {
                document = document;
                of_registry = e1;
                text = text;
                encoded = e2;
                at = placed.at;
                folder = moved_folder d1 d' placed.directories (folder late);
              });
              others = λ name ne1 ne2. placed.others name ne1 ne2 ∙ ap (lookup name) files;
            }
        | inr early ↦
            let kept : After path temp (written_file text) d1 d' false = rw early at h in
            record {
              file =
                  early_fault registry d d' e early (kept.others path ne ∙ ap (lookup path) files);
              others = λ name ne1 ne2. kept.others name ne1 ∙ ap (lookup name) files;
            }
      ]

  -- A save that reports no error leaves a private file with the document of the registry, and so does
  -- one whose error came after the file was replaced; one with an earlier error leaves the file, if
  -- any, as it was. No other file but the temporary one is touched.
  pub save-Stores :
      (registry : Registry) (d : Disk Content)
      → temp ≢ path
      → Stores registry d
          (save encode path temp d registry).0
          (fault_of (save encode path temp d registry).1)
  unfolding save
  save-Stores registry d ne = elim (Option-cases (validate_path path)) [
    | inr (e, p) ↦ rw (p, save) (unsaved registry d)
    | inl p ↦ go p (registry_to_document (some registry)) refl
  ]
    where
      go :
          validate_path path ≡ none
          → (result : Result RegistryDocument) → registry_to_document (some registry) ≡ result
          → Stores registry d
              (save encode path temp d registry).0
              (fault_of (save encode path temp d registry).1)
      go p (err e) q = rw (p, q, save) (unsaved registry d)
      go p (ok document) q = elim (Option-cases (encode document)) [
        | inl r ↦ rw (p, q, r, save) (unsaved registry d)
        | inr (text, r) ↦
            rw (p, q, r, save)
              (let (d', error) = write_file_atomically path temp text d in
                Stores-of_Written registry document text d
                  (ensure_private_directory (dir_path path) d).0 d' error ne q r
                  (ensure-files (dir_path path) d) (write_file_atomically-private path temp text d)
                  (write_file_atomically-Written path temp text d ne))
      ]

-- `FileRegistry` in the place of `registryPersister`. What is asked of `json` is that it gives back
-- what it wrote, up to what it does not tell apart, with nothing behind it.
module _ {Content : Type 0} (decode : Option Content → Option (RegistryDocument × Trailing))
    (encode : RegistryDocument → Option Content)
    (read_back : (document : RegistryDocument) (text : Content)
      → encode document ≡ some text
      → decode (some text) ≡ some (as_read document, at_end))
    (path temp : String) (ne : temp ≢ path) where
  pub NewFile-stored :
      (registry : Registry) (d : Disk Content)
      → NewFile encode path temp registry d
      → (document : RegistryDocument) × (registry_to_document (some registry) ≡ ok document)
        × (stored_document decode path d ≡ some (as_read document))
  unfolding stored_document
  NewFile-stored registry d new = (
    new.document,
    new.of_registry,
    rw (new.at, stored_document) (rw (read_back new.document new.text new.encoded) refl),
  )

  pub same_document :
      (d d' : Disk Content)
      → lookup path d'.files ≡ lookup path d.files
      → stored_document decode path d' ≡ stored_document decode path d
  unfolding stored_document
  same_document d d' e = rw (e, stored_document) refl

  pub file_of :
      (d : Disk Content) (registry : Registry) (fault : Option Fault)
      → (save_registry encode path temp d registry).1 ≡ fault
      → FileAfter encode path temp registry d (save_registry encode path temp d registry).0 fault
  file_of d registry fault h =
      let file = (save-Stores encode path temp registry d ne).file in rw h at file

  abbrev pub file_persister : Persister
  file_persister = record {
    Disk = Disk Content;
    save = save_registry encode path temp;
    stored = stored_document decode path;
    save_ok = λ d r h. NewFile-stored r (save_registry encode path temp d r).0 (file_of d r none h);
    save_failed = λ d r h.
        same_document d (save_registry encode path temp d r).0 (file_of d r (some not_written) h);
    save_unflushed = λ d r h.
        NewFile-stored r (save_registry encode path temp d r).0 (file_of d r (some not_flushed) h);
  }
