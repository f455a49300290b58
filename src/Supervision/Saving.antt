-- ===== src/Supervision/Saving.antt =====
-- `writeFileAtomically`, `ensurePrivateDirectory`, `verifyPrivateRegistryPermissions` and the methods
-- of `FileRegistry` in internal/supervision/registry_store.go, with `replaceFile` of
-- internal/supervision/replace_file_other.go, over the files of a system.
-- Parameters: the path of the store, the name of the temporary file that `os.CreateTemp` finds, and
-- `json` both ways; encoding fails on a time that JSON has no text for.
pub mod Replacing
pub mod Filing
pub mod Refining
pub mod Accepting
pub mod Preparing
use dovik.Prelude.{
  ℕ, String, Bool, true, false, not, Option, none, some, Map, lookup, if◌then◌else◌, string_eq,
}
use dovik.Storage.{
  FileError, no_directory, directory_not_inspected, directory_not_private, not_created,
  not_restricted, not_written, not_synced, not_closed, replace_file, File, Disk, dir_path,
  is_private, next_answer, attempt, create_temp, chmod, write_file, sync, close, rename, remove,
  mkdir_all,
}
use dovik.Supervision.Registry.{
  Registry, reconcile_after_daemon_restart, ReconcileError, changed, refused,
}
use dovik.Supervision.Document.{
  RegistryDocument, DocumentError, registry_to_document, Result, ok, err,
}
use dovik.Supervision.Loading.{
  Reading, missing, unreadable, content, Trailing, StoreError, Loaded, loads, fails, validate_path,
  load,
}

pub data SaveError : Type 0 where
  invalid_path : StoreError → SaveError
  invalid_registry : DocumentError → SaveError
  not_encoded : SaveError
  file_failed : FileError → SaveError

module _ {Content : Type 0} where
  -- os.Stat of a directory: its permissions, if the system lets them be read
  unfoldable pub stat_directory : String → Disk Content → Disk Content × Option ℕ
  unfolding next_answer
  stat_directory path d =
      let (d1, granted) = next_answer d in
      (d1, if granted then lookup path d1.directories else none)

  -- After `os.MkdirAll` what `os.Stat` finds is a directory.
  unfoldable pub ensure_private_directory : String → Disk Content → Disk Content × Option FileError
  unfolding mkdir_all stat_directory is_private
  ensure_private_directory path d =
      attempt (mkdir_all path 448 d) (λ d1. (d1, some no_directory))
        (λ d1.
          let (d2, mode) = stat_directory path d1 in
          elim mode [
            | none ↦ (d2, some directory_not_inspected)
            | some m ↦ (d2, if not (is_private m) then some directory_not_private else none)
          ])

  -- From `temporary.Chmod` to the end, before the deferred `os.Remove`.
  unfoldable pub fill_and_replace :
      String → String → Content → Disk Content → Disk Content × Option FileError
  unfolding replace_file
  fill_and_replace path temp text d =
      attempt (chmod 384 temp d) (λ d1. ((close d1).0, some not_restricted))
        (λ d1.
          attempt (write_file text temp d1) (λ d2. ((close d2).0, some not_written))
            (λ d2.
              attempt (sync d2) (λ d3. ((close d3).0, some not_synced))
                (λ d3. attempt (close d3) (λ d4. (d4, some not_closed)) (replace_file temp path))))

  unfoldable pub write_file_atomically :
      String → String → Content → Disk Content → Disk Content × Option FileError
  unfolding ensure_private_directory fill_and_replace remove
  write_file_atomically path temp text d =
      let (d1, error) = ensure_private_directory (dir_path path) d in
      elim error [
        | some e ↦ (d1, some e)
        | none ↦
            attempt (create_temp temp d1) (λ d2. (d2, some not_created))
              (λ d2.
                let (d3, result) = fill_and_replace path temp text d2 in (remove temp d3, result))
      ]

  -- os.ReadFile
  unfoldable pub read_file : String → Disk Content → Disk Content × Reading (Option Content)
  unfolding next_answer
  read_file path d =
      let (d1, granted) = next_answer d in
      if not granted then (d1, unreadable) else elim (lookup path d1.files) [
        | none ↦ (d1, missing)
        | some file ↦ (d1, content file.content)
      ]

  -- Whether there was no error.
  unfoldable pub verify_private_registry_permissions : String → Disk Content → Disk Content × Bool
  unfolding stat_directory is_private next_answer
  verify_private_registry_permissions path d =
      let (d1, folder) = stat_directory (dir_path path) d in
      elim folder [
        | none ↦ (d1, false)
        | some m ↦
            if not (is_private m)
            then (d1, false)
            else (let (d2, granted) = next_answer d1 in
                elim (lookup path d2.files) [
                  | none ↦ (d2, false)
                  | some file ↦ (d2, if granted then is_private file.mode else false)
                ])
      ]

abbrev pub file_error : Option FileError → Option SaveError
file_error none = none
file_error (some e) = some (file_failed e)

-- `FileRegistry`: its path is an argument of its methods.
module _ {Content : Type 0} (encode : RegistryDocument → Option Content) where
  unfoldable pub save : String → String → Disk Content → Registry → Disk Content × Option SaveError
  unfolding validate_path registry_to_document write_file_atomically
  save path temp d registry = elim (validate_path path) [
    | some e ↦ (d, some (invalid_path e))
    | none ↦ elim (registry_to_document (some registry)) [
      | err e ↦ (d, some (invalid_registry e))
      | ok document ↦ elim (encode document) [
        | none ↦ (d, some not_encoded)
        | some text ↦
            let (d1, error) = write_file_atomically path temp text d in (d1, file_error error)
      ]
    ]
  ]

module _ {Content : Type 0} (decode : Option Content → Option (RegistryDocument × Trailing)) where
  -- The whole of `Load`, which reads the permissions only of a file that it could read.
  unfoldable pub load_file : String → Disk Content → Disk Content × Loaded
  unfolding read_file verify_private_registry_permissions load validate_path
  load_file path d = elim (validate_path path) [
    | some e ↦ (d, fails e)
    | none ↦
        let (d1, reading) = read_file path d in
        elim reading [
          | missing ↦ (d1, load decode path missing true)
          | unreadable ↦ (d1, load decode path unreadable true)
          | content text ↦
              let (d2, private) = verify_private_registry_permissions path d1 in
              (d2, load decode path (content text) private)
        ]
  ]

pub data Daemon : Type 0 where
  starts_with : Registry → Daemon
  not_loaded : StoreError → Daemon
  not_reconciled : ReconcileError → Daemon
  not_persisted : SaveError → Daemon

module _ {Content : Type 0} (decode : Option Content → Option (RegistryDocument × Trailing))
    (encode : RegistryDocument → Option Content) where
  unfoldable pub load_and_reconcile : String → String → ℕ → Disk Content → Disk Content × Daemon
  unfolding load_file reconcile_after_daemon_restart save
  load_and_reconcile path temp at d =
      let (d1, loaded) = load_file decode path d in
      elim loaded [
        | fails e ↦ (d1, not_loaded e)
        | loads old ↦
            let (registry, result) = reconcile_after_daemon_restart old at in
            elim result [
              | refused e ↦ (d1, not_reconciled e)
              | changed some_changed ↦
                  if not some_changed
                  then (d1, starts_with registry)
                  else (let (d2, error) = save encode path temp d1 registry in
                      elim error [
                        | some e ↦ (d2, not_persisted e)
                        | none ↦ (d2, starts_with registry)
                      ])
            ]
      ]
