-- ===== src/Supervision/Persister.antt =====
-- `registryPersister` of internal/supervision/lifecycle.go: what the manager needs of a store.
use dovik.Prelude.{◌≡◌, Option, none, some}
use dovik.Supervision.Registry.{Registry}
use dovik.Supervision.Encoding.{as_read}
use dovik.Supervision.Document.{RegistryDocument, registry_to_document, ok}

-- Whether a save failed before the file was replaced, or when the change was to reach the medium.
pub data Fault : Type 0 where
  not_written not_flushed : Fault

-- `Disk` is the store and whatever decides its faults; `stored` is the document that it holds, as it
-- is read back.
-- A save that succeeds leaves the document of the registry, and so does one whose last step, the
-- flush of the directory, fails; one that fails earlier leaves the old document.
pub record Persister : Type 1 where
  pub Disk : Type 0
  pub save : Disk → Registry → Disk × Option Fault
  pub stored : Disk → Option RegistryDocument
  pub save_ok :
      (d : Disk) (r : Registry)
      → (save d r).1 ≡ none
      → (document : RegistryDocument) × (registry_to_document (some r) ≡ ok document)
        × (stored (save d r).0 ≡ some (as_read document))
  pub save_failed :
      (d : Disk) (r : Registry) → (save d r).1 ≡ some not_written → stored (save d r).0 ≡ stored d
  pub save_unflushed :
      (d : Disk) (r : Registry)
      → (save d r).1 ≡ some not_flushed
      → (document : RegistryDocument) × (registry_to_document (some r) ≡ ok document)
        × (stored (save d r).0 ≡ some (as_read document))

-- The store holds the document of the registry.
abbrev pub Holds : (P : Persister) → P.Disk → Registry → Type 0
Holds P disk registry =
    (document : RegistryDocument) × (registry_to_document (some registry) ≡ ok document)
    × (P.stored disk ≡ some (as_read document))
