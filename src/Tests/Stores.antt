-- ===== src/Tests/Stores.antt =====
-- The registry's file, and the document of a registry as the content of a file.
use text.Mathlib.TextEquality.{eq_iff}
use dovik.Prelude.{
  pos, delete, String, ◌≡◌, ◌≢◌, refl, Bool, true, false, Option, none, some, List, [], ◌∷◌, lookup,
  insert, is_abs, clean,
}
use dovik.Storage.{Disk, dir_path, folder_not_flushed}
use dovik.Supervision.Document.{RegistryDocument, runtime_to_document, ok}
use dovik.Supervision.Encoding.{as_read, overrides_as_read}
use dovik.Supervision.Loading.{Trailing, at_end}
use dovik.Supervision.Saving.{save, file_failed, starts_with, load_and_reconcile}
use dovik.Supervision.Saving.Preparing.{Prepared, load_and_reconcile-Prepared}
use dovik.Supervision.Boot.{boot-IsOwned}
use dovik.Supervision.Registry.Reconcile.{settled}
use dovik.Supervision.Persister.{Persister}
use dovik.Supervision.Manager
use dovik.Supervision.Manager.{Manager, new_lifecycle_manager}
use dovik.Supervision.Lifecycle.Ownership.{IsOwned}
use dovik.Supervision.Lifecycle.Start.{start}
use dovik.Supervision.Lifecycle.Stop.{stop_begin}
use dovik.Supervision.Run.{at_rest, then_step, starts, begins_stop}
use dovik.Supervision.Saving.Filing.{fault_of, stored_document, Stores, save-Stores, file_persister}
use dovik.Supervision.Saving.Refining.{cell_saves, save_all, save_all-refines}
use dovik.Tests.Data.{shop, left_runtime, web, web_input}

abbrev pub encode_document : RegistryDocument → Option RegistryDocument
encode_document document = some (as_read document)

abbrev decode_document : Option RegistryDocument → Option (RegistryDocument × Trailing)
decode_document none = none
decode_document (some document) = some (document, at_end)

read_back :
    (document text : RegistryDocument)
    → encode_document document ≡ some text
    → decode_document (some text) ≡ some (as_read document, at_end)
read_back document text h = cc h

abbrev registry_path : String
registry_path = "/var/dovik/registry.json"

abbrev temporary_path : String
temporary_path = "/var/dovik/.registry-1.tmp"

apart : temporary_path ≢ registry_path
apart h = let same = (eq_iff temporary_path registry_path).1 h in absurd (cc same)

abbrev disk : List Bool → Disk RegistryDocument
disk answers = record { files = []; directories = []; answers = answers }

-- The flush of the directory is refused, after the file was replaced.
abbrev late_refusal : List Bool
late_refusal = true ∷ true ∷ true ∷ true ∷ true ∷ true ∷ true ∷ true ∷ true ∷ false ∷ []

late_fault :
    (save encode_document registry_path temporary_path (disk late_refusal) (shop none)).1
    ≡ some (file_failed folder_not_flushed)
unfolding save is_abs lookup insert dir_path clean
late_fault = refl

save-Stores_example :
    Stores encode_document registry_path temporary_path
      (shop none)
      (disk late_refusal)
      (save encode_document registry_path temporary_path (disk late_refusal) (shop none)).0
      (fault_of
        (save encode_document registry_path temporary_path (disk late_refusal) (shop none)).1)
save-Stores_example =
    save-Stores encode_document registry_path temporary_path (shop none) (disk late_refusal) apart

save_all-refines_example :
    stored_document decode_document registry_path
      (save_all encode_document registry_path temporary_path
        (disk late_refusal)
        (shop none ∷ shop (some left_runtime) ∷ [])).0
    ≡ cell_saves
        (shop none ∷ shop (some left_runtime) ∷ [])
        (save_all encode_document registry_path temporary_path
          (disk late_refusal)
          (shop none ∷ shop (some left_runtime) ∷ [])).1
        (stored_document decode_document registry_path (disk late_refusal))
save_all-refines_example =
    save_all-refines decode_document encode_document read_back registry_path temporary_path apart
      (shop none ∷ shop (some left_runtime) ∷ []) (disk late_refusal)

-- The file that a daemon left behind, with a process that was running.
abbrev left_disk : Disk RegistryDocument
left_disk =
    (save encode_document registry_path temporary_path (disk []) (shop (some left_runtime))).0

load_and_reconcile-Prepared_example :
    Prepared decode_document encode_document registry_path temporary_path 9 left_disk
      (load_and_reconcile decode_document encode_document registry_path temporary_path 9 left_disk)
load_and_reconcile-Prepared_example =
    load_and_reconcile-Prepared decode_document encode_document registry_path temporary_path 9
      left_disk

boots :
    (load_and_reconcile decode_document encode_document registry_path temporary_path 9 left_disk).1
    ≡ starts_with (settled 9 (shop (some left_runtime)))
unfolding load_and_reconcile save is_abs lookup insert delete dir_path clean runtime_to_document
    overrides_as_read
boots = refl

abbrev kept : Persister
kept = file_persister decode_document encode_document read_back registry_path temporary_path apart

abbrev booted : Manager kept
booted = record {
  registry = settled 9 (shop (some left_runtime));
  disk =
      (load_and_reconcile decode_document encode_document registry_path temporary_path 9
        left_disk).0;
  active = [];
  outputs = [];
  runtimes = [];
  observers = [];
  output_byte_limit = pos 100;
  output_event_limit = pos 10;
  effects = [];
}

made_booted :
    new_lifecycle_manager {P = kept}
      (some (settled 9 (shop (some left_runtime))))
      booted.disk
      (pos 100)
      (pos 10)
    ≡ Manager.ok booted
unfolding new_lifecycle_manager
made_booted = refl

-- The process is started again, and a stop is begun.
boot-IsOwned_example : IsOwned (stop_begin (start booted web web_input).0 web).0
boot-IsOwned_example =
    boot-IsOwned decode_document encode_document registry_path temporary_path 9 left_disk
      (settled 9 (shop (some left_runtime))) booted.disk (pos 100) (pos 10) booted
      (stop_begin (start booted web web_input).0 web).0 boots made_booted
      (then_step booted (start booted web web_input).0
        (stop_begin (start booted web web_input).0 web).0
        (then_step booted booted (start booted web web_input).0 (at_rest booted)
          (starts booted web web_input))
        (begins_stop (start booted web web_input).0 web))
