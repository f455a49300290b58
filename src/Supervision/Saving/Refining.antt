-- ===== src/Supervision/Saving/Refining.antt =====
-- `FileRegistry` against a store that is one cell, and what `Load` reads after `Save`.
use dovik.Prelude.{String, ◌≡◌, ◌≢◌, refl, ◌∙◌, ap, Option, none, some, List, [], ◌∷◌, string_eq}
use dovik.Storage.{Disk}
use dovik.Supervision.Encoding.{as_read}
use dovik.Supervision.Registry.{Registry}
use dovik.Supervision.Document.{RegistryDocument, registry_to_document, Result, ok, err}
use dovik.Supervision.Loading.{Trailing, at_end}
use dovik.Supervision.Persister.{Fault, not_written, not_flushed}
use dovik.Supervision.Saving.Filing.{
  stored_document, save_registry, NewFile-stored, same_document, file_of,
}

-- The specification: one cell with a document. A save puts the registry's document there, in the form
-- in which JSON gives it back, or, if it
-- fails before the file is replaced, leaves the cell.
abbrev document_of : Result RegistryDocument → Option RegistryDocument
document_of (ok document) = some (as_read document)
document_of (err e) = none

abbrev pub cell_save : Registry → Option Fault → Option RegistryDocument → Option RegistryDocument
cell_save registry (some not_written) cell = cell
cell_save registry fault cell = document_of (registry_to_document (some registry))

abbrev pub cell_saves :
    List Registry → List (Option Fault) → Option RegistryDocument → Option RegistryDocument
cell_saves [] faults cell = cell
cell_saves (r ∷ rs) [] cell = cell
cell_saves (r ∷ rs) (fault ∷ faults) cell = cell_saves rs faults (cell_save r fault cell)

module _ {Content : Type 0} (encode : RegistryDocument → Option Content) (path temp : String) where
  -- Saves one after the other, with the fault of each.
  abbrev pub save_all : Disk Content → List Registry → Disk Content × List (Option Fault)
  save_all d [] = (d, [])
  save_all d (r ∷ rs) =
      let (d1, fault) = save_registry encode path temp d r in
      let (d2, faults) = save_all d1 rs in (d2, fault ∷ faults)

module _ {Content : Type 0} (decode : Option Content → Option (RegistryDocument × Trailing))
    (encode : RegistryDocument → Option Content)
    (read_back : (document : RegistryDocument) (text : Content)
      → encode document ≡ some text
      → decode (some text) ≡ some (as_read document, at_end))
    (path temp : String) (ne : temp ≢ path) where
  save-cell :
      (d : Disk Content) (registry : Registry) (fault : Option Fault)
      → (save_registry encode path temp d registry).1 ≡ fault
      → stored_document decode path (save_registry encode path temp d registry).0
        ≡ cell_save registry fault (stored_document decode path d)
  save-cell d registry (some not_written) h =
      same_document decode encode read_back path temp ne d
        (save_registry encode path temp d registry).0
        (file_of decode encode read_back path temp ne d registry (some not_written) h)
  save-cell d registry (some not_flushed) h =
      let (document, e, stored) =
        NewFile-stored decode encode read_back path temp ne registry
          (save_registry encode path temp d registry).0
          (file_of decode encode read_back path temp ne d registry (some not_flushed) h) in
      rw e stored
  save-cell d registry none h =
      let (document, e, stored) =
        NewFile-stored decode encode read_back path temp ne registry
          (save_registry encode path temp d registry).0
          (file_of decode encode read_back path temp ne d registry none h) in
      rw e stored

  -- Where `json` gives back what it wrote, up to what it does not tell apart, and whatever registries
  -- are saved one after the other, and whichever calls the system refuses, the
  -- document in the file is what the one-cell store holds after the same saves with the same faults.
  pub save_all-refines :
      (registries : List Registry) (d : Disk Content)
      → stored_document decode path (save_all encode path temp d registries).0
        ≡ cell_saves registries
            (save_all encode path temp d registries).1
            (stored_document decode path d)
  save_all-refines [] d = refl
  save_all-refines (r ∷ rs) d =
      save_all-refines rs (save_registry encode path temp d r).0
      ∙ ap (cell_saves rs (save_all encode path temp (save_registry encode path temp d r).0 rs).1)
          (save-cell d r (save_registry encode path temp d r).1 refl)

  -- a system that grants every call
  abbrev granting : Disk Content → Disk Content
  granting d = record d { answers = [] }
