-- ===== src/Supervision/Encoding.antt =====
-- What `encoding/json` makes of internal/supervision/registry_document.go: the document that is read
-- back is the one that was written, but for what the format does not tell apart. `omitempty` leaves
-- out a map of overrides that is there and has no entry, so that it is read as none; and the entries
-- of a map are written in the order of their keys.
use dovik.Prelude.{
  String, Option, none, some, List, [], ◌∷◌, map, Map, keys, lookup, sort_strings, string_eq,
}
use dovik.Supervision.Document.{RegistryDocument, ProjectDocument, ProcessDocument}

unfoldable pub sorted_entries : Map String String → List String → Map String String
unfolding lookup
sorted_entries m [] = []
sorted_entries m (key ∷ rest) =
    let later = sorted_entries m rest in
    elim (lookup key m) [ none ↦ later | some value ↦ (key, value) ∷ later ]

unfoldable pub overrides_as_read : Option (Map String String) → Option (Map String String)
unfolding sorted_entries sort_strings
overrides_as_read none = none
overrides_as_read (some []) = none
overrides_as_read (some (entry ∷ rest)) =
    some (sorted_entries (entry ∷ rest) (sort_strings (keys (entry ∷ rest))))

abbrev process_as_read : ProcessDocument → ProcessDocument
process_as_read d = record d { environment_overrides = overrides_as_read d.environment_overrides }

abbrev project_as_read : ProjectDocument → ProjectDocument
project_as_read d = record d { processes = map process_as_read d.processes }

abbrev pub as_read : RegistryDocument → RegistryDocument
as_read d = record d { projects = map project_as_read d.projects }
