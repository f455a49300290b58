-- ===== src/Supervision/Lifecycle/Command.antt =====
-- internal/supervision/process.go and environment.go: the command of a definition.
use dovik.Prelude.{
  String, ◌⧺◌, Option, none, some, List, [], ◌∷◌, ◌++◌, Map, lookup, keys, sort_strings, string_eq,
  if◌then◌else◌, ◌==◌,
}
use dovik.Supervision.Registry.{ProcessDefinition}

pub record Command : Type 0 where
  pub path : String
  pub arguments : List String
  pub directory : String
  pub environment : List String

-- overrides[key], for a key of the map
abbrev override_of : Map String String → String → String
override_of overrides key = elim (lookup key overrides) [ none ↦ "" | some value ↦ value ]

abbrev override_lines : Map String String → List String → List String
override_lines overrides [] = []
override_lines overrides (key ∷ ids) =
    (key ⧺ "=" ⧺ override_of overrides key) ∷ override_lines overrides ids

-- `inherited` is `os.Environ()`; a nil map has no entries.
unfoldable pub append_environment : List String → Option (Map String String) → List String
append_environment inherited none = inherited
append_environment inherited (some overrides) =
    inherited ++ override_lines overrides (sort_strings (keys overrides))

unfoldable pub new_command : List String → ProcessDefinition → Command
unfolding append_environment
new_command inherited definition = record {
  path = definition.command;
  arguments = definition.arguments;
  directory = if definition.working_directory == "" then "." else definition.working_directory;
  environment = append_environment inherited definition.environment_overrides;
}
