-- ===== src/Identity/Authorize.antt =====
-- `Authorize`, `authorizeGitCredential` and `authorizeAPI` of internal/identity/catalog.go.
-- A denial carries no more than its message: here it is no command.
pub mod Allowing
pub mod Confined
use Prim.Native.Char.{code}
use dovik.Prelude.{
  ℕ, ◌+◌, ◌*◌, String, Bool, true, false, not, ◌&&◌, ◌||◌, Option, none, some, List, [], ◌∷◌, ◌++◌,
  map, Map, lookup, insert, length, ltb, leb, nat_beq, is_some, if◌then◌else◌, ◌==◌, string_eq,
  split_on, join_with, ◌⧺◌,
}
use dovik.Identity.Model.{Persona, Policy, Project, contains, allows, every, byte_length}
use dovik.Identity.Filter.{Bytes}
use dovik.Identity.Utf8.{text_of, split_bytes, cut_bytes}
use dovik.Identity.Validation.{equal_fold}
use dovik.Identity.Catalog.{is_number, starts_with, trim_prefix, cut, Parsed, argument_loop}
use dovik.Identity.Commands.{Invocation, Command, CommandSpec, catalog}

abbrev is_not_nul : ℕ → Bool
is_not_nul n = not (nat_beq n 0)

-- The loop over the sizes of the arguments
unfoldable pub arguments_ok : List String → Bool
unfolding byte_length every
arguments_ok [] = true
arguments_ok (arg ∷ rest) =
    if ltb 1048576 (byte_length arg) || not (every is_not_nul arg) then false else arguments_ok rest

unfoldable pub is_git_credential_invocation : Invocation → Bool
is_git_credential_invocation invocation = elim invocation.arguments [
  | [] ↦ false
  | a ∷ [] ↦ false
  | a ∷ b ∷ rest ↦ a == "auth" && b == "git-credential"
]

-- values[flag], empty if it is not there
abbrev pub value_of : String → Map String String → String
value_of flag values = elim (lookup flag values) [ none ↦ "" | some value ↦ value ]

abbrev is_set : String → Map String String → ℕ
is_set flag values = if value_of flag values == "" then 0 else 1

-- The commands whose names end in " create" or " comment"
abbrev creates : String → Bool
creates name = name == "pr create" || name == "issue create"

abbrev comments : String → Bool
comments name = name == "pr comment" || name == "issue comment"

abbrev has_body : Map String String → Bool
has_body values = not (value_of "body" values == "") || value_of "body-file" values == "-"

-- What is checked behind the loop: whether the values make a whole command.
unfoldable pub is_complete : Project → String → CommandSpec → Parsed → Bool
unfolding allows
is_complete project name spec st =
    if spec.positional && not (nat_beq st.positional 1)
    then false
    else if spec.permission == "close"
        && not (value_of "comment" st.values == "")
        && not (allows project.policy "comment")
    then false
    else if creates name && (value_of "title" st.values == "" || not (has_body st.values))
    then false
    else if name == "pr create"
        && (value_of "head" st.values == "" || value_of "base" st.values == "")
    then false
    else if comments name && not (has_body st.values)
    then false
    else if name == "pr review"
        && not (
            nat_beq
              (is_set "approve" st.values
                + is_set "request-changes" st.values
                + is_set "comment" st.values)
              1)
    then false
    else true

abbrev pub target : Project → Persona → String
target project persona = persona.host ⧺ "/" ⧺ project.repository

-- A command of the catalogue, by its two words and the arguments behind them.
unfoldable pub authorize_command :
    Project → Persona → String → String → List String → Option Command
unfolding catalog allows argument_loop is_complete
authorize_command project persona first second rest =
    let name = first ⧺ " " ⧺ second in
    elim (lookup name catalog) [
      | none ↦ none
      | some spec ↦
          if not (allows project.policy spec.permission)
          then none
          else if name == "pr create" && nat_beq (length rest) 0
          then some (record {
            arguments = "pr" ∷ "create" ∷ "--repo" ∷ target project persona ∷ [];
            permission = spec.permission;
            credential = false;
            interactive = true;
          })
          else elim (argument_loop project persona name spec rest
              (record { values = []; output = first ∷ second ∷ []; positional = 0 })) [
                | none ↦ none
                | some st ↦
                    if not (is_complete project name spec st)
                    then none
                    else some (record {
                      arguments = st.output ++ "--repo" ∷ target project persona ∷ [];
                      permission = spec.permission;
                      credential = false;
                      interactive = false;
                    })
              ]
    ]

-- The lines of a credential request, with the fields read so far; a field is read once.
unfoldable pub credential_fields : Map String String → List Bytes → Option (Map String String)
unfolding cut_bytes text_of contains
credential_fields fields [] = some fields
credential_fields fields (line ∷ rest) =
    let unchanged = credential_fields fields rest in
    let (key_bytes, value_bytes, found) = cut_bytes b'=' line in
    let key = text_of key_bytes in
    let value = text_of value_bytes in
    let read = credential_fields (insert key value fields) rest in
    if nat_beq (length line) 0
    then unchanged
    else if not found
    then none
    else if key == "capability[]"
    then (if not (contains ("authtype" ∷ "state" ∷ []) value) then none else unchanged)
    else if key == "wwwauth[]"
    then (if nat_beq (length value_bytes) 0 || ltb 4096 (length value_bytes)
        then none
        else unchanged)
    else if is_some (lookup key fields)
        || not (contains ("protocol" ∷ "host" ∷ "path" ∷ "username" ∷ []) key)
    then none
    else read

-- strings.Split(strings.ReplaceAll(text, "\r\n", "\n"), "\n"): a line loses the "\r" before its end.
unfoldable pub trim_return : Bytes → Bytes
trim_return [] = []
trim_return (a ∷ []) = if nat_beq a 13 then [] else a ∷ []
trim_return (a ∷ b ∷ rest) = a ∷ trim_return (b ∷ rest)

unfoldable pub lines_of : List Bytes → List Bytes
unfolding trim_return
lines_of [] = []
lines_of (line ∷ []) = line ∷ []
lines_of (line ∷ next ∷ rest) = trim_return line ∷ lines_of (next ∷ rest)

-- strings.Trim(text, "/") at the left, and at the right
unfoldable pub trim_slashes : String → String
trim_slashes String.[] = ""
trim_slashes (String.◌∷◌ c s) = if nat_beq (code c) b'/' then trim_slashes s else String.◌∷◌ c s

abbrev or_slash : ℕ → String → String → String
or_slash c first String.[] = if nat_beq c b'/' then "" else first
or_slash c first (String.◌∷◌ d s) = first ⧺ String.◌∷◌ d s

unfoldable pub trim_slashes_right : String → String
trim_slashes_right String.[] = ""
trim_slashes_right (String.◌∷◌ c s) =
    or_slash (code c) (String.◌∷◌ c String.[]) (trim_slashes_right s)

-- strings.TrimSuffix(text, ".git")
unfoldable pub trim_git : String → String
trim_git String.[] = ""
trim_git (String.◌∷◌ c s) =
    let rest = trim_git s in if String.◌∷◌ c s == ".git" then "" else String.◌∷◌ c rest

unfoldable pub authorize_git_credential : Project → Persona → Invocation → Option Command
unfolding credential_fields lines_of split_bytes equal_fold trim_slashes trim_slashes_right trim_git
authorize_git_credential project persona invocation = elim invocation.arguments [
  | a ∷ b ∷ c ∷ [] ↦
      if not (c == "get")
        || nat_beq (length invocation.input) 0
        || ltb 65536 (length invocation.input)
      then none
      else elim (credential_fields [] (lines_of (split_bytes 10 invocation.input))) [
        | none ↦ none
        | some fields ↦
            let path = trim_git (trim_slashes_right (trim_slashes (value_of "path" fields))) in
            if not (value_of "protocol" fields == "https")
              || not (equal_fold (value_of "host" fields) persona.host)
            then none
            else if not (path == "") && not (equal_fold path project.repository)
            then none
            else some
                (record { arguments = []; permission = ""; credential = true; interactive = false })
      ]
  | _ ↦ none
]
