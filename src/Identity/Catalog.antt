-- ===== src/Identity/Catalog.antt =====
-- `Authorize` of internal/identity/catalog.go: the loop over the arguments of a command.
-- The input is a text; its length is that of its UTF-8.
use Prim.Native.Char.{code}
use dovik.Prelude.{
  ℕ, ◌+◌, ◌*◌, ◌-◌, String, Bool, true, false, not, ◌&&◌, ◌||◌, Option, none, some, List, [], ◌∷◌,
  ◌++◌, Map, lookup, insert, ltb, leb, nat_beq, is_some, if◌then◌else◌, ◌==◌, string_eq, split_on,
  ◌⧺◌,
}
use dovik.Identity.Model.{Persona, Project, contains, every}
use dovik.Identity.Validation.{equal_fold}
use dovik.Identity.Commands.{CommandSpec, short_flags}

abbrev is_digit : ℕ → Bool
is_digit n = leb b'0' n && leb n b'9'

abbrev is_word : ℕ → Bool
is_word n = is_digit n || (leb b'a' n && leb n b'z') || (leb b'A' n && leb n b'Z')

abbrev is_name_rest : ℕ → Bool
is_name_rest n = is_word n || nat_beq n b'_' || nat_beq n b'.' || nat_beq n b'-'

-- ^[1-9][0-9]*$
unfoldable pub is_number : String → Bool
unfolding every
is_number String.[] = false
is_number (String.◌∷◌ c s) = is_digit (code c) && not (nat_beq (code c) b'0') && every is_digit s

-- ^[a-zA-Z0-9][a-zA-Z0-9_.-]*$
unfoldable pub is_workflow_name : String → Bool
unfolding every
is_workflow_name String.[] = false
is_workflow_name (String.◌∷◌ c s) = is_word (code c) && every is_name_rest s

-- strings.HasPrefix
unfoldable pub starts_with : String → String → Bool
starts_with s String.[] = true
starts_with String.[] (String.◌∷◌ d t) = false
starts_with (String.◌∷◌ c s) (String.◌∷◌ d t) = nat_beq (code c) (code d) && starts_with s t

-- the text after its first `n` characters
abbrev drop_text : String → String → String
drop_text s String.[] = s
drop_text String.[] (String.◌∷◌ d t) = ""
drop_text (String.◌∷◌ c s) (String.◌∷◌ d t) = drop_text s t

-- strings.TrimPrefix
unfoldable pub trim_prefix : String → String → String
unfolding starts_with
trim_prefix s prefix = if starts_with s prefix then drop_text s prefix else s

-- strings.Cut at a character: what stands before, what stands behind, and whether it is there
unfoldable pub cut : ℕ → String → String × String × Bool
cut separator String.[] = ("", "", false)
cut separator (String.◌∷◌ c s) =
    let (before, after, found) = cut separator s in
    if nat_beq (code c) separator then ("", s, true) else (String.◌∷◌ c before, after, found)

-- the number that decimal digits mean, if all are digits
unfoldable pub decimal : ℕ → String → Option ℕ
decimal n String.[] = some n
decimal n (String.◌∷◌ c s) =
    let rest = decimal (n * 10 + (code c - b'0')) s in if is_digit (code c) then rest else none

-- strconv.Atoi, for a number that is not below 0
abbrev pub unsigned : String → String
unsigned String.[] = ""
unsigned (String.◌∷◌ c s) = if nat_beq (code c) b'+' then s else String.◌∷◌ c s

abbrev in_limit : Option ℕ → Bool
in_limit none = false
in_limit (some n) = leb 1 n && leb n 1000

-- n, e := strconv.Atoi(value); e == nil && n >= 1 && n <= 1000
unfoldable pub is_limit : String → Bool
unfolding decimal
is_limit value =
    let digits = unsigned value in if digits == "" then false else in_limit (decimal 0 digits)

unfoldable pub same_repository : String → Project → Persona → Bool
unfolding equal_fold
same_repository value p persona =
    equal_fold value p.repository || equal_fold value (persona.host ⧺ "/" ⧺ p.repository)

-- The variables of the loop over the arguments; `values` has each flag with its value.
pub record Parsed : Type 0 where
  pub values : Map String String
  pub output : List String
  pub positional : ℕ

-- What the body of the loop does with an argument: it denies, goes on, or takes the next argument as
-- the value of a flag.
pub data Step : Type 0 where
  denies : Step
  goes_on : Parsed → Step
  wants_value : String → Step

module _ (project : Project) (persona : Persona) (name : String) (spec : CommandSpec) where
  unfoldable pub positional_step : String → Parsed → Step
  unfolding is_workflow_name is_number starts_with
  positional_step arg st =
      if not spec.positional || ltb 0 st.positional
      then denies
      else if not (if starts_with name "workflow " then is_workflow_name arg else is_number arg)
      then denies
      else goes_on (record st { output = st.output ++ arg ∷ []; positional = st.positional + 1 })

  unfoldable pub is_value_flag : String → Bool
  unfolding contains split_on
  is_value_flag flag =
      contains (split_on b',' spec.values) flag
      || flag == "repo"
      || (spec.permission == "read" && contains ("json" ∷ "jq" ∷ "template" ∷ []) flag)

  unfoldable pub is_boolean_flag : String → Bool
  unfolding contains split_on
  is_boolean_flag flag = contains (split_on b',' spec.booleans) flag && not (flag == "")

  -- From `values[flag] = value` to the end of the body.
  unfoldable pub take_value : String → String → Parsed → Option Parsed
  unfolding same_repository is_limit
  take_value flag value st =
      let st1 = record st { values = insert flag value st.values } in
      if flag == "repo"
      then (if not (same_repository value project persona) then none else some st1)
      else if flag == "body-file" && not (value == "-")
      then none
      else if flag == "limit" && not (is_limit value)
      then none
      else some (record st1 { output = st.output ++ ("--" ⧺ flag) ∷ value ∷ [] })

  abbrev pub of_taken : Option Parsed → Step
  of_taken none = denies
  of_taken (some st) = goes_on st

  -- The checks of a flag that has a name.
  unfoldable pub flag_step : String → String → Bool → Parsed → Step
  unfolding is_value_flag is_boolean_flag take_value
  flag_step flag value has_value st =
      if flag == ""
      then denies
      else if not (is_value_flag flag) && not (is_boolean_flag flag)
      then denies
      else if is_some (lookup flag st.values) && not (flag == "raw-field")
      then denies
      else if is_boolean_flag flag
      then (if has_value
          then denies
          else goes_on (record st {
            values = insert flag "true" st.values;
            output = st.output ++ ("--" ⧺ flag) ∷ [];
          }))
      else if not has_value
      then wants_value flag
      else of_taken (take_value flag value st)

  -- the long name of a short flag, empty if there is none
  abbrev pub long_name : Option String → String
  long_name none = ""
  long_name (some flag) = flag

  unfoldable pub argument_step : String → Parsed → Step
  unfolding starts_with positional_step trim_prefix cut flag_step short_flags
  argument_step arg st =
      if not (starts_with arg "-")
      then positional_step arg st
      else (let (flag, value, has_value) = cut b'=' (trim_prefix arg "--") in
          if starts_with arg "--"
          then flag_step flag value has_value st
          else flag_step (long_name (lookup (trim_prefix arg "-") short_flags)) value has_value st)

  -- The loop over the arguments behind the first two.
  unfoldable pub argument_loop : List String → Parsed → Option Parsed
  unfolding argument_step take_value
  argument_loop [] st = some st
  argument_loop (arg ∷ []) st = elim (argument_step arg st) [
    | denies ↦ none
    | goes_on st' ↦ some st'
    | wants_value flag ↦ none
  ]
  argument_loop (arg ∷ next ∷ rest) st = elim (argument_step arg st) [
    | denies ↦ none
    | goes_on st' ↦ argument_loop (next ∷ rest) st'
    | wants_value flag ↦ elim (take_value flag next st) [
      | none ↦ none
      | some st' ↦ argument_loop rest st'
    ]
  ]
