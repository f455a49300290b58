-- ===== src/Identity/Model.antt =====
-- internal/identity/model.go: the stored state of identities, its validation and its searches.
-- Paths are those of Unix. `mail.ParseAddress` is an argument: the address it finds, if any.
use Prim.Native.Char.{code}
use dovik.Prelude.{
  ℕ, suc, ◌+◌, ℤ, String, Bool, true, false, ◌&&◌, ◌||◌, not, Option, none, some, List, [], ◌∷◌,
  Map, lookup, ltb, leb, nat_beq, clean, if◌then◌else◌, ◌==◌, string_eq,
}

pub record Persona : Type 0 where
  pub id : String
  pub name : String
  pub git_name : String
  pub git_email : String
  pub host : String
  pub account : String

pub record Policy : Type 0 where
  pub preset : String
  pub exceptions : Map String Bool

pub record Project : Type 0 where
  pub id : String
  pub name : String
  pub description : String
  pub root : String
  pub repository : String
  pub persona : String
  pub alternatives : List String
  pub mode : String
  pub policy : Policy
  pub proxy_enabled : Bool

pub record State : Type 0 where
  pub version : ℤ
  pub gh_path : String
  pub personas : List Persona
  pub projects : List Project

-- slices.Contains
unfoldable pub contains : List String → String → Bool
contains [] s = false
contains (t ∷ ts) s = t == s || contains ts s

abbrev pub permissions : List String
permissions =
    "read" ∷ "comment" ∷ "create" ∷ "edit" ∷ "close" ∷ "review" ∷ "merge" ∷ "actions" ∷ "persona"
    ∷ []

abbrev pub collaboration : List String
collaboration = "read" ∷ "comment" ∷ "create" ∷ "edit" ∷ "close" ∷ "review" ∷ []

-- the `switch` over the preset
unfoldable pub preset_allows : String → String → Bool
unfolding contains
preset_allows preset operation =
    if preset == "read-only"
    then operation == "read"
    else if preset == "collaborate"
    then contains collaboration operation
    else if preset == "maintain"
    then not (operation == "persona")
    else false

unfoldable pub allows : Policy → String → Bool
unfolding contains preset_allows
allows policy operation =
    if not (contains permissions operation)
    then false
    else elim (lookup operation policy.exceptions) [
      | some allow ↦ allow
      | none ↦ preset_allows policy.preset operation
    ]

-- Tests of the characters of a text, by their code points.
unfoldable pub every : (ℕ → Bool) → String → Bool
every test String.[] = true
every test (String.◌∷◌ c s) = test (code c) && every test s

unfoldable pub characters : String → ℕ
characters String.[] = 0
characters (String.◌∷◌ c s) = suc (characters s)

abbrev between : ℕ → ℕ → ℕ → Bool
between low high n = leb low n && leb n high

abbrev is_alphanumeric : ℕ → Bool
is_alphanumeric n = between b'a' b'z' n || between b'A' b'Z' n || between b'0' b'9' n

abbrev is_identifier_rest : ℕ → Bool
is_identifier_rest n = is_alphanumeric n || nat_beq n b'_' || nat_beq n b'.' || nat_beq n b'-'

abbrev is_host_middle : ℕ → Bool
is_host_middle n = is_alphanumeric n || nat_beq n b'.' || nat_beq n b'-'

-- ^[a-zA-Z0-9][a-zA-Z0-9_.-]{0,99}$
unfoldable pub is_identifier : String → Bool
unfolding every characters
is_identifier String.[] = false
is_identifier (String.◌∷◌ c s) =
    is_alphanumeric (code c) && every is_identifier_rest s && leb (characters s) 99

-- [a-zA-Z0-9.-]*[a-zA-Z0-9]$
abbrev host_rest : String → Bool
host_rest String.[] = false
host_rest (String.◌∷◌ c String.[]) = is_alphanumeric (code c)
host_rest (String.◌∷◌ c s) = is_host_middle (code c) && host_rest s

unfoldable pub is_host_name : String → Bool
is_host_name String.[] = false
is_host_name (String.◌∷◌ c s) = is_alphanumeric (code c) && host_rest s

-- strings.Contains(text, "..")
unfoldable pub has_dots : String → Bool
has_dots String.[] = false
has_dots (String.◌∷◌ c String.[]) = false
has_dots (String.◌∷◌ c (String.◌∷◌ d s)) =
    (nat_beq (code c) b'.' && nat_beq (code d) b'.') || has_dots (String.◌∷◌ d s)

-- unicode.IsSpace
abbrev pub is_space : ℕ → Bool
is_space n =
    between 9 13 n
    || nat_beq n 32
    || nat_beq n 133
    || nat_beq n 160
    || nat_beq n 5760
    || between 8192 8202 n
    || nat_beq n 8232
    || nat_beq n 8233
    || nat_beq n 8239
    || nat_beq n 8287
    || nat_beq n 12288

-- the bytes of a code point in UTF-8
abbrev utf8_size : ℕ → ℕ
utf8_size n = if ltb n 128 then 1 else if ltb n 2048 then 2 else if ltb n 65536 then 3 else 4

-- len(text)
unfoldable pub byte_length : String → ℕ
byte_length String.[] = 0
byte_length (String.◌∷◌ c s) = utf8_size (code c) + byte_length s

abbrev is_plain : ℕ → Bool
is_plain n = not (nat_beq n 0 || nat_beq n 13 || nat_beq n 10 || nat_beq n 27)

unfoldable pub plain_text : String → ℕ → Bool
unfolding every byte_length
plain_text value limit =
    if every is_space value || ltb limit (byte_length value) then false else every is_plain value

abbrev pub is_description : ℕ → Bool
is_description n = not (nat_beq n 0 || nat_beq n 27)

pub data IdentityError : Type 0 where
  invalid_persona missing_names invalid_email : IdentityError
  unsupported_version relative_gh_path duplicate_persona : IdentityError
  invalid_project invalid_texts invalid_root duplicate_root invalid_repository : IdentityError
  unknown_persona unknown_alternative other_host unknown_mode no_preset unknown_operation :
      IdentityError
  persona_missing project_missing : IdentityError

-- `if test { return error }`, and else the rest.
abbrev pub guard : Bool → IdentityError → Option IdentityError → Option IdentityError
guard true e rest = some e
guard false e rest = rest

-- address, err := mail.ParseAddress(email); err != nil || address.Address != email
abbrev is_other_address : Option String → String → Bool
is_other_address none email = true
is_other_address (some address) email = not (address == email)

unfoldable pub validate_persona : (String → Option String) → Persona → Option IdentityError
unfolding is_identifier is_host_name has_dots plain_text
validate_persona parse_address p =
    guard
      (not (is_identifier p.id)
        || not (is_identifier p.account)
        || not (is_host_name p.host)
        || has_dots p.host)
      invalid_persona
      (guard (not (plain_text p.name 120) || not (plain_text p.git_name 120)) missing_names
        (guard (is_other_address (parse_address p.git_email) p.git_email) invalid_email none))

unfoldable pub find_persona : List Persona → String → Option Persona
find_persona [] id = none
find_persona (p ∷ ps) id = if p.id == id then some p else find_persona ps id

unfoldable pub path_key : String → String
path_key path = clean path

unfoldable pub find_project : List Project → String → String → Option Project
unfolding path_key
find_project [] id root = none
find_project (p ∷ ps) id root =
    if not (id == "") && p.id == id
    then some p
    else if id == "" && not (root == "") && path_key root == path_key p.root
    then some p
    else find_project ps id root
