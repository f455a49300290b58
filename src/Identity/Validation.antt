-- ===== src/Identity/Validation.antt =====
-- `State.Validate` of internal/identity/model.go, loop by loop.
-- Of two texts whose case is ignored one has passed a pattern that is ASCII.
use Prim.Native.Char.{code}
use dovik.Prelude.{
  ℕ, ◌+◌, ℤ, pos, negsuc, String, Bool, true, false, ◌&&◌, ◌||◌, not, Option, none, some, List, [],
  ◌∷◌, keys, ltb, leb, nat_beq, is_abs, clean, split_on, if◌then◌else◌, ◌==◌, string_eq,
}
use dovik.Identity.Model.{
  Persona, Project, State, IdentityError, unsupported_version, relative_gh_path, duplicate_persona,
  invalid_project, invalid_texts, invalid_root, duplicate_root, invalid_repository, unknown_persona,
  unknown_alternative, other_host, unknown_mode, no_preset, unknown_operation, guard, contains,
  permissions, every, byte_length, is_description, plain_text, is_identifier, validate_persona,
  find_persona, path_key,
}

-- The Kelvin sign and the long s fold to ASCII, and no other character beyond it does.
abbrev lower : ℕ → ℕ
lower n =
    if leb b'A' n && leb n b'Z'
    then n + 32
    else if nat_beq n 8490
    then b'k'
    else if nat_beq n 383
    then b's'
    else n

-- strings.EqualFold
unfoldable pub equal_fold : String → String → Bool
equal_fold String.[] String.[] = true
equal_fold (String.◌∷◌ c s) (String.◌∷◌ d t) =
    nat_beq (lower (code c)) (lower (code d)) && equal_fold s t
equal_fold s t = false

-- what a text is not: OWNER/REPO
abbrev bad_repository : List String → Bool
bad_repository (owner ∷ repository ∷ []) =
    not (is_identifier owner) || not (is_identifier repository)
bad_repository parts = true

-- the host of the persona that `FindPersona` returns, the empty one if there is none
abbrev pub host_of : Option Persona → String
host_of none = ""
host_of (some p) = p.host

-- A loop ends at its first error; `ids` and the other lists hold what was seen so far.
unfoldable pub validate_personas :
    (String → Option String) → List String → List Persona → Option IdentityError
unfolding validate_persona contains
validate_personas parse_address ids [] = none
validate_personas parse_address ids (p ∷ ps) = elim (validate_persona parse_address p) [
  | some e ↦ some e
  | none ↦
      guard (contains ids p.id) duplicate_persona (validate_personas parse_address (p.id ∷ ids) ps)
]

-- all the persona IDs, as the map `ids` has them after its loop
abbrev pub persona_ids : List Persona → List String
persona_ids [] = []
persona_ids (p ∷ ps) = p.id ∷ persona_ids ps

unfoldable pub validate_alternatives : List Persona → String → List String → Option IdentityError
unfolding contains find_persona equal_fold
validate_alternatives personas persona [] = none
validate_alternatives personas persona (alternative ∷ rest) =
    guard (not (contains (persona_ids personas) alternative)) unknown_alternative (
      guard
        (not (
          equal_fold (host_of (find_persona personas persona))
            (host_of (find_persona personas alternative))))
        other_host (validate_alternatives personas persona rest))

unfoldable pub validate_operations : List String → Option IdentityError
unfolding contains
validate_operations [] = none
validate_operations (operation ∷ rest) =
    guard (not (contains permissions operation)) unknown_operation (validate_operations rest)

-- The checks of one project that do not look at the others.
unfoldable pub validate_details : List Persona → Project → Option IdentityError
unfolding contains validate_alternatives validate_operations is_identifier split_on
validate_details personas p =
    guard (bad_repository (split_on b'/' p.repository)) invalid_repository (
      guard (not (contains (persona_ids personas) p.persona)) unknown_persona
        (elim (validate_alternatives personas p.persona p.alternatives) [
          | some e ↦ some e
          | none ↦
              guard (not (p.mode == "proxy-level") && not (p.mode == "agent-isolation"))
                unknown_mode
                (guard
                  (not (contains ("read-only" ∷ "collaborate" ∷ "maintain" ∷ []) p.policy.preset))
                  no_preset (validate_operations (keys p.policy.exceptions)))
        ]))

unfoldable pub validate_projects :
    List Persona → List String → List String → List Project → Option IdentityError
unfolding is_identifier contains plain_text every byte_length is_abs clean path_key validate_details
validate_projects personas projects roots [] = none
validate_projects personas projects roots (p ∷ ps) =
    guard (not (is_identifier p.id) || contains projects p.id) invalid_project (
      guard
        (not (plain_text p.name 120)
          || ltb 4096 (byte_length p.description)
          || not (every is_description p.description))
        invalid_texts
        (guard (not (is_abs p.root) || not (clean p.root == p.root)) invalid_root (
          guard (contains roots (path_key p.root)) duplicate_root
            (elim (validate_details personas p) [
              | some e ↦ some e
              | none ↦ validate_projects personas (p.id ∷ projects) (path_key p.root ∷ roots) ps
            ]))))

abbrev is_state_version : ℤ → Bool
is_state_version (pos n) = nat_beq n 1
is_state_version (negsuc n) = false

unfoldable pub validate_state : (String → Option String) → State → Option IdentityError
unfolding validate_personas validate_projects is_abs
validate_state parse_address s = guard (not (is_state_version s.version)) unsupported_version (
    guard (not (s.gh_path == "") && not (is_abs s.gh_path)) relative_gh_path
      (elim (validate_personas parse_address [] s.personas) [
        | some e ↦ some e
        | none ↦ validate_projects s.personas [] [] s.projects
      ]))
