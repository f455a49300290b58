-- ===== src/Identity/Store.antt =====
-- internal/identity/store.go: the file with the identities, with `protectPath` and `replaceState` of
-- internal/identity/private_unix.go and `within` of internal/identity/container.go.
-- `cloneState` copies a value: here a value is its own copy. Parameters: `json` both ways, and the
-- name that `os.CreateTemp` finds. A path resolves to itself or is resolved by the caller.
pub mod Updating
pub mod Reopening
use dovik.Prelude.{
  ℕ, ℤ, pos, String, Bool, true, false, not, ◌&&◌, ◌||◌, Option, none, some, List, [], ◌∷◌, Map,
  lookup, insert, if◌then◌else◌, ◌==◌, string_eq, is_abs, clean, split_on,
}
use dovik.Storage.{
  FileError, no_directory, not_created, not_restricted, not_written, not_synced, not_closed,
  not_replaced, folder_not_opened, folder_not_flushed, File, Disk, dir_path, next_answer, call,
  attempt, create_temp, chmod, write_file, sync, close, rename, remove, mkdir_all,
}
use dovik.Identity.Model.{Persona, Policy, Project, State, IdentityError}
use dovik.Identity.Validation.{validate_state}

-- The elements of a path: filepath.Rel compares two paths by them.
abbrev named : List String → List String
named [] = []
named (s ∷ ss) = let rest = named ss in if s == "" || s == "." then rest else s ∷ rest

unfoldable pub is_prefix : List String → List String → Bool
is_prefix [] ts = true
is_prefix (s ∷ ss) [] = false
is_prefix (s ∷ ss) (t ∷ ts) = s == t && is_prefix ss ts

-- Both paths are absolute: the relative one does not climb if the root's elements come first.
unfoldable pub within : String → String → Bool
unfolding split_on clean is_prefix
within path root =
    is_prefix (named (split_on b'/' (clean root))) (named (split_on b'/' (clean path)))

-- The errors of the functions that change a state, and of `Update` around them.
pub data ChangeError : Type 0 where
  no_personas persona_exists unknown_project : ChangeError

pub data Changed : Type 0 where
  sets : State → Changed
  stops : ChangeError → Changed

pub data StoreError : Type 0 where
  relative_path not_read not_decoded : StoreError
  change_failed : ChangeError → StoreError
  invalid_state : IdentityError → StoreError
  contains_state root_missing root_not_directory not_encoded : StoreError
  file_failed : FileError → StoreError

pub record Store : Type 0 where
  pub path : String
  pub state : State

abbrev pub empty_state : State
empty_state = record { version = pos 1; gh_path = ""; personas = []; projects = [] }

-- What the JSON decoder finds: a value, and whether the input ends behind it.
unfoldable pub decode_state : Option (State × Bool) → Option State
decode_state none = none
decode_state (some (state, at_end)) = if at_end then some state else none

module _ {Content : Type 0} where
  -- os.Lstat and os.Chmod of a file, which is no link
  abbrev pub protect_file {ℓ} :
      {A : Type ℓ} → String → Disk Content → (Disk Content → A) → (Disk Content → A) → A
  protect_file name d failed next =
      attempt (sync d) failed (λ d1. attempt (chmod 384 name d1) failed next)

  unfoldable pub protect_folder : String → Disk Content → Disk Content × Bool
  unfolding next_answer
  protect_folder path d =
      let (d1, seen) = next_answer d in
      if not seen
      then (d1, false)
      else (let (d2, granted) = next_answer d1 in
          if granted
          then (record d2 { directories = insert path 448 d2.directories }, true)
          else (d2, false))

  unfoldable pub replace_state : String → String → Disk Content → Disk Content × Option FileError
  replace_state from to d =
      attempt (rename from to d) (λ d1. (d1, some not_replaced))
        (λ d1.
          attempt (sync d1) (λ d2. (d2, some folder_not_opened))
            (λ d2.
              attempt (sync d2) (λ d3. ((close d3).0, some folder_not_flushed))
                (λ d3. ((close d3).0, none))))

  -- From `protectPath` to `file.Sync`: a step is taken if those before it had no error.
  unfoldable pub fill_state : String → Content → Disk Content → Disk Content × Option FileError
  fill_state temp text d =
      protect_file temp d (λ d1. (d1, some not_restricted))
        (λ d1.
          attempt (write_file text temp d1) (λ d2. (d2, some not_written))
            (λ d2. attempt (sync d2) (λ d3. (d3, some not_synced)) (λ d3. (d3, none))))

  -- The file is closed whatever happened, and replaces the old one if nothing did.
  unfoldable pub close_and_replace :
      String → String → Disk Content × Option FileError → Disk Content × Option FileError
  unfolding replace_state
  close_and_replace path temp (d, some e) = ((close d).0, some e)
  close_and_replace path temp (d, none) =
      attempt (close d) (λ d1. (d1, some not_closed)) (replace_state temp path)

  unfoldable pub write_state :
      String → String → Content → Disk Content → Disk Content × Option FileError
  unfolding fill_state close_and_replace remove
  write_state path temp text d =
      attempt (create_temp temp d) (λ d1. (d1, some not_created))
        (λ d1.
          let (d2, error) = close_and_replace path temp (fill_state temp text d1) in
          (remove temp d2, error))

-- Whether some project's workspace has the state or the original gh in it.
unfoldable pub contains_private : String → String → List Project → Bool
unfolding within
contains_private path gh_path [] = false
contains_private path gh_path (p ∷ ps) =
    within path p.root
    || (not (gh_path == "") && within gh_path p.root)
    || contains_private path gh_path ps

abbrev pub stored_error : Option FileError → Option StoreError
stored_error none = none
stored_error (some e) = some (file_failed e)

-- `s.state = next` is reached only without an error.
abbrev pub kept_state :
    {Content : Type 0}
    → Store
    → State
    → Disk Content × Option FileError
    → Store × Disk Content × Option StoreError
kept_state s next (d, none) = (record s { state = next }, d, none)
kept_state s next (d, some e) = (s, d, some (file_failed e))

module _ {Content : Type 0} (parse_address : String → Option String)
    (encode : State → Option Content) where
  unfoldable pub update :
      String → (State → Changed) → Store → Disk Content → Store × Disk Content × Option StoreError
  unfolding validate_state contains_private write_state
  update temp change s d = elim (change s.state) [
    | stops e ↦ (s, d, some (change_failed e))
    | sets next ↦ elim (validate_state parse_address next) [
      | some e ↦ (s, d, some (invalid_state e))
      | none ↦
          if contains_private s.path next.gh_path next.projects
          then (s, d, some contains_state)
          else elim (encode next) [
            | none ↦ (s, d, some not_encoded)
            | some text ↦ kept_state s next (write_state s.path temp text d)
          ]
    ]
  ]

-- A persona or a project over the one with its ID, or behind the others.
unfoldable pub put_persona : Persona → List Persona → List Persona
put_persona persona [] = persona ∷ []
put_persona persona (p ∷ ps) =
    if p.id == persona.id then persona ∷ ps else p ∷ put_persona persona ps

unfoldable pub put_project : Project → List Project → List Project
put_project project [] = project ∷ []
put_project project (p ∷ ps) =
    if p.id == project.id then project ∷ ps else p ∷ put_project project ps

unfoldable pub change_persona : Persona → State → Changed
unfolding put_persona
change_persona persona state = sets (record state { personas = put_persona persona state.personas })

unfoldable pub change_project : Project → State → Changed
unfolding put_project
change_project project state = sets (record state { projects = put_project project state.projects })

-- What the system says of the root of a project: where its links lead, and whether a directory is
-- there.
pub record RootInput : Type 0 where
  pub resolved : Option String
  pub is_directory : Bool

module _ {Content : Type 0} (parse_address : String → Option String)
    (encode : State → Option Content) where
  unfoldable pub set_persona :
      String → Persona → Store → Disk Content → Store × Disk Content × Option StoreError
  unfolding update change_persona
  set_persona temp persona = update parse_address encode temp (change_persona persona)

  unfoldable pub set_project :
      String → RootInput → Project → Store → Disk Content → Store × Disk Content × Option StoreError
  unfolding update change_project clean
  set_project temp input project s d = elim input.resolved [
    | none ↦ (s, d, some root_missing)
    | some root ↦
        if not input.is_directory
        then (s, d, some root_not_directory)
        else update parse_address encode temp
            (change_project (record project { root = clean root })) s d
  ]

-- What `OpenStore` returns.
pub data Opened : Type 0 where
  opens : Store → Opened
  refuses : StoreError → Opened

module _ {Content : Type 0} (parse_address : String → Option String)
    (decode : Option Content → Option (State × Bool)) where
  abbrev pub validated : String → Option State → Opened
  validated path none = refuses not_decoded
  validated path (some state) = elim (validate_state parse_address state) [
    | some e ↦ refuses (invalid_state e)
    | none ↦ opens (record { path = path; state = state })
  ]

  -- From `os.ReadFile` on
  unfoldable pub open_file : String → Disk Content → Disk Content × Opened
  unfolding next_answer validate_state decode_state
  open_file path d =
      let (d1, granted) = next_answer d in
      if not granted then (d1, refuses not_read) else elim (lookup path d1.files) [
        | none ↦ (d1, opens (record { path = path; state = empty_state }))
        | some file ↦
            protect_file path d1 (λ d2. (d2, refuses (file_failed not_restricted)))
              (λ d2. (d2, validated path (decode_state (decode file.content))))
      ]

  unfoldable pub open_store : String → Disk Content → Disk Content × Opened
  unfolding mkdir_all protect_folder open_file
  open_store path d =
      if not (is_abs path)
      then (d, refuses relative_path)
      else attempt (mkdir_all (dir_path path) 448 d)
          (λ d1. (d1, refuses (file_failed no_directory)))
          (λ d1.
            attempt (protect_folder (dir_path path) d1)
              (λ d2. (d2, refuses (file_failed not_restricted))) (open_file path))
