-- ===== src/Storage.antt =====
-- What internal/supervision/registry_store.go and internal/identity/store.go use of Go's `os`, for
-- Unix: directories and files with their permissions, and calls that the system may refuse.
-- A file holds a content, or none while it is empty or cut short. `answers` is what the system says
-- to the calls to come, one each; when none is left it grants them.
pub mod Drafts
pub mod Steps
use dovik.Prelude.{
  ℕ, ◌%◌, ◌≡◌, refl, ◌⊎◌, inl, inr, String, Bool, true, false, Option, none, some, List, [], ◌∷◌,
  Map, lookup, insert, delete, nat_beq, if◌then◌else◌, string_eq, split_on, join_with, clean, ◌⧺◌,
  arith,
}

pub record File (Content : Type 0) : Type 0 where
  pub content : Option Content
  pub mode : ℕ

pub record Disk (Content : Type 0) : Type 0 where
  pub files : Map String (File Content)
  pub directories : Map String ℕ
  pub answers : List Bool

pub data FileError : Type 0 where
  no_directory directory_not_inspected directory_not_private : FileError
  not_created not_restricted not_written not_synced not_closed not_replaced : FileError
  folder_not_opened folder_not_flushed : FileError

-- filepath.Dir
abbrev but_last : List String → List String
but_last [] = []
but_last (s ∷ []) = []
but_last (s ∷ t ∷ ts) = s ∷ but_last (t ∷ ts)

abbrev folder_of : List String → String
folder_of [] = "."
folder_of (s ∷ ss) = clean (join_with "/" (s ∷ ss) ⧺ "/")

unfoldable pub dir_path : String → String
unfolding split_on
dir_path path = folder_of (but_last (split_on b'/' path))

-- mode.Perm()&0o077 == 0
unfoldable pub is_private : ℕ → Bool
is_private mode = nat_beq (mode % 64) 0

module _ {Content : Type 0} where
  -- The system's answer to the next call.
  unfoldable pub next_answer : Disk Content → Disk Content × Bool
  next_answer d = elim d.answers [ [] ↦ (d, true) | a ∷ rest ↦ (record d { answers = rest }, a) ]

  -- A call that changes the files if it is granted.
  unfoldable pub call :
      (Map String (File Content) → Map String (File Content)) → Disk Content → Disk Content × Bool
  unfolding next_answer
  call change d =
      let (d1, granted) = next_answer d in
      if granted then (record d1 { files = change d1.files }, true) else (d1, false)

  abbrev pub on_file :
      (File Content → File Content) → String → Map String (File Content) → Map String (File Content)
  on_file change name files = elim (lookup name files) [
    | none ↦ files
    | some file ↦ insert name (change file) files
  ]

  -- os.CreateTemp, with the name that it finds
  abbrev pub create_temp : String → Disk Content → Disk Content × Bool
  create_temp name = call (insert name (record { content = none; mode = 384 }))

  -- os.Chmod
  abbrev pub chmod : ℕ → String → Disk Content → Disk Content × Bool
  chmod mode name = call (on_file (λ file. record file { mode = mode }) name)

  -- file.Write of the whole content to a new file
  abbrev pub write_file : Content → String → Disk Content → Disk Content × Bool
  write_file content name = call (on_file (λ file. record file { content = some content }) name)

  -- file.Sync and file.Close
  abbrev pub sync : Disk Content → Disk Content × Bool
  sync = call (λ files. files)

  abbrev pub close : Disk Content → Disk Content × Bool
  close = call (λ files. files)

  abbrev pub moved : String → String → Map String (File Content) → Map String (File Content)
  moved from to files = elim (lookup from files) [
    | none ↦ files
    | some file ↦ insert to file (delete from files)
  ]

  -- os.Rename
  abbrev pub rename : String → String → Disk Content → Disk Content × Bool
  rename from to = call (moved from to)

  -- os.Remove, whose error is not looked at
  unfoldable pub remove : String → Disk Content → Disk Content
  unfolding call
  remove name d = (call (delete name) d).0

  -- os.MkdirAll: a directory that is there is left as it is.
  unfoldable pub mkdir_all : String → ℕ → Disk Content → Disk Content × Bool
  unfolding next_answer
  mkdir_all path mode d =
      let (d1, granted) = next_answer d in
      if granted
      then (elim (lookup path d1.directories) [
        | none ↦ (record d1 { directories = insert path mode d1.directories }, true)
        | some old ↦ (d1, true)
      ])
      else (d1, false)

  -- if err := call; err != nil { failed }, and else the rest
  abbrev pub attempt {ℓ} :
      {A : Type ℓ} → Disk Content × Bool → (Disk Content → A) → (Disk Content → A) → A
  attempt (d, true) failed next = next d
  attempt (d, false) failed next = failed d

  -- What a call does: it is granted, or changes no file.
  pub attempt-call {ℓ κ} :
      {A : Type ℓ} (Q : A → Type κ) (change : Map String (File Content) → Map String (File Content))
      (d : Disk Content) (failed next : Disk Content → A)
      → ((d1 : Disk Content) → d1.files ≡ d.files → d1.directories ≡ d.directories → Q (failed d1))
      → ((d1 : Disk Content)
          → d1.files ≡ change d.files
          → d1.directories ≡ d.directories
          → Q (next d1))
      → Q (attempt (call change d) failed next)
  unfolding call next_answer
  attempt-call Q change d failed next denied granted = go d.answers refl
    where
      go : (answers : List Bool) → d.answers ≡ answers → Q (attempt (call change d) failed next)
      go [] e = rw (e, call) (granted (record d { files = change d.files; answers = [] }) refl refl)
      go (true ∷ rest) e =
          rw (e, call) (granted (record d { files = change d.files; answers = rest }) refl refl)
      go (false ∷ rest) e = rw (e, call) (denied (record d { answers = rest }) refl refl)

  pub close-files :
      (d : Disk Content) → ((close d).0.files ≡ d.files) × ((close d).0.directories ≡ d.directories)
  unfolding call next_answer
  close-files d = (ground arith, ground arith)

  pub remove-files :
      (name : String) (d : Disk Content)
      → ((remove name d).files ≡ d.files) ⊎ ((remove name d).files ≡ delete name d.files)
  unfolding remove call next_answer
  remove-files name d = go d.answers refl
    where
      go :
          (answers : List Bool)
          → d.answers ≡ answers
          → ((remove name d).files ≡ d.files) ⊎ ((remove name d).files ≡ delete name d.files)
      go [] e = rw e (inr refl)
      go (true ∷ rest) e = rw e (inr refl)
      go (false ∷ rest) e = rw e (inl refl)

  pub remove-directories :
      (name : String) (d : Disk Content) → (remove name d).directories ≡ d.directories
  unfolding remove call next_answer
  remove-directories name d = ground arith

  -- `replaceFile` of internal/supervision/replace_file_other.go and `replaceState` of
  -- internal/identity/private_unix.go
  unfoldable pub replace_file : String → String → Disk Content → Disk Content × Option FileError
  replace_file from to d =
      attempt (rename from to d) (λ d1. (d1, some not_replaced))
        (λ d1.
          -- os.Open of the directory
          attempt (sync d1) (λ d2. (d2, some folder_not_opened))
            (λ d2.
              attempt (sync d2) (λ d3. ((close d3).0, some folder_not_flushed))
                (λ d3. ((close d3).0, none))))
