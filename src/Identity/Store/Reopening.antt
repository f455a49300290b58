-- ===== src/Identity/Store/Reopening.antt =====
-- What `OpenStore` reads after an `Update`.
use mathlib.Core.Path.{subst}
use dovik.Prelude.{
  ℕ, String, ◌≡◌, ◌≢◌, refl, sym, ap, ◌∙◌, Bool, true, Option, none, some, [], Map, lookup, insert,
  is_abs, Option-cases, inl, inr, string_eq,
}
use dovik.Storage.{File, Disk, dir_path, next_answer, call, mkdir_all}
use dovik.Storage.Steps.{written_file}
use dovik.Identity.Model.{State}
use dovik.Identity.Validation.{validate_state}
use dovik.Identity.Store.{
  Changed, StoreError, Store, update, open_file, open_store, opens, validated, protect_folder,
  decode_state,
}
use dovik.Identity.Store.Updating.{update-Updated, Updated}

-- a system that grants every call
abbrev granting : {Content : Type 0} → Map String (File Content) → Map String ℕ → Disk Content
granting files directories = record { files = files; directories = directories; answers = [] }

mkdir_all-granting :
    {Content : Type 0} (path : String) (mode : ℕ) (files : Map String (File Content))
    (directories : Map String ℕ)
    → (directories' : Map String ℕ) × (mkdir_all path mode (granting files directories)
        ≡ (granting files directories', true))
unfolding mkdir_all next_answer
mkdir_all-granting path mode files directories = elim (Option-cases (lookup path directories)) [
  | inl e ↦ (insert path mode directories, rw (e, mkdir_all) refl)
  | inr (old, e) ↦ (directories, rw (e, mkdir_all) refl)
]

module _ {Content : Type 0} (parse_address : String → Option String)
    (decode : Option Content → Option (State × Bool)) (encode : State → Option Content) where
  -- `json` gives this state back. It writes the entries of a map in the order of their keys, so that
  -- this is asked of the state that is written and of no other.
  abbrev pub ReadBack : State → Type 0
  ReadBack state =
      (text : Content) → encode state ≡ some text → decode (some text) ≡ some (state, true)

  open_file-holds :
      (path : String) (state : State) (text : Content) (files : Map String (File Content))
      (directories : Map String ℕ)
      → ReadBack state
      → validate_state parse_address state ≡ none
      → encode state ≡ some text
      → lookup path files ≡ some (written_file text)
      → (open_file parse_address decode path (granting files directories)).1
        ≡ opens (record { path = path; state = state })
  unfolding open_file next_answer decode_state call
  open_file-holds path state text files directories back valid encoded at =
      rw (at, open_file) (rw (back text encoded) (rw (valid, validated) refl))

  open_store-holds :
      (path : String) (state : State) (text : Content) (files : Map String (File Content))
      (directories : Map String ℕ)
      → is_abs path ≡ true
      → ReadBack state
      → validate_state parse_address state ≡ none
      → encode state ≡ some text
      → lookup path files ≡ some (written_file text)
      → (open_store parse_address decode path (granting files directories)).1
        ≡ opens (record { path = path; state = state })
  unfolding open_store protect_folder next_answer
  open_store-holds path state text files directories absolute back valid encoded at =
      let (made, e) = mkdir_all-granting (dir_path path) 448 files directories in
      rw (absolute, e, open_store)
        (open_file-holds path state text files (insert (dir_path path) 448 made) back valid encoded
          at)

  reopened :
      (temp : String) (change : State → Changed) (s : Store) (d : Disk Content)
      (result : Store × Disk Content × Option StoreError)
      → is_abs s.path ≡ true
      → ReadBack result.0.state
      → Updated encode temp parse_address change s d result
      → result.2 ≡ none
      → (open_store parse_address decode s.path (granting result.1.files result.1.directories)).1
        ≡ opens result.0
  reopened temp change s d (s', d', none) absolute back
        (next, e1, e2, sound, (text, e3, at), others) e =
      let next_back : ReadBack next = subst ReadBack (ap (λ (x : Store). x.state) e2) back in
      open_store-holds s.path next text d'.files d'.directories absolute next_back sound.valid e3 at
      ∙ ap opens (sym e2)
  reopened temp change s d (s', d', some error) absolute back updated e = absurd (cc e)

  -- Where `json` gives back the state that was written: after an update without an error, opening the
  -- store anew, with every call granted, gives the store as it is in memory.
  pub update-open_store :
      (temp : String) (change : State → Changed) (s : Store) (d : Disk Content)
      → temp ≢ s.path
      → is_abs s.path ≡ true
      → ReadBack (update parse_address encode temp change s d).0.state
      → (update parse_address encode temp change s d).2 ≡ none
      → (open_store parse_address decode s.path
          (record (update parse_address encode temp change s d).1 { answers = [] })).1
        ≡ opens (update parse_address encode temp change s d).0
  update-open_store temp change s d ne absolute back e =
      reopened temp change s d (update parse_address encode temp change s d) absolute back
        (update-Updated parse_address encode temp change s d ne) e
