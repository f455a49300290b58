-- ===== src/Identity/Store/Updating.antt =====
-- `Update` on every branch: what the store and the files are afterwards.
use dovik.Prelude.{
  String, ◌≡◌, ◌≢◌, refl, true, false, Option, none, some, Option-cases, Bool-cases, inl, inr, ◌⊎◌,
  lookup, insert, string_eq,
}
use dovik.Storage.{
  FileError, not_restricted, not_written, not_synced, not_closed, File, Disk, attempt-call,
  replace_file,
}
use dovik.Storage.Drafts.{
  is_late, reached, Kept, After, Written, Draft, close-Written, removed-After, created-Draft,
}
use dovik.Storage.Steps.{edit_step, sync_step, written_file, replace_file-Written}
use dovik.Identity.Model.{State}
use dovik.Identity.Validation.{validate_state}
use dovik.Identity.Store.{
  Changed, sets, stops, StoreError, change_failed, invalid_state, contains_state, not_encoded,
  file_failed, kept_state, Store, replace_state, fill_state, close_and_replace, write_state,
  contains_private, update,
}

module _ {Content : Type 0} where
  replace_state-Written :
      (path temp : String) (file : File Content) (d d1 : Disk Content)
      → Draft temp file d d1
      → Written path temp file d (replace_state temp path d1)
  unfolding replace_state replace_file
  replace_state-Written path temp file d d1 draft = replace_file-Written path temp file d d1 draft

  -- Closing after an error, and closing and replacing after none.
  failed-Written :
      (path temp : String) (file : File Content) (d d1 : Disk Content) (e : FileError)
      → is_late e ≡ false
      → Kept temp d d1
      → Written path temp file d (close_and_replace path temp (d1, some e))
  unfolding close_and_replace
  failed-Written path temp file d d1 e early kept =
      close-Written path temp file d d1 (some e) (rw early kept)

  filled-Written :
      (path temp : String) (file : File Content) (d d1 : Disk Content)
      → Draft temp file d d1
      → Written path temp file d (close_and_replace path temp (d1, none))
  unfolding close_and_replace
  filled-Written path temp file d d1 draft =
      sync_step (Written path temp file d) temp file d d1 (λ d2. (d2, some not_closed))
        (replace_state temp path) draft (λ d2 kept. kept)
        (λ d2. replace_state-Written path temp file d d2)

  fill_state-Written :
      (path temp : String) (text : Content) (file : File Content) (d d1 : Disk Content)
      → Draft temp file d d1
      → Written path temp
          (written_file text)
          d
          (close_and_replace path temp (fill_state temp text d1))
  unfolding fill_state
  fill_state-Written path temp text file d d1 draft =
      let target = written_file text in
      let Q : Disk Content × Option FileError → Type 0 =
        λ r. Written path temp target d (close_and_replace path temp r) in
      sync_step Q temp file d d1 _ _ draft
        (λ d2. failed-Written path temp target d d2 not_restricted refl)
        (λ d2 draft2.
          edit_step Q temp file d d2 (λ f. record f { mode = 384 }) _ _ draft2
            (λ d3. failed-Written path temp target d d3 not_restricted refl)
            (λ d3 draft3.
              edit_step Q temp (record file { mode = 384 }) d d3
                (λ f. record f { content = some text }) _ _ draft3
                (λ d4. failed-Written path temp target d d4 not_written refl)
                (λ d4 draft4.
                  sync_step Q temp target d d4 _ _ draft4
                    (λ d5. failed-Written path temp target d d5 not_synced refl)
                    (λ d5. filled-Written path temp target d d5))))

  write_state-Written :
      (path temp : String) (text : Content) (d : Disk Content)
      → temp ≢ path
      → Written path temp (written_file text) d (write_state path temp text d)
  unfolding write_state
  write_state-Written path temp text d ne =
      let empty : File Content = record { content = none; mode = 384 } in
      attempt-call (Written path temp (written_file text) d) (insert temp empty) d _ _
        (λ d1 files directories. record {
          others = λ name ne'. rw files refl;
          directories = directories;
        })
        (λ d1 files directories.
          let (d2, error) = close_and_replace path temp (fill_state temp text d1) in
          removed-After path temp (written_file text) d d2 (reached error) ne (
            fill_state-Written path temp text empty d d1
              (created-Draft temp empty d d1 files directories)))

-- A state that `Update` lets through: it is valid, and no workspace has the state or gh in it.
pub record Sound (parse_address : String → Option String) (s : Store) : Type 0 where
  pub valid : validate_state parse_address s.state ≡ none
  pub apart : contains_private s.path s.state.gh_path s.state.projects ≡ false

module _ {Content : Type 0} (encode : State → Option Content) (temp : String) where
  -- The private file at the path has a state.
  abbrev pub HoldsState : String → State → Disk Content → Type 0
  HoldsState path state d =
      (text : Content) × (encode state ≡ some text)
      × (lookup path d.files ≡ some (written_file text))

  abbrev pub OthersKept : String → Disk Content → Disk Content → Type 0
  OthersKept path d d' =
      (name : String) → temp ≢ name → path ≢ name → lookup name d'.files ≡ lookup name d.files

  -- What the file holds after an error: what it held, or the state that was asked for, if the error
  -- came after the file was replaced.
  abbrev pub FileKept :
      (State → Changed) → Store → Disk Content → Disk Content → StoreError → Type 0
  FileKept change s d d' e =
      (lookup s.path d'.files ≡ lookup s.path d.files)
      ⊎ ((late : FileError) × (is_late late ≡ true)
          × (e ≡ file_failed late)
          × ((next : State) × (change s.state ≡ sets next) × HoldsState s.path next d'))

  abbrev pub Updated :
      (String → Option String)
      → (State → Changed)
      → Store
      → Disk Content
      → Store × Disk Content × Option StoreError
      → Type 0
  Updated parse_address change s d (s', d', none) =
      (next : State) × (change s.state ≡ sets next)
      × (s' ≡ record s { state = next })
      × Sound parse_address (record s { state = next })
      × HoldsState s.path next d'
      × OthersKept s.path d d'
  Updated parse_address change s d (s', d', some e) =
      (s' ≡ s) × FileKept change s d d' e × OthersKept s.path d d'

module _ {Content : Type 0} (parse_address : String → Option String)
    (encode : State → Option Content) (temp : String) (change : State → Changed) (s : Store)
    (d : Disk Content) where
  refused-Updated : (e : StoreError) → Updated encode temp parse_address change s d (s, d, some e)
  refused-Updated e = (refl, inl refl, λ name ne ne'. refl)

  kept_state-Updated :
      (next : State) (text : Content) (d' : Disk Content) (error : Option FileError)
      → temp ≢ s.path
      → change s.state ≡ sets next
      → Sound parse_address (record s { state = next })
      → encode next ≡ some text
      → Written s.path temp (written_file text) d (d', error)
      → Updated encode temp parse_address change s d (kept_state s next (d', error))
  kept_state-Updated next text d' none ne e1 sound e2 h =
      (next, e1, refl, sound, (text, e2, h.at), h.others)
  kept_state-Updated next text d' (some e) ne e1 sound e2 h = elim (Bool-cases (is_late e)) [
    | inl late ↦
        let placed : After s.path temp (written_file text) d d' true = rw late at h in
        (refl, inr (e, late, refl, (next, e1, (text, e2, placed.at))), placed.others)
    | inr early ↦
        let kept : After s.path temp (written_file text) d d' false = rw early at h in
        (refl, inl (kept.others s.path ne), λ name ne1 ne2. kept.others name ne1)
  ]

  -- An update without an error has set the state that its function asked for: that state is valid,
  -- keeps workspaces apart from the private files, and is in the file. After an error the state in
  -- memory is the old one, and so is the file, unless the error came after the file was replaced. No
  -- other file but the temporary one is touched.
  pub update-Updated :
      temp ≢ s.path
      → Updated encode temp parse_address change s d (update parse_address encode temp change s d)
  unfolding update
  update-Updated ne = go (change s.state) refl
    where
      go :
          (changed : Changed)
          → change s.state ≡ changed
          → Updated encode temp parse_address change s d
              (update parse_address encode temp change s d)
      go (stops e) p = rw (p, update) (refused-Updated (change_failed e))
      go (sets next) p = elim (Option-cases (validate_state parse_address next)) [
        | inr (e, q) ↦ rw (p, q, update) (refused-Updated (invalid_state e))
        | inl q ↦ elim (Bool-cases (contains_private s.path next.gh_path next.projects)) [
          | inl r ↦ rw (p, q, r, update) (refused-Updated contains_state)
          | inr r ↦ elim (Option-cases (encode next)) [
            | inl t ↦ rw (p, q, r, t, update) (refused-Updated not_encoded)
            | inr (text, t) ↦
                rw (p, q, r, t, update)
                  (let (d', error) = write_state s.path temp text d in
                    kept_state-Updated next text d' error ne p (record { valid = q; apart = r }) t
                      (write_state-Written s.path temp text d ne))
          ]
        ]
      ]
