-- ===== src/Storage/Steps.antt =====
-- The steps of an atomic write, each with what it makes of the files, errors included.
use dovik.Prelude.{String, Option, none, some, string_eq}
use dovik.Storage.{
  FileError, folder_not_flushed, replace_file, File, Disk, call, on_file, moved, attempt,
  attempt-call, sync,
}
use dovik.Storage.Drafts.{
  Kept, Written, Draft, same-Kept, same-Draft, same-Placed, edited-Draft, moved-Placed,
  close-Written,
}

module _ {Content : Type 0} where
  pub replace_file-Written :
      (path temp : String) (file : File Content) (d d1 : Disk Content)
      → Draft temp file d d1
      → Written path temp file d (replace_file temp path d1)
  unfolding replace_file
  replace_file-Written path temp file d d1 draft =
      let Q : Disk Content × Option FileError → Type 0 = Written path temp file d in
      attempt-call Q (moved temp path) d1 _ _
        (λ d2 files directories. same-Kept temp d d1 d2 draft.kept files directories)
        (λ d2 files directories.
          let placed = moved-Placed path temp file d d1 d2 draft files directories in
          attempt-call Q (λ f. f) d2 _ _ (λ d3. same-Placed path temp file d d2 d3 placed)
            (λ d3 files' directories'.
              let placed' = same-Placed path temp file d d2 d3 placed files' directories' in
              attempt-call Q (λ f. f) d3 _ _
                (λ d4 files'' directories''.
                  close-Written path temp file d d4 (some folder_not_flushed)
                    (same-Placed path temp file d d3 d4 placed' files'' directories''))
                (λ d4 files'' directories''.
                  close-Written path temp file d d4 none
                    (same-Placed path temp file d d3 d4 placed' files'' directories''))))

  -- One call on the temporary file: if it is refused nothing is changed, and else the file is.
  pub edit_step {ℓ κ} :
      {A : Type ℓ} (Q : A → Type κ) (temp : String) (file : File Content) (d d1 : Disk Content)
      (change : File Content → File Content) (failed next : Disk Content → A)
      → Draft temp file d d1
      → ((d2 : Disk Content) → Kept temp d d2 → Q (failed d2))
      → ((d2 : Disk Content) → Draft temp (change file) d d2 → Q (next d2))
      → Q (attempt (call (on_file change temp) d1) failed next)
  edit_step Q temp file d d1 change failed next draft denied granted =
      attempt-call Q (on_file change temp) d1 failed next
        (λ d2 files directories. denied d2 (same-Kept temp d d1 d2 draft.kept files directories))
        (λ d2 files directories.
          granted d2 (edited-Draft change temp file d d1 d2 draft files directories))

  pub sync_step {ℓ κ} :
      {A : Type ℓ} (Q : A → Type κ) (temp : String) (file : File Content) (d d1 : Disk Content)
      (failed next : Disk Content → A)
      → Draft temp file d d1
      → ((d2 : Disk Content) → Kept temp d d2 → Q (failed d2))
      → ((d2 : Disk Content) → Draft temp file d d2 → Q (next d2))
      → Q (attempt (sync d1) failed next)
  sync_step Q temp file d d1 failed next draft denied granted =
      attempt-call Q (λ f. f) d1 failed next
        (λ d2 files directories. denied d2 (same-Kept temp d d1 d2 draft.kept files directories))
        (λ d2 files directories. granted d2 (same-Draft temp file d d1 d2 draft files directories))

  abbrev pub written_file : Content → File Content
  written_file text = record { content = some text; mode = 384 }
