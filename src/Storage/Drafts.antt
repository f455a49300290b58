-- ===== src/Storage/Drafts.antt =====
-- What the calls of an atomic write make of the files: drafts of the temporary file, and the file
-- that replaces the old one.
use dovik.Prelude.{
  String, ◌≡◌, ◌≢◌, ◌∙◌, Bool, true, false, Option, none, some, inl, inr, lookup, insert, delete,
  lookup-insert_self, lookup-insert_ne, lookup-delete_ne, string_eq,
}
use dovik.Storage.{
  FileError, folder_not_opened, folder_not_flushed, File, Disk, on_file, moved, close, remove,
  close-files, remove-files, remove-directories,
}

-- whether the file had been replaced when the error came
abbrev pub is_late : FileError → Bool
is_late folder_not_opened = true
is_late folder_not_flushed = true
is_late e = false

abbrev pub reached : Option FileError → Bool
reached none = true
reached (some e) = is_late e

module _ {Content : Type 0} where
  -- No file but the temporary one is changed.
  pub record Kept (temp : String) (d d' : Disk Content) : Type 0 where
    pub others : (name : String) → temp ≢ name → lookup name d'.files ≡ lookup name d.files
    pub directories : d'.directories ≡ d.directories

  -- A file stands at the path, and no file but that and the temporary one is changed.
  pub record Placed (path temp : String) (file : File Content) (d d' : Disk Content) : Type 0 where
    pub at : lookup path d'.files ≡ some file
    pub others :
        (name : String) → temp ≢ name → path ≢ name → lookup name d'.files ≡ lookup name d.files
    pub directories : d'.directories ≡ d.directories

  abbrev pub After : String → String → File Content → Disk Content → Disk Content → Bool → Type 0
  After path temp file d d' true = Placed path temp file d d'
  After path temp file d d' false = Kept temp d d'

  -- What is true of the files after a sequence of calls, by its error.
  abbrev pub Written :
      String → String → File Content → Disk Content → Disk Content × Option FileError → Type 0
  Written path temp file d (d', error) = After path temp file d d' (reached error)

  -- The temporary file is as said, and no other file is changed.
  pub record Draft (temp : String) (file : File Content) (d d' : Disk Content) : Type 0 where
    pub holds : lookup temp d'.files ≡ some file
    pub kept : Kept temp d d'

  pub same-Kept :
      (temp : String) (d d1 d2 : Disk Content)
      → Kept temp d d1
      → d2.files ≡ d1.files
      → d2.directories ≡ d1.directories
      → Kept temp d d2
  same-Kept temp d d1 d2 kept files directories = record {
    others = λ name ne. rw files (kept.others name ne);
    directories = directories ∙ kept.directories;
  }

  pub same-Draft :
      (temp : String) (file : File Content) (d d1 d2 : Disk Content)
      → Draft temp file d d1
      → d2.files ≡ d1.files
      → d2.directories ≡ d1.directories
      → Draft temp file d d2
  same-Draft temp file d d1 d2 draft files directories = record {
    holds = rw files draft.holds;
    kept = same-Kept temp d d1 d2 draft.kept files directories;
  }

  pub same-Placed :
      (path temp : String) (file : File Content) (d d1 d2 : Disk Content)
      → Placed path temp file d d1
      → d2.files ≡ d1.files
      → d2.directories ≡ d1.directories
      → Placed path temp file d d2
  same-Placed path temp file d d1 d2 placed files directories = record {
    at = rw files placed.at;
    others = λ name ne ne'. rw files (placed.others name ne ne');
    directories = directories ∙ placed.directories;
  }

  pub edited-Draft :
      (change : File Content → File Content) (temp : String) (file : File Content)
      (d d1 d2 : Disk Content)
      → Draft temp file d d1
      → d2.files ≡ on_file change temp d1.files
      → d2.directories ≡ d1.directories
      → Draft temp (change file) d d2
  edited-Draft change temp file d d1 d2 draft files directories =
      let written : d2.files ≡ insert temp (change file) d1.files =
        rw (draft.holds, on_file) at files in
      record {
        holds = rw written (lookup-insert_self temp (change file) d1.files);
        kept = record {
          others = λ name ne.
              rw written
                (lookup-insert_ne temp name (change file) d1.files ne ∙ draft.kept.others name ne);
          directories = directories ∙ draft.kept.directories;
        };
      }

  pub moved-Placed :
      (path temp : String) (file : File Content) (d d1 d2 : Disk Content)
      → Draft temp file d d1
      → d2.files ≡ moved temp path d1.files
      → d2.directories ≡ d1.directories
      → Placed path temp file d d2
  moved-Placed path temp file d d1 d2 draft files directories =
      let written : d2.files ≡ insert path file (delete temp d1.files) =
        rw (draft.holds, moved) at files in
      record {
        at = rw written (lookup-insert_self path file (delete temp d1.files));
        others = λ name ne ne'. rw written (
            lookup-insert_ne path name file (delete temp d1.files) ne'
            ∙ (lookup-delete_ne temp name d1.files ne ∙ draft.kept.others name ne));
        directories = directories ∙ draft.kept.directories;
      }

  pub same-After :
      (path temp : String) (file : File Content) (d d1 d2 : Disk Content) (late : Bool)
      → After path temp file d d1 late
      → d2.files ≡ d1.files
      → d2.directories ≡ d1.directories
      → After path temp file d d2 late
  same-After path temp file d d1 d2 true h files directories =
      same-Placed path temp file d d1 d2 h files directories
  same-After path temp file d d1 d2 false h files directories =
      same-Kept temp d d1 d2 h files directories

  -- `file.Close` with its error left alone
  pub close-Written :
      (path temp : String) (file : File Content) (d d1 : Disk Content) (error : Option FileError)
      → Written path temp file d (d1, error)
      → Written path temp file d ((close d1).0, error)
  close-Written path temp file d d1 error h =
      same-After path temp file d d1 (close d1).0 (reached error) h (close-files d1).0
        (close-files d1).1

  pub remove-others :
      (temp name : String) (d : Disk Content)
      → temp ≢ name
      → lookup name (remove temp d).files ≡ lookup name d.files
  remove-others temp name d ne = elim (remove-files temp d) [
    | inl e ↦ rw e
    | inr e ↦ rw e (lookup-delete_ne temp name d.files ne)
  ]

  pub removed-After :
      (path temp : String) (file : File Content) (d d1 : Disk Content) (late : Bool)
      → temp ≢ path
      → After path temp file d d1 late
      → After path temp file d (remove temp d1) late
  removed-After path temp file d d1 true ne h = record {
    at = remove-others temp path d1 ne ∙ h.at;
    others = λ name ne1 ne2. remove-others temp name d1 ne1 ∙ h.others name ne1 ne2;
    directories = remove-directories temp d1 ∙ h.directories;
  }
  removed-After path temp file d d1 false ne h = record {
    others = λ name ne1. remove-others temp name d1 ne1 ∙ h.others name ne1;
    directories = remove-directories temp d1 ∙ h.directories;
  }

  -- After a new file under the temporary name
  pub created-Draft :
      (temp : String) (file : File Content) (d d1 : Disk Content)
      → d1.files ≡ insert temp file d.files
      → d1.directories ≡ d.directories
      → Draft temp file d d1
  created-Draft temp file d d1 files directories = record {
    holds = rw files (lookup-insert_self temp file d.files);
    kept = record {
      others = λ name ne. rw files (lookup-insert_ne temp name file d.files ne);
      directories = directories;
    };
  }
