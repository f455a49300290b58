-- ===== src/Supervision/Saving/Replacing.antt =====
-- `writeFileAtomically`: the file is the old one or the whole new one, and nothing else changes.
use dovik.Prelude.{
  ℕ, String, ◌≡◌, ◌≢◌, refl, true, false, Option, none, some, Option-cases, inl, inr, lookup,
  insert, lookup-insert_self, string_eq, arith,
}
use dovik.Storage.Steps.{edit_step, sync_step, written_file, replace_file-Written}
use dovik.Storage.{
  FileError, not_restricted, not_written, not_synced, File, Disk, dir_path, is_private, next_answer,
  mkdir_all, attempt-call,
}
use dovik.Storage.Drafts.{
  is_late, reached, Written, Draft, close-Written, removed-After, created-Draft,
}
use dovik.Supervision.Saving.{
  fill_and_replace, write_file_atomically, ensure_private_directory, stat_directory,
}

module _ {Content : Type 0} where
  fill_and_replace-Written :
      (path temp : String) (text : Content) (file : File Content) (d d1 : Disk Content)
      → Draft temp file d d1
      → Written path temp (written_file text) d (fill_and_replace path temp text d1)
  unfolding fill_and_replace
  fill_and_replace-Written path temp text file d d1 draft =
      let target = written_file text in
      let Q : Disk Content × Option FileError → Type 0 = Written path temp target d in
      edit_step Q temp file d d1 (λ f. record f { mode = 384 }) _ _ draft
        (λ d2. close-Written path temp target d d2 (some not_restricted))
        (λ d2 draft2.
          edit_step Q temp (record file { mode = 384 }) d d2 (λ f. record f { content = some text })
            _ _ draft2 (λ d3. close-Written path temp target d d3 (some not_written))
            (λ d3 draft3.
              sync_step Q temp target d d3 _ _ draft3
                (λ d4. close-Written path temp target d d4 (some not_synced))
                (λ d4 draft4.
                  sync_step Q temp target d d4 _ _ draft4 (λ d5 kept. kept)
                    (λ d5. replace_file-Written path temp target d d5))))

  pub ensure-files :
      (folder : String) (d : Disk Content) → (ensure_private_directory folder d).0.files ≡ d.files
  unfolding ensure_private_directory mkdir_all stat_directory next_answer
  ensure-files folder d = ground arith

  ensure-early :
      (folder : String) (d : Disk Content) (e : FileError)
      → (ensure_private_directory folder d).1 ≡ some e
      → is_late e ≡ false
  unfolding ensure_private_directory mkdir_all stat_directory next_answer
  ensure-early folder d e h = ground (arith, h)

  pub ensure-private :
      (folder : String) (d : Disk Content)
      → (ensure_private_directory folder d).1 ≡ none
      → (mode : ℕ) × (lookup folder (ensure_private_directory folder d).0.directories ≡ some mode)
        × (is_private mode ≡ true)
  unfolding ensure_private_directory mkdir_all stat_directory next_answer
  ensure-private folder d h =
      let self = lookup-insert_self folder 448 d.directories in
      elim (Option-cases (lookup folder (ensure_private_directory folder d).0.directories)) [
        | inl e ↦ absurd (ground (arith, self, e, h))
        | inr (mode, e) ↦ (mode, e, ground (arith, self, e, h))
      ]

  pub write_file_atomically-Written :
      (path temp : String) (text : Content) (d : Disk Content)
      → temp ≢ path
      → Written path temp
          (written_file text)
          (ensure_private_directory (dir_path path) d).0
          (write_file_atomically path temp text d)
  unfolding write_file_atomically
  write_file_atomically-Written path temp text d ne =
      go (ensure_private_directory (dir_path path) d).1 refl
    where
      go :
          (error : Option FileError)
          → (ensure_private_directory (dir_path path) d).1 ≡ error
          → Written path temp
              (written_file text)
              (ensure_private_directory (dir_path path) d).0
              (write_file_atomically path temp text d)
      go (some e) h =
          rw (h, write_file_atomically)
            (rw (ensure-early (dir_path path) d e h)
              (record { others = λ name ne'. refl; directories = refl }))
      go none h =
          rw (h, write_file_atomically)
            (let d1 = (ensure_private_directory (dir_path path) d).0 in
              let empty : File Content = record { content = none; mode = 384 } in
              attempt-call (Written path temp (written_file text) d1) (insert temp empty) d1 _ _
                (λ d2 files directories. record {
                  others = λ name ne'. rw files refl;
                  directories = directories;
                })
                (λ d2 files directories.
                  let draft = created-Draft temp empty d1 d2 files directories in
                  removed-After path temp (written_file text) d1
                    (fill_and_replace path temp text d2).0
                    (reached (fill_and_replace path temp text d2).1) ne
                    (fill_and_replace-Written path temp text empty d1 d2 draft)))

  -- Where the file was replaced, its directory had been found private.
  pub write_file_atomically-private :
      (path temp : String) (text : Content) (d : Disk Content)
      → reached (write_file_atomically path temp text d).1 ≡ true
      → (mode : ℕ) × (lookup
            (dir_path path)
            (ensure_private_directory (dir_path path) d).0.directories
          ≡ some mode)
        × (is_private mode ≡ true)
  unfolding write_file_atomically
  write_file_atomically-private path temp text d h =
      elim (Option-cases (ensure_private_directory (dir_path path) d).1) [
        | inl e ↦ ensure-private (dir_path path) d e
        | inr (error, e) ↦
            let late : is_late error ≡ true = rw (e, write_file_atomically) at h in
            absurd (cc (late, ensure-early (dir_path path) d error e))
      ]
