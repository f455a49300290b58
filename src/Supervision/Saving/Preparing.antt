-- ===== src/Supervision/Saving/Preparing.antt =====
-- `LoadAndReconcile` of internal/supervision/registry_store.go, and the daemon that begins with it.
use mathlib.Core.Path.{subst}
use dovik.Prelude.{
  ℕ, String, ◌≡◌, refl, sym, Bool, true, false, not, Option, none, some, Option-cases, ◌⊎◌, inl,
  inr, string_eq, if◌then◌else◌,
}
use dovik.Storage.{Disk}
use dovik.Supervision.Registry.{Registry, Reconciled, changed, refused}
use dovik.Supervision.Registry.Reconcile.{any_project, settled, reconcile-settle}
use dovik.Supervision.Document.{RegistryDocument}
use dovik.Supervision.Loading.{Trailing, Loaded, loads, fails, StoreError}
use dovik.Supervision.Saving.{
  SaveError, save, load_file, Daemon, starts_with, not_loaded, not_persisted, not_reconciled,
  load_and_reconcile,
}
use dovik.Supervision.Saving.Accepting.{load_file-Ok}

Loaded-cases :
    (loaded : Loaded)
    → ((e : StoreError) × (loaded ≡ fails e)) ⊎ ((registry : Registry) × (loaded ≡ loads registry))
Loaded-cases (fails e) = inl (e, refl)
Loaded-cases (loads registry) = inr (registry, refl)

-- What the daemon begins with, and the files then: nothing, after an error of the load or of a save
-- that was needed; or what was loaded, with every interrupted process failed at the time of the
-- restart, which was saved if there was one.
pub data Prepared {Content : Type 0}
    (decode : Option Content → Option (RegistryDocument × Trailing))
    (encode : RegistryDocument → Option Content) (path temp : String) (at : ℕ) (d : Disk Content)
    : Disk Content × Daemon → Type 0 where
  unloaded :
      (e : StoreError)
      → (load_file decode path d).1 ≡ fails e
      → Prepared decode encode path temp at d ((load_file decode path d).0, not_loaded e)
  unsaved :
      (old : Registry) (e : SaveError)
      → (load_file decode path d).1 ≡ loads old
      → any_project old.projects ≡ true
      → (save encode path temp (load_file decode path d).0 (settled at old)).1 ≡ some e
      → Prepared decode encode path temp at d
          ((save encode path temp (load_file decode path d).0 (settled at old)).0, not_persisted e)
  unchanged :
      (old : Registry)
      → (load_file decode path d).1 ≡ loads old
      → any_project old.projects ≡ false
      → Prepared decode encode path temp at d
          ((load_file decode path d).0, starts_with (settled at old))
  saved :
      (old : Registry)
      → (load_file decode path d).1 ≡ loads old
      → any_project old.projects ≡ true
      → (save encode path temp (load_file decode path d).0 (settled at old)).1 ≡ none
      → Prepared decode encode path temp at d (
        (save encode path temp (load_file decode path d).0 (settled at old)).0,
        starts_with (settled at old),
      )

module _ {Content : Type 0} (decode : Option Content → Option (RegistryDocument × Trailing))
    (encode : RegistryDocument → Option Content) (path temp : String) (at : ℕ)
    (d : Disk Content) where
  -- What `LoadAndReconcile` does behind the pass.
  abbrev after : Disk Content → Registry × Reconciled → Disk Content × Daemon
  after d1 (registry, result) = elim result [
    | refused e ↦ (d1, not_reconciled e)
    | changed some_changed ↦
        if not some_changed
        then (d1, starts_with registry)
        else (let (d2, error) = save encode path temp d1 registry in
            elim error [ some e ↦ (d2, not_persisted e) | none ↦ (d2, starts_with registry) ])
  ]

  after-Prepared :
      (old : Registry) (some_changed : Bool)
      → (load_file decode path d).1 ≡ loads old
      → any_project old.projects ≡ some_changed
      → Prepared decode encode path temp at d
          (after (load_file decode path d).0 (settled at old, changed some_changed))
  after-Prepared old false e1 e3 = unchanged old e1 e3
  after-Prepared old true e1 e3 =
      elim (Option-cases (save encode path temp (load_file decode path d).0 (settled at old)).1) [
        | inl e4 ↦ rw e4 (saved old e1 e3 e4)
        | inr (e, e4) ↦ rw e4 (unsaved old e e1 e3 e4)
      ]

  -- Whatever the file holds and whichever calls the system refuses: `LoadAndReconcile` reports the
  -- error of the load, or that of a save that was needed, or the daemon begins with what was loaded,
  -- every interrupted process failed, and that is saved if there was one. The pass itself has no error.
  pub load_and_reconcile-Prepared :
      Prepared decode encode path temp at d (load_and_reconcile decode encode path temp at d)
  unfolding load_and_reconcile
  load_and_reconcile-Prepared = elim (Loaded-cases (load_file decode path d).1) [
    | inl (e, e1) ↦ rw (e1, load_and_reconcile) (unloaded e e1)
    | inr (old, e1) ↦
        let e2 = reconcile-settle old at (load_file-Ok decode path d old e1) in
        rw (e1, load_and_reconcile)
          (subst
            (λ (x : Registry × Reconciled).
              Prepared decode encode path temp at d (after (load_file decode path d).0 x))
            (sym e2) (after-Prepared old (any_project old.projects) e1 refl))
  ]

  -- The registry that the daemon begins with is one that was loaded, behind the pass.
  pub begun :
      (result : Disk Content × Daemon) (registry : Registry)
      → Prepared decode encode path temp at d result
      → result.1 ≡ starts_with registry
      → (old : Registry) × ((load_file decode path d).1 ≡ loads old) × (registry ≡ settled at old)
  begun _ registry (unloaded e h) same = absurd (cc same)
  begun _ registry (unsaved old e h any failed) same = absurd (cc same)
  begun _ registry (unchanged old h idle) same = (old, h, cc same)
  begun _ registry (saved old h any kept) same = (old, h, cc same)
