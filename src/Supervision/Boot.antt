-- ===== src/Supervision/Boot.antt =====
-- The daemon from its file on: `LoadAndReconcile` of internal/supervision/registry_store.go,
-- `NewLifecycleManager`, and what its goroutines do then.
use dovik.Prelude.{ℕ, ℤ, String, ◌≡◌, sym, ap, ◌∙◌, Option, some}
use dovik.Storage.{Disk}
use dovik.Supervision.Registry.{Registry, Reconciled}
use dovik.Supervision.Registry.Reconcile.{reconcile-settle}
use dovik.Supervision.Document.{RegistryDocument}
use dovik.Supervision.Loading.{Trailing}
use dovik.Supervision.Saving.{starts_with, load_and_reconcile}
use dovik.Supervision.Saving.Accepting.{load_file-Ok}
use dovik.Supervision.Saving.Preparing.{begun, load_and_reconcile-Prepared}
use dovik.Supervision.Persister.{Persister}
use dovik.Supervision.Manager.{Manager, ok, new_lifecycle_manager}
use dovik.Supervision.Lifecycle.Ownership.{IsOwned}
use dovik.Supervision.Run.{◌↝*◌, daemon-IsOwned}

module _ {Content : Type 0} (decode : Option Content → Option (RegistryDocument × Trailing))
    (encode : RegistryDocument → Option Content) {P : Persister} where
  -- Whatever the registry's file holds and whichever calls the system refuses: if the daemon begins,
  -- then however its goroutines interleave and whichever of its saves fail, every entry of `active` is
  -- the current, live runtime of its process, every process whose runtime is active has an entry,
  -- exactly one goroutine observes each, and no two share a runtime.
  pub boot-IsOwned :
      (path temp : String) (at : ℕ) (d : Disk Content) (registry : Registry) (disk : P.Disk)
      (bytes events : ℤ) (m m' : Manager P)
      → (load_and_reconcile decode encode path temp at d).1 ≡ starts_with registry
      → new_lifecycle_manager {P = P} (some registry) disk bytes events ≡ ok m
      → m ↝* m'
      → IsOwned m'
  boot-IsOwned path temp at d registry disk bytes events m m' boots made run =
      let (old, loaded, same) =
        begun decode encode path temp at d _ registry
          (load_and_reconcile-Prepared decode encode path temp at d) boots in
      let all = load_file-Ok decode path d old loaded in
      let first =
        ap (λ (x : Registry × Reconciled). x.0) (reconcile-settle old at all) ∙ sym same in
      daemon-IsOwned old at disk bytes events m m' all (rw first made) run
