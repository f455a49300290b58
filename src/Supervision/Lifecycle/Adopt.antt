-- ===== src/Supervision/Lifecycle/Adopt.antt =====
-- The daemon takes a started process over, and gives a finished one up.
use mathlib.Core.Path.{subst₂, subst⁻¹}
use dovik.Prelude.{
  ℕ, zero, suc, ◌<◌, ◌≡◌, ◌≢◌, refl, sym, ap, ◌∙◌, true, false, Option, some, inl, inr, List, [],
  ◌∷◌, ◌++◌, Map, lookup, insert, delete, lookup-insert, lookup-insert_self, lookup-insert_ne,
  lookup-delete_self, lookup-delete_ne, lookup-cons, Distinct-delete, length, arith,
}
use dovik.Supervision.State.{ProcessRuntime}
use dovik.Supervision.Registry.{RegisteredProcess, Registry}
use dovik.Supervision.Manager.{
  ProcessKey, key_eq, LifecycleError, ManagedRuntime, runtime_of, set_process,
}
use dovik.Supervision.Manager.Lookup.{process_at, runtime_in, process_at-set_ne, key_cases}
use dovik.Supervision.Lifecycle.Exit.{finish_at}
use dovik.Supervision.Lifecycle.Ownership.{
  is_live, Tracks, ActiveAt, OwnedBut, Owned, Tracks-set_ne,
}

runtime_of-append :
    (rs : List ManagedRuntime) (h : ℕ) (r x : ManagedRuntime)
    → runtime_of rs h ≡ some r
    → runtime_of (rs ++ x ∷ []) h ≡ some r
runtime_of-append [] h r x e = cc
runtime_of-append (y ∷ rs) zero r x e = e
runtime_of-append (y ∷ rs) (suc h) r x e = runtime_of-append rs h r x e

runtime_of-length :
    (rs : List ManagedRuntime) (x : ManagedRuntime) → runtime_of (rs ++ x ∷ []) (length rs) ≡ some x
runtime_of-length [] x = refl
runtime_of-length (y ∷ rs) x = runtime_of-length rs x

runtime_of-lt :
    (rs : List ManagedRuntime) (h : ℕ) (r : ManagedRuntime)
    → runtime_of rs h ≡ some r
    → h < length rs
runtime_of-lt [] h r e = absurd (cc e)
runtime_of-lt (y ∷ rs) zero r e = omega arith
runtime_of-lt (y ∷ rs) (suc h) r e = omega (arith, runtime_of-lt rs h r e)

Tracks-append :
    {registry : Registry} {rs : List ManagedRuntime} {k : ProcessKey} {h : ℕ} (x : ManagedRuntime)
    → Tracks registry rs k h
    → Tracks registry (rs ++ x ∷ []) k h
Tracks-append {rs = rs} {h = h} x t = record {
  managed = t.managed;
  runtime = t.runtime;
  at = runtime_of-append rs h t.managed x t.at;
  pending = t.pending;
  found = t.found;
  same = t.same;
  live = t.live;
}

module _ (key : ProcessKey) (registry : Registry) (active observers : Map ProcessKey ℕ)
    (runtimes : List ManagedRuntime) (managed : ManagedRuntime) (runtime : ProcessRuntime) where
  own-Tracks :
      managed.done ≡ false
      → runtime_in (process_at registry key) ≡ some runtime
      → runtime.instance_id ≡ managed.instance_id
      → is_live runtime.state ≡ true
      → Tracks registry (runtimes ++ managed ∷ []) key (length runtimes)
  own-Tracks pending found same live = record {
    managed = managed;
    runtime = runtime;
    at = runtime_of-length runtimes managed;
    pending = pending;
    found = found;
    same = same;
    live = live;
  }

  old_entry :
      OwnedBut key registry active observers runtimes
      → (k : ProcessKey) (h : ℕ) → lookup k active ≡ some h
      → h < length runtimes
  old_entry o k h l = let t = o.tracks k h l in runtime_of-lt runtimes h t.managed t.at

  -- The last step of `Start`.
  pub Owned-own :
      OwnedBut key registry active observers runtimes
      → managed.done ≡ false
      → runtime_in (process_at registry key) ≡ some runtime
      → runtime.instance_id ≡ managed.instance_id
      → is_live runtime.state ≡ true
      → let h = length runtimes in
        Owned registry (insert key h active) ((key, h) ∷ observers) (runtimes ++ managed ∷ [])
  Owned-own o pending found same live = record {
    tracks = λ k h l. elim (key_cases key k) [
      | inl here ↦
          subst₂ (Tracks registry (runtimes ++ managed ∷ [])) here.0
            (cc (here.0, l, lookup-insert_self key (length runtimes) active))
            (own-Tracks pending found same live)
      | inr other ↦
          Tracks-append managed
            (o.tracks k h (sym (lookup-insert_ne key k (length runtimes) active other.0) ∙ l))
    ];
    owned = λ k a l. elim (key_cases key k) [
      | inl here ↦ cc (here.0, l, lookup-insert_self key (length runtimes) active)
      | inr other ↦
          o.owned k other.0 a (sym (lookup-insert_ne key k (length runtimes) active other.0) ∙ l)
    ];
    observed = λ k.
        lookup-cons key k (length runtimes) observers
        ∙ rw (o.observed k) (sym (lookup-insert key k (length runtimes) active));
    distinct = (o.observed key ∙ o.vacant, o.distinct);
    apart = λ k j h lk lj. elim (key_cases key k) [
      | inl here ↦ elim (key_cases key j) [
        | inl there ↦ sym here.0 ∙ there.0
        | inr away ↦
            let old =
              old_entry o j h (sym (lookup-insert_ne key j (length runtimes) active away.0) ∙ lj) in
            let new : length runtimes ≡ h =
              cc (here.0, lk, lookup-insert_self key (length runtimes) active) in
            absurd (omega arith)
      ]
      | inr other ↦ elim (key_cases key j) [
        | inl there ↦
            let old =
              old_entry o k h
                (sym (lookup-insert_ne key k (length runtimes) active other.0) ∙ lk) in
            let new : length runtimes ≡ h =
              cc (there.0, lj, lookup-insert_self key (length runtimes) active) in
            absurd (omega arith)
        | inr away ↦
            o.apart k j h (sym (lookup-insert_ne key k (length runtimes) active other.0) ∙ lk)
              (sym (lookup-insert_ne key j (length runtimes) active away.0) ∙ lj)
      ]
    ];
  }

runtime_of-finish_ne :
    (rs : List ManagedRuntime) (h j : ℕ) (e : Option LifecycleError)
    → h ≢ j
    → runtime_of (finish_at h e rs) j ≡ runtime_of rs j
runtime_of-finish_ne [] h j e n = refl
runtime_of-finish_ne (r ∷ rs) zero zero e n = absurd (n refl)
runtime_of-finish_ne (r ∷ rs) zero (suc j) e n = refl
runtime_of-finish_ne (r ∷ rs) (suc h) zero e n = refl
runtime_of-finish_ne (r ∷ rs) (suc h) (suc j) e n =
    runtime_of-finish_ne rs h j e (λ p. n (ap suc p))

module _ (key : ProcessKey) (registry : Registry) (active observers : Map ProcessKey ℕ)
    (runtimes : List ManagedRuntime) (h : ℕ) (old process : RegisteredProcess) where
  exit-Tracks :
      (e : Option LifecycleError) (k : ProcessKey) (j : ℕ)
      → process_at registry key ≡ some old
      → key ≢ k
      → h ≢ j
      → Tracks registry runtimes k j
      → Tracks (set_process registry key process) (finish_at h e runtimes) k j
  exit-Tracks e k j there n m t =
      let t' = Tracks-set_ne key registry old process there k j n t in
      record {
        managed = t'.managed;
        runtime = t'.runtime;
        at = rw (runtime_of-finish_ne runtimes h j e m) t'.at;
        pending = t'.pending;
        found = t'.found;
        same = t'.same;
        live = t'.live;
      }

  -- The last steps of `observeExit`, on a process that is no longer active.
  pub Owned-exit :
      (e : Option LifecycleError)
      → Owned registry active observers runtimes
      → lookup key active ≡ some h
      → process_at registry key ≡ some old
      → ¬ ActiveAt (set_process registry key process) key
      → Owned
          (set_process registry key process)
          (delete key active)
          (delete key observers)
          (finish_at h e runtimes)
  Owned-exit e o here there idle = record {
    tracks = λ k j l. elim (key_cases key k) [
      | inl same ↦ absurd (cc (same.0, l, lookup-delete_self key active))
      | inr other ↦
          let l' = sym (lookup-delete_ne key k active other.0) ∙ l in
          exit-Tracks e k j there other.0
            (λ p. other.0 (o.apart key k h here (l' ∙ ap some (sym p)))) (o.tracks k j l')
    ];
    owned = λ k a l. elim (key_cases key k) [
      | inl same ↦ idle (subst⁻¹ (ActiveAt (set_process registry key process)) same.0 a)
      | inr other ↦
          o.owned k (rw (process_at-set_ne registry key old process there k other.0) at a)
            (sym (lookup-delete_ne key k active other.0) ∙ l)
    ];
    observed = λ k. elim (key_cases key k) [
      | inl same ↦ cc (same.0, lookup-delete_self key active, lookup-delete_self key observers)
      | inr other ↦
          lookup-delete_ne key k observers other.0
          ∙ (o.observed k ∙ sym (lookup-delete_ne key k active other.0))
    ];
    distinct = Distinct-delete key observers o.distinct;
    apart = λ k j n lk lj. o.apart k j n (deleted k n lk) (deleted j n lj);
  }
    where
      deleted :
          (k : ProcessKey) (n : ℕ)
          → lookup k (delete key active) ≡ some n
          → lookup k active ≡ some n
      deleted k n l = elim (key_cases key k) [
        | inl same ↦ absurd (cc (same.0, l, lookup-delete_self key active))
        | inr other ↦ sym (lookup-delete_ne key k active other.0) ∙ l
      ]
