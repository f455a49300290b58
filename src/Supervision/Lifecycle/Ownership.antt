-- ===== src/Supervision/Lifecycle/Ownership.antt =====
-- Which runtime the daemon owns: the invariant that ties the registry, the map of active runtimes
-- and the observing goroutines together.
use mathlib.Core.Path.{subst⁻¹}
use dovik.Prelude.{
  ℕ, ◌≡◌, ◌≢◌, Bool, true, false, none, some, Option-cases, inl, inr, List, Map, lookup, Distinct,
  is_positive, arith,
}
use dovik.Supervision.State.{ProcessState, running, stopping, ProcessRuntime, is_active}
use dovik.Supervision.Registry.{RegisteredProcess, Registry}
use dovik.Supervision.Persister.{Persister}
use dovik.Supervision.Manager.{ProcessKey, key_eq, ManagedRuntime, runtime_of, Manager, set_process}
use dovik.Supervision.Manager.Lookup.{process_at, runtime_in, process_at-set_ne, key_cases}

-- an owned runtime has been started and has not finished
abbrev pub is_live : ProcessState → Bool
is_live running = true
is_live stopping = true
is_live _ = false

-- The managed runtime `h` is not done, and is that of the current runtime of the process `k`.
pub record Tracks (registry : Registry) (runtimes : List ManagedRuntime) (k : ProcessKey) (h : ℕ)
    : Type 0 where
  pub managed : ManagedRuntime
  pub runtime : ProcessRuntime
  pub at : runtime_of runtimes h ≡ some managed
  pub pending : managed.done ≡ false
  pub found : runtime_in (process_at registry k) ≡ some runtime
  pub same : runtime.instance_id ≡ managed.instance_id
  pub live : is_live runtime.state ≡ true

abbrev pub ActiveAt : Registry → ProcessKey → Type 0
ActiveAt registry k =
    (r : ProcessRuntime) × (runtime_in (process_at registry k) ≡ some r)
    × (is_active r.state ≡ true)

-- All but the process `key`, which is being started: the maps do not name it.
pub record OwnedBut (key : ProcessKey) (registry : Registry) (active observers : Map ProcessKey ℕ)
    (runtimes : List ManagedRuntime) : Type 0 where
  pub vacant : lookup key active ≡ none
  pub tracks : (k : ProcessKey) (h : ℕ) → lookup k active ≡ some h → Tracks registry runtimes k h
  pub owned : (k : ProcessKey) → key ≢ k → ActiveAt registry k → lookup k active ≢ none
  pub observed : (k : ProcessKey) → lookup k observers ≡ lookup k active
  pub distinct : Distinct observers
  pub apart :
      (k j : ProcessKey) (h : ℕ) → lookup k active ≡ some h → lookup j active ≡ some h → k ≡ j

-- Every entry of `active` tracks a live runtime, every active runtime has an entry, and exactly
-- one goroutine observes each entry; no two entries share a runtime.
pub record Owned (registry : Registry) (active observers : Map ProcessKey ℕ)
    (runtimes : List ManagedRuntime) : Type 0 where
  pub tracks : (k : ProcessKey) (h : ℕ) → lookup k active ≡ some h → Tracks registry runtimes k h
  pub owned : (k : ProcessKey) → ActiveAt registry k → lookup k active ≢ none
  pub observed : (k : ProcessKey) → lookup k observers ≡ lookup k active
  pub distinct : Distinct observers
  pub apart :
      (k j : ProcessKey) (h : ℕ) → lookup k active ≡ some h → lookup j active ≡ some h → k ≡ j

pub record IsOwned {P : Persister} (m : Manager P) : Type 0 where
  pub bytes : is_positive m.output_byte_limit ≡ true
  pub events : is_positive m.output_event_limit ≡ true
  pub all : Owned m.registry m.active m.observers m.runtimes

pub live-active : (s : ProcessState) → is_live s ≡ true → is_active s ≡ true
unfolding is_active
live-active s h = ground arith

module _ (key : ProcessKey) (registry : Registry) (old process : RegisteredProcess)
    (there : process_at registry key ≡ some old) where
  pub Tracks-set_ne :
      {runtimes : List ManagedRuntime} (k : ProcessKey) (h : ℕ)
      → key ≢ k
      → Tracks registry runtimes k h
      → Tracks (set_process registry key process) runtimes k h
  Tracks-set_ne k h n t = record {
    managed = t.managed;
    runtime = t.runtime;
    at = t.at;
    pending = t.pending;
    found = rw (process_at-set_ne registry key old process there k n) t.found;
    same = t.same;
    live = t.live;
  }

module _ (key : ProcessKey) (registry : Registry) (active observers : Map ProcessKey ℕ)
    (runtimes : List ManagedRuntime) where
  -- A process that is not active is not in the maps.
  pub OwnedBut-of_idle :
      Owned registry active observers runtimes
      → ¬ ActiveAt registry key
      → OwnedBut key registry active observers runtimes
  OwnedBut-of_idle o idle = record {
    vacant = elim (Option-cases (lookup key active)) [
      | inl e ↦ e
      | inr (h, e) ↦
          let t = o.tracks key h e in
          absurd (idle (t.runtime, t.found, live-active t.runtime.state t.live))
    ];
    tracks = o.tracks;
    owned = λ k _ a. o.owned k a;
    observed = o.observed;
    distinct = o.distinct;
    apart = o.apart;
  }

  pub Owned-of_idle :
      OwnedBut key registry active observers runtimes
      → ¬ ActiveAt registry key
      → Owned registry active observers runtimes
  Owned-of_idle o idle = record {
    tracks = o.tracks;
    owned = λ k a. elim (key_cases key k) [
      | inl same ↦ absurd (idle (subst⁻¹ (ActiveAt registry) same.0 a))
      | inr other ↦ o.owned k other.0 a
    ];
    observed = o.observed;
    distinct = o.distinct;
    apart = o.apart;
  }

  -- A write to the process that is being started.
  pub OwnedBut-set_process :
      (old process : RegisteredProcess)
      → process_at registry key ≡ some old
      → OwnedBut key registry active observers runtimes
      → OwnedBut key (set_process registry key process) active observers runtimes
  OwnedBut-set_process old process e o = record {
    vacant = o.vacant;
    tracks = λ k h l. elim (key_cases key k) [
      | inl same ↦ let v = o.vacant in absurd (cc (same.0, l, v))
      | inr other ↦ Tracks-set_ne key registry old process e k h other.0 (o.tracks k h l)
    ];
    owned = λ k n a. o.owned k n (rw (process_at-set_ne registry key old process e k n) at a);
    observed = o.observed;
    distinct = o.distinct;
    apart = o.apart;
  }
