-- ===== src/Supervision/Lifecycle/Stopping.antt =====
-- `Stop` keeps the invariant of ownership, and never meets a runtime that it does not own.
use mathlib.Core.Path.{subst₂}
use dovik.Prelude.{
  ℕ, ◌≡◌, ◌≢◌, refl, sym, ap, ◌∙◌, true, false, none, some, Option-cases, Bool-cases, inl, inr,
  List, Map, lookup, ==_iff, string_eq, arith,
}
use dovik.Supervision.State.{
  ProcessState, running, stopping, ProcessRuntime, zero_runtime, is_active, is_stopping,
}
use dovik.Supervision.State.Graph.{◌⟶◌, stop_requested, transition_error, transition_runtime}
use dovik.Supervision.Registry.{RegisteredProject, RegisteredProcess, Registry}
use dovik.Supervision.Persister.{Persister}
use dovik.Supervision.Manager
use dovik.Supervision.Manager.{
  ProcessKey, key_eq, Manager, ManagedRuntime, LifecycleError, not_owned, set_process, set_runtime,
  persist, ok, err, find_process,
}
use dovik.Supervision.Manager.Lookup.{
  process_at, runtime_in, process_at-set_self, process_at-set_ne, key_cases, find_process-some,
}
use dovik.Supervision.Lifecycle.Start.{active_runtime}
use dovik.Supervision.Lifecycle.Stop.{idle_reply, returns, stop_owned, stop_begin}
use dovik.Supervision.Lifecycle.Ownership.{
  is_live, Owned, IsOwned, Tracks, Tracks-set_ne, live-active,
}

module _ (key : ProcessKey) (registry : Registry) (active observers : Map ProcessKey ℕ)
    (runtimes : List ManagedRuntime) (old process : RegisteredProcess) (r r' : ProcessRuntime) where
  -- A write that keeps an owned runtime live, and its instance.
  Owned-set_live :
      Owned registry active observers runtimes
      → process_at registry key ≡ some old
      → old.runtime ≡ some r
      → process.runtime ≡ some r'
      → r'.instance_id ≡ r.instance_id
      → is_live r.state ≡ true
      → is_live r'.state ≡ true
      → Owned (set_process registry key process) active observers runtimes
  Owned-set_live o there was is same live live' = record {
    tracks = λ k h l. elim (key_cases key k) [
      | inl here ↦
          let t = o.tracks key h (ap (λ j. lookup j active) here.0 ∙ l) in
          let told : t.runtime ≡ r = cc (t.found, ap runtime_in there, was) in
          subst₂ (Tracks (set_process registry key process) runtimes) here.0 refl (record {
            managed = t.managed;
            runtime = r';
            at = t.at;
            pending = t.pending;
            found = ap runtime_in (process_at-set_self registry key old process there) ∙ is;
            same = same ∙ (ap (λ (x : ProcessRuntime). x.instance_id) (sym told) ∙ t.same);
            live = live';
          })
      | inr other ↦ Tracks-set_ne key registry old process there k h other.0 (o.tracks k h l)
    ];
    owned = λ k a. elim (key_cases key k) [
      | inl here ↦
          rw (← here.0) (o.owned key (r, ap runtime_in there ∙ was, live-active r.state live))
      | inr other ↦ o.owned k (rw (process_at-set_ne registry key old process there k other.0) at a)
    ];
    observed = o.observed;
    distinct = o.distinct;
    apart = o.apart;
  }

-- An active runtime that the daemon owns is live, and its entry holds its instance.
pub Owned-active :
    (key : ProcessKey) (registry : Registry) (active observers : Map ProcessKey ℕ)
    (runtimes : List ManagedRuntime) (r : ProcessRuntime)
    → Owned registry active observers runtimes
    → runtime_in (process_at registry key) ≡ some r
    → is_active r.state ≡ true
    → (h : ℕ) × (t : Tracks registry runtimes key h) × (lookup key active ≡ some h)
      × (t.runtime ≡ r)
Owned-active key registry active observers runtimes r o found act =
    elim (Option-cases (lookup key active)) [
      | inl e ↦ absurd (o.owned key (r, found, act) e)
      | inr (h, e) ↦ let t = o.tracks key h e in (h, t, e, cc (t.found, found))
    ]

active_runtime-some :
    (process : RegisteredProcess) (r : ProcessRuntime)
    → active_runtime process ≡ some r
    → (process.runtime ≡ some r) × (is_active r.state ≡ true)
unfolding active_runtime
active_runtime-some process r h = ground arith

live-edge : (s : ProcessState) → is_live s ≡ true → is_stopping s ≡ false → s ⟶ stopping
live-edge running l n = stop_requested
live-edge stopping l n = cc
live-edge s l n = cc

module _ {P : Persister} where
  IsOwned-set_runtime :
      (m : Manager P) (key : ProcessKey) (old process : RegisteredProcess) (r r' : ProcessRuntime)
      → IsOwned m
      → process_at m.registry key ≡ some old
      → old.runtime ≡ some r
      → r'.instance_id ≡ r.instance_id
      → is_live r.state ≡ true
      → is_live r'.state ≡ true
      → IsOwned (set_runtime m key process r')
  unfolding set_runtime
  IsOwned-set_runtime m key old process r r' o there was same live live' = record {
    bytes = o.bytes;
    events = o.events;
    all =
        Owned-set_live key m.registry m.active m.observers m.runtimes old _ r r' o.all there was
          refl same live live';
  }

  IsOwned-persist : (m : Manager P) → IsOwned m → IsOwned (persist m).0
  unfolding persist
  IsOwned-persist m o = record { bytes = o.bytes; events = o.events; all = o.all }

  set_runtime_there :
      (m : Manager P) (key : ProcessKey) (old process : RegisteredProcess) (r : ProcessRuntime)
      → process_at m.registry key ≡ some old
      → process_at (persist (set_runtime m key process r)).0.registry key
        ≡ some (record process { runtime = some r })
  unfolding set_runtime persist
  set_runtime_there m key old process r there =
      process_at-set_self m.registry key old (record process { runtime = some r }) there

  stop_owned-IsOwned :
      (m : Manager P) (key : ProcessKey) (process : RegisteredProcess) (r : ProcessRuntime) (h : ℕ)
      → IsOwned m
      → process_at m.registry key ≡ some process
      → process.runtime ≡ some r
      → is_live r.state ≡ true
      → IsOwned (stop_owned m key process r h).0
  unfolding stop_owned
  stop_owned-IsOwned m key process r h o there has live = elim (Bool-cases (is_stopping r.state)) [
    | inl again ↦ rw (again, stop_owned) o
    | inr first ↦
        let edge = live-edge r.state live first in
        let r' = record r { state = stopping } in
        let m1 = persist (set_runtime m key process r') in
        let o1 =
          IsOwned-persist _
            (IsOwned-set_runtime m key process process r r' o there has refl live refl) in
        rw
          (
            first,
            transition_error r r.state stopping refl edge,
            transition_runtime r r.state stopping refl edge,
            stop_owned,
          )
          (elim (Option-cases m1.1) [
            | inl saved ↦ rw saved (rw (transition_runtime r r.state stopping refl edge) o1)
            | inr (f, faulty) ↦ rw faulty (
                rw (transition_runtime r r.state stopping refl edge) (
                  IsOwned-set_runtime m1.0 key (record process { runtime = some r' }) process r'
                    (record r' { state = r.state }) o1
                    (set_runtime_there m key process process r' there) refl refl refl live))
          ])
  ]

  -- On an active process that the daemon owns the check of ownership passes.
  stop_begin-active :
      (m : Manager P) (key : ProcessKey) (project : RegisteredProject) (process : RegisteredProcess)
      (r : ProcessRuntime)
      → IsOwned m
      → find_process m.registry key ≡ ok (project, process)
      → active_runtime process ≡ some r
      → (h : ℕ) × (stop_begin m key ≡ stop_owned m key process r h) × (is_live r.state ≡ true)
  unfolding stop_begin
  stop_begin-active m key project process r o found act =
      let there = find_process-some m.registry key project process found in
      let (has, active) = active_runtime-some process r act in
      let (h, t, e, same) =
        Owned-active key m.registry m.active m.observers m.runtimes r o.all
          (ap runtime_in there ∙ has) active in
      let ids : t.managed.instance_id ≡ r.instance_id =
        sym t.same ∙ ap (λ (x : ProcessRuntime). x.instance_id) same in
      (
        h,
        rw (found, act, e, t.at, (==_iff t.managed.instance_id r.instance_id).1 ids, stop_begin),
        rw same at t.live,
      )

find_process_error :
    (registry : Registry) (key : ProcessKey) (e : LifecycleError)
    → find_process registry key ≡ err e
    → e ≢ not_owned
unfolding find_process
find_process_error registry key e h = ground arith

module _ {P : Persister} (m : Manager P) (key : ProcessKey) where
  stop_owned_reply :
      (process : RegisteredProcess) (r q : ProcessRuntime) (h : ℕ)
      → (stop_owned m key process r h).1 ≢ returns (q, some not_owned)
  unfolding stop_owned
  stop_owned_reply process r q h = ground arith

  stop_begin-missing :
      (e : LifecycleError)
      → find_process m.registry key ≡ err e
      → stop_begin m key ≡ (m, returns (zero_runtime, some e))
  unfolding stop_begin
  stop_begin-missing e h = rw (h, stop_begin)

  stop_begin-idle :
      (project : RegisteredProject) (process : RegisteredProcess)
      → find_process m.registry key ≡ ok (project, process)
      → active_runtime process ≡ none
      → stop_begin m key ≡ (m, returns (idle_reply key process))
  unfolding stop_begin
  stop_begin-idle project process found idle = rw (found, idle, stop_begin)

idle_reply_ok : (key : ProcessKey) (process : RegisteredProcess) → (idle_reply key process).1 ≡ none
unfolding idle_reply
idle_reply_ok key process = ground arith

-- The first section of `Stop` keeps the invariant of ownership, whichever save fails, and under the
-- invariant it never reports that the runtime is not owned by this daemon.
pub stop_begin-IsOwned :
    {P : Persister} (m : Manager P) (key : ProcessKey)
    → IsOwned m
    → IsOwned (stop_begin m key).0
      × ((r : ProcessRuntime) → (stop_begin m key).1 ≢ returns (r, some not_owned))
stop_begin-IsOwned m key o = go (find_process m.registry key) refl
  where
    go :
        (found : Manager.Result (RegisteredProject × RegisteredProcess))
        → find_process m.registry key ≡ found
        → IsOwned (stop_begin m key).0
          × ((r : ProcessRuntime) → (stop_begin m key).1 ≢ returns (r, some not_owned))
    go (err e) missing =
        rw (stop_begin-missing m key e missing)
          (o, λ r q. find_process_error m.registry key e missing (ground arith))
    go (ok (project, process)) found = elim (Option-cases (active_runtime process)) [
      | inl idle ↦
          rw (stop_begin-idle m key project process found idle)
            (o, λ r q. ground (arith, idle_reply_ok key process))
      | inr (r, act) ↦
          let (h, eq, live) = stop_begin-active m key project process r o found act in
          rw eq (
            stop_owned-IsOwned m key process r h o
                (find_process-some m.registry key project process found)
                (active_runtime-some process r act).0 live,
            λ q. stop_owned_reply m key process r q h,
          )
    ]
