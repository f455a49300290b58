-- ===== src/Supervision/Lifecycle/Begun.antt =====
-- A manager in the middle of `Start` of internal/supervision/lifecycle.go.
use dovik.Prelude.{
  zero, suc, ℤ, pos, negsuc, ◌≡◌, refl, sym, ap, ◌∙◌, true, false, Option, none, some, List,
  is_positive, arith,
}
use dovik.Supervision.State.{ProcessRuntime, is_active}
use dovik.Supervision.Output
use dovik.Supervision.Output.{OutputBuffer, new_output_buffer}
use dovik.Supervision.Registry.{RegisteredProcess}
use dovik.Supervision.Persister.{Persister}
use dovik.Supervision.Manager.{
  ProcessKey, key_eq, Manager, Effect, set_process, set_runtime, persist,
}
use dovik.Supervision.Manager.Lookup.{process_at, runtime_in, process_at-set_self}
use dovik.Supervision.Lifecycle.Start.{own, active_runtime}
use dovik.Supervision.Lifecycle.Ownership.{
  is_live, OwnedBut, IsOwned, Owned-of_idle, OwnedBut-set_process,
}
use dovik.Supervision.Lifecycle.Adopt.{Owned-own}

pub new_output_buffer_total :
    (b e : ℤ)
    → is_positive b ≡ true
    → is_positive e ≡ true
    → (buffer : OutputBuffer) × (new_output_buffer b e ≡ Output.ok buffer)
unfolding new_output_buffer
new_output_buffer_total (pos (suc b)) (pos (suc e)) p q = (_, refl)
new_output_buffer_total (pos (suc b)) (pos zero) p q = cc
new_output_buffer_total (pos (suc b)) (negsuc e) p q = cc
new_output_buffer_total (pos zero) e p q = cc
new_output_buffer_total (negsuc b) e p q = cc

-- the process as it was before the start
pub idle_runtime :
    (process : RegisteredProcess)
    → active_runtime process ≡ none
    → (r : ProcessRuntime) → process.runtime ≡ some r
    → is_active r.state ≡ false
unfolding active_runtime
idle_runtime process idle r e = ground arith

-- A manager in the middle of `Start`: the process `key` has the runtime `runtime`, and the maps do
-- not name it.
pub record Starting {P : Persister} (key : ProcessKey) (m : Manager P)
    (runtime : Option ProcessRuntime) : Type 0 where
  pub bytes : is_positive m.output_byte_limit ≡ true
  pub events : is_positive m.output_event_limit ≡ true
  pub all : OwnedBut key m.registry m.active m.observers m.runtimes
  pub process : RegisteredProcess
  pub there : process_at m.registry key ≡ some process
  pub now : process.runtime ≡ runtime

module _ {P : Persister} (key : ProcessKey) where
  pub Starting-process :
      (m : Manager P) (runtime : Option ProcessRuntime) (process : RegisteredProcess)
      → Starting key m runtime
      → Starting key (record m { registry = set_process m.registry key process }) process.runtime
  Starting-process m runtime process s = record {
    bytes = s.bytes;
    events = s.events;
    all =
        OwnedBut-set_process key m.registry m.active m.observers m.runtimes s.process process
          s.there s.all;
    process = process;
    there = process_at-set_self m.registry key s.process process s.there;
    now = refl;
  }

  pub Starting-set_runtime :
      (m : Manager P) (runtime : Option ProcessRuntime) (process : RegisteredProcess)
      (r : ProcessRuntime)
      → Starting key m runtime
      → Starting key (set_runtime m key process r) (some r)
  unfolding set_runtime
  Starting-set_runtime m runtime process r s =
      Starting-process m runtime (record process { runtime = some r }) s

  pub Starting-persist :
      (m : Manager P) (runtime : Option ProcessRuntime)
      → Starting key m runtime
      → Starting key (persist m).0 runtime
  unfolding persist
  Starting-persist m runtime s = record {
    bytes = s.bytes;
    events = s.events;
    all = s.all;
    process = s.process;
    there = s.there;
    now = s.now;
  }

  pub Starting-effects :
      (m : Manager P) (runtime : Option ProcessRuntime) (effects : List Effect)
      → Starting key m runtime
      → Starting key (record m { effects = effects }) runtime
  Starting-effects m runtime effects s = record {
    bytes = s.bytes;
    events = s.events;
    all = s.all;
    process = s.process;
    there = s.there;
    now = s.now;
  }

  pub Starting-idle :
      (m : Manager P) (runtime : Option ProcessRuntime)
      → Starting key m runtime
      → ((r : ProcessRuntime) → runtime ≡ some r → is_active r.state ≡ false)
      → IsOwned m
  Starting-idle m runtime s idle = record {
    bytes = s.bytes;
    events = s.events;
    all =
        Owned-of_idle key m.registry m.active m.observers m.runtimes s.all
          λ (r, at, active). let p = idle r (sym s.now ∙ (sym (ap runtime_in s.there) ∙ at)) in cc;
  }

  pub Starting-own :
      (m : Manager P) (r : ProcessRuntime) (pid : ℤ) (output : OutputBuffer)
      → Starting key m (some r)
      → is_live r.state ≡ true
      → IsOwned (own m key r.instance_id pid output)
  unfolding own
  Starting-own m r pid output s live = record {
    bytes = s.bytes;
    events = s.events;
    all =
        Owned-own key m.registry m.active m.observers m.runtimes _ r s.all refl
          (ap runtime_in s.there ∙ s.now) refl live;
  }
