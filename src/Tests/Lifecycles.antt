-- ===== src/Tests/Lifecycles.antt =====
-- A process that is started, stopped and observed.
use dovik.Prelude.{
  pos, ◌≡◌, ◌≢◌, refl, true, none, some, [], lookup, insert, delete, All, sort_strings, is_abs,
}
use dovik.Supervision.State.{ProcessRuntime, running, is_terminal, is_valid, new_process_runtime}
use dovik.Supervision.Registry.{Registry, reconcile_after_daemon_restart}
use dovik.Supervision.Registry.Reconcile.{ProjectOk}
use dovik.Supervision.Document.{registry_to_document}
use dovik.Supervision.Manager.{
  key_eq, Manager, ok, status, not_owned, set_process, new_lifecycle_manager,
}
use dovik.Supervision.Lifecycle.Start.{start}
use dovik.Supervision.Lifecycle.Stop.{stop_begin, returns, Wait, done, stop}
use dovik.Supervision.Lifecycle.Halting.{stop-IsOwned}
use dovik.Supervision.Lifecycle.Exit.{observe_exit}
use dovik.Supervision.Lifecycle.Ownership.{IsOwned}
use dovik.Supervision.Lifecycle.Accounting.{Accounted, start-Accounted}
use dovik.Supervision.Lifecycle.Starting.{start-IsOwned}
use dovik.Supervision.Lifecycle.Stopping.{stop_begin-IsOwned}
use dovik.Supervision.Lifecycle.Exiting.{Exited, observe_exit-status}
use dovik.Supervision.Run.{at_rest, daemon-IsOwned}
use dovik.Tests.Data.{memory, web, web_input, clean_exit, left_runtime, shop, shop_manager}

abbrev settled_shop : Registry
settled_shop = (reconcile_after_daemon_restart (shop (some left_runtime)) 9).0

abbrev at_first : Manager memory
at_first = shop_manager settled_shop ([], none)

abbrev started : Manager memory
started = (start at_first web web_input).0

left-ready : All ProjectOk (shop (some left_runtime)).projects
unfolding is_valid
left-ready = ((λ r e. ready r e, tt), tt)
  where
    ready : (r : ProcessRuntime) → some left_runtime ≡ some r → is_valid r.state ≡ true
    ready r e = cc e

made_at_first :
    new_lifecycle_manager {P = memory} (some settled_shop) ([], none) (pos 100) (pos 10)
    ≡ ok at_first
unfolding new_lifecycle_manager
made_at_first = refl

start-Accounted_example : Accounted at_first web (start at_first web web_input)
start-Accounted_example = start-Accounted at_first web web_input

at_first-IsOwned : IsOwned at_first
at_first-IsOwned =
    daemon-IsOwned (shop (some left_runtime)) 9 ([], none) (pos 100) (pos 10) at_first at_first
      left-ready made_at_first (at_rest at_first)

start-IsOwned_example : IsOwned started
start-IsOwned_example = start-IsOwned at_first web web_input at_first-IsOwned

started-IsOwned : IsOwned started
started-IsOwned = start-IsOwned at_first web web_input at_first-IsOwned

stop_begin-IsOwned_example :
    IsOwned (stop_begin started web).0
    × ((r : ProcessRuntime) → (stop_begin started web).1 ≢ returns (r, some not_owned))
stop_begin-IsOwned_example = stop_begin-IsOwned started web started-IsOwned

-- the runtime that was started
abbrev web_runtime : ProcessRuntime
web_runtime = record (new_process_runtime "shop" "web" "two") {
  pid = some (pos 8);
  started_at = some 20;
  state = running;
}

observing : lookup web started.observers ≡ some 0
unfolding start reconcile_after_daemon_restart lookup insert sort_strings is_abs
    registry_to_document
observing = refl

shown : status started web ≡ (web_runtime, true, none)
unfolding start reconcile_after_daemon_restart lookup insert sort_strings is_abs
    registry_to_document status set_process
shown = refl

abbrev observer_gone : Manager memory
observer_gone = record started { observers = delete web started.observers }

observe_exit-status_example :
    (r : ProcessRuntime) × (status (observe_exit observer_gone web 0 clean_exit 40) web
      ≡ (r, true, none))
    × Exited clean_exit 40 web_runtime r
    × (is_terminal r.state ≡ true)
    × (lookup web (observe_exit observer_gone web 0 clean_exit 40).active ≡ none)
observe_exit-status_example =
    observe_exit-status started web 0 clean_exit 40 web_runtime started-IsOwned observing shown

-- a wait in which nothing happens until the context is done
abbrev idle_wait : Wait memory
idle_wait m = (m, done)

stop-IsOwned_example : IsOwned (stop started web idle_wait).0
stop-IsOwned_example = stop-IsOwned started web idle_wait (λ m o. o) started-IsOwned
