-- ===== src/Tests/Registries.antt =====
-- The registry after a restart of the daemon, and requests that change it.
use dovik.Prelude.{◌≡◌, true, none, some, [], ◌∷◌, All}
use dovik.Supervision.State.{ProcessRuntime}
use dovik.Supervision.Registry.{changed, reconcile_after_daemon_restart}
use dovik.Supervision.Registry.Reconcile.{ProjectOk, any_project, settle_projects, reconcile-settle}
use dovik.Supervision.State.{is_valid}
use dovik.Supervision.Operations.{request, adds_process}
use dovik.Supervision.Operations.Rollback.{Settled}
use dovik.Supervision.Operations.Settling.{request-Settled}
use dovik.Tests.Data.{shop, left_runtime, web_definition, shop_manager}

left-ready : All ProjectOk (shop (some left_runtime)).projects
unfolding is_valid
left-ready = ((λ r e. ready r e, tt), tt)
  where
    ready : (r : ProcessRuntime) → some left_runtime ≡ some r → is_valid r.state ≡ true
    ready r e = cc e

reconcile-settle_example : reconcile_after_daemon_restart (shop (some left_runtime)) 9 ≡ (
  record { projects = settle_projects 9 (shop (some left_runtime)).projects },
  changed (any_project (shop (some left_runtime)).projects),
)
reconcile-settle_example = reconcile-settle (shop (some left_runtime)) 9 left-ready

-- a second process, whose save fails
request-Settled_example :
    Settled
      (shop_manager (shop none) (true ∷ [], none))
      (adds_process (record web_definition { id = "api" }))
      (request
        (λ _. some true)
        (shop_manager (shop none) (true ∷ [], none))
        (adds_process (record web_definition { id = "api" })))
request-Settled_example =
    request-Settled (λ _. some true) (shop_manager (shop none) (true ∷ [], none))
      (adds_process (record web_definition { id = "api" }))
