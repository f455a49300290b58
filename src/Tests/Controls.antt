-- ===== src/Tests/Controls.antt =====
-- A request to the daemon to stop a process.
use dovik.Prelude.{◌≡◌, refl, pos, String, true, none, some, [], string_eq, is_some, is_none}
use dovik.Supervision.Lifecycle.Stop.{done}
use dovik.Supervision.Lifecycle.Ownership.{IsOwned}
use dovik.Supervision.Manager.{Manager}
use dovik.Supervision.Run.{daemon-IsOwned, at_rest}
use dovik.Supervision.Registry.{reconcile_after_daemon_restart}
use dovik.Supervision.Manager.{new_lifecycle_manager, ok}
use dovik.Control.{
  protocol_version, incompatible_version, process_stop, process_status, Request, Response,
}
use dovik.Control.Server.{Codec, World, handle_request}
use dovik.Control.Handling.{handle_request-IsOwned, handle_request-same, handle_request_lem}
use dovik.Tests.Data.{memory, web_input, shop, shop_manager}

-- Every payload names the process web of the project shop.
abbrev web_codec : Codec String String String
web_codec = record {
  project_input = λ _. none;
  project_reference = λ _. none;
  process_input = λ _. none;
  process_reference = λ _. some (record { project_id = "shop"; process_id = "web" });
  logs_input = λ _. none;
  encode = λ _. some "{}";
}

abbrev world : World memory String String
world = record {
  stat = λ _. some true;
  input = web_input;
  wait = λ m. (m, done);
  identities = none;
}

abbrev stop_request : Request String
stop_request = record { version = pos 1; id = "7"; operation = process_stop; payload = "" }

abbrev status_request : Request String
status_request = record stop_request { operation = process_status }

abbrev manager : Manager memory
manager = shop_manager (reconcile_after_daemon_restart (shop none) 9).0 ([], none)

made_manager :
    new_lifecycle_manager {P = memory}
      (some (reconcile_after_daemon_restart (shop none) 9).0)
      ([], none)
      (pos 100)
      (pos 10)
    ≡ ok manager
unfolding new_lifecycle_manager
made_manager = refl

manager-IsOwned : IsOwned manager
manager-IsOwned =
    daemon-IsOwned (shop none) 9 ([], none) (pos 100) (pos 10) manager manager
      ((λ r e. absurd (cc e), tt), tt) made_manager (at_rest manager)

handle_request-IsOwned_example : IsOwned (handle_request web_codec world manager stop_request).0
handle_request-IsOwned_example =
    handle_request-IsOwned web_codec world manager stop_request (λ m o. o) manager-IsOwned

handle_request-same_example : (handle_request web_codec world manager status_request).0 ≡ manager
handle_request-same_example = handle_request-same web_codec world manager status_request refl

abbrev old_request : Request String
old_request = record stop_request { version = pos 2 }

abbrev refusal : Response String
refusal = record { version = pos 1; id = "7"; result = none; error = some incompatible_version }

refused_old : (handle_request web_codec world manager old_request).1 ≡ some refusal
unfolding handle_request
refused_old = refl

handle_request_lem_example :
    (refusal.version ≡ protocol_version)
    × (refusal.id ≡ "7")
    × (is_some refusal.result ≡ is_none refusal.error)
handle_request_lem_example =
    handle_request_lem web_codec world manager old_request refusal refused_old
