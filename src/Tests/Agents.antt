-- ===== src/Tests/Agents.antt =====
-- The identity store and service, and an agent's session.
use text.Mathlib.TextEquality.{eq_iff}
use dovik.Prelude.{
  ℕ, String, ◌≡◌, ◌≢◌, refl, pos, Bool, true, false, Option, none, some, List, [], ◌∷◌, lookup,
  insert, is_abs, string_eq,
}
use dovik.Storage.{Disk}
use dovik.Identity.Model.{Persona, Project, State}
use dovik.Identity.Validation.{validate_state}
use dovik.Identity.Store.{Store, contains_private, update, open_store, opens, change_persona}
use dovik.Identity.Store.Updating.{Sound, Updated, update-Updated}
use dovik.Identity.Store.Reopening.{update-open_store}
use dovik.Identity.Sessions.{
  Session, Service, gives, refuses, CreateInput, new_session, create_session, context,
  revoke_session, session_unavailable,
}
use dovik.Identity.Sessions.Permitted.{RunsAs, InSession, context-RunsAs}
use dovik.Identity.Sessions.Created.{create_session-context, revoke_session-context}
use dovik.Identity.Service.{Request, CallInput, call, outcome_error}
use dovik.Identity.Service.Calling.{Keeps, call-Keeps}
use dovik.Identity.Commands.{Invocation}
use dovik.Identity.Agent.{ExecutionRequest, AgentRequest, execute_request, handle_agent}
use dovik.Identity.Agent.Bound.{Bound, Served, handle_agent-Bound, execute_request-Served}
use dovik.Tests.Identities.{robot, site, state, state_valid}

abbrev encode_state : State → Option State
encode_state s = some s

abbrev decode_state : Option State → Option (State × Bool)
decode_state none = none
decode_state (some s) = some (s, true)

read_back :
    (s text : State) → encode_state s ≡ some text → decode_state (some text) ≡ some (s, true)
read_back s text h = cc h

abbrev store : Store
store = record { path = "/var/dovik/identity.json"; state = state }

abbrev temporary : String
temporary = "/var/dovik/.identity-1"

apart : temporary ≢ store.path
apart h = let same = (eq_iff temporary store.path).1 h in absurd (cc same)

store-Sound : Sound some store
unfolding validate_state contains_private
store-Sound = record { valid = refl; apart = refl }

abbrev disk : Disk State
disk = record { files = []; directories = []; answers = [] }

abbrev helper : Persona
helper = record robot { id = "helper"; account = "helper" }

update-Updated_example :
    Updated encode_state temporary some
      (change_persona helper)
      store
      disk
      (update some encode_state temporary (change_persona helper) store disk)
update-Updated_example =
    update-Updated some encode_state temporary (change_persona helper) store disk apart

updated : (update some encode_state temporary (change_persona helper) store disk).2 ≡ none
unfolding update change_persona
updated = refl

rooted : is_abs store.path ≡ true
unfolding is_abs
rooted = refl

update-open_store_example :
    (open_store some decode_state store.path
      (record (update some encode_state temporary (change_persona helper) store disk).1 {
        answers = [];
      })).1
    ≡ opens (update some encode_state temporary (change_persona helper) store disk).0
update-open_store_example =
    update-open_store some decode_state encode_state temporary (change_persona helper) store disk
      apart rooted
      (read_back (update some encode_state temporary (change_persona helper) store disk).0.state)
      updated

abbrev service : Service State
service = record { store = store; disk = disk; sessions = []; listeners = []; closed = [] }

abbrev session_id : String
session_id = "c0ffee"

abbrev create_input : CreateInput
create_input = record {
  nonce = some session_id;
  boundary = true;
  account = λ name. some name;
  listener = some (3, "/run/agent");
}

abbrev session : Session
session = new_session site session_id "docker" ""

abbrev serving : Service State
serving = record service { sessions = (session_id, session) ∷ [] }

created : create_session create_input "site" "docker" "" service ≡ (serving, gives session)
unfolding create_session insert
created = refl

named : session_id ≢ ""
named h = let same = (eq_iff session_id "").1 h in absurd (cc same)

create_session-context_example :
    (p : Project) × (persona : Persona) × (p.id ≡ "site")
    × (persona.id ≡ p.persona)
    × (context serving session_id "" "" ≡ gives (p, persona))
create_session-context_example =
    create_session-context some create_input "site" "docker" "" "" "" service serving session
      state_valid created named

revoked : (revoke_session session_id serving).1 ≡ none
unfolding revoke_session lookup
revoked = refl

revoke_session-context_example :
    context (revoke_session session_id serving).0 session_id "site" "" ≡ refuses session_unavailable
revoke_session-context_example = revoke_session-context session_id "site" "" serving named revoked

in_session : context serving session_id "" "" ≡ gives (site, robot)
unfolding context lookup
in_session = refl

context-RunsAs_example :
    RunsAs state site robot
    × (session_id ≡ "" → (site.mode ≢ "agent-isolation") × (site.persona ≡ robot.id))
    × (session_id ≢ ""
        → (s : Session) × (lookup session_id serving.sessions ≡ some s) × InSession s site robot)
context-RunsAs_example =
    context-RunsAs some serving state_valid site robot session_id "" "" in_session

abbrev put_helper : Request
put_helper = record {
  action = "persona.put";
  persona = some helper;
  project = none;
  project_id = "";
  persona_id = "";
  session_id = "";
  policy = none;
  path = "";
  root = "";
  backend = "";
  principal = "";
  personas = [];
}

abbrev call_input : CallInput
call_input = record {
  gh = none;
  root = record { resolved = none; is_directory = false };
  create = create_input;
  temp = temporary;
}

abbrev examine : Service State → Request → List ℕ
examine s r = []

call-Keeps_example :
    Keeps some serving
      (call some encode_state examine call_input put_helper serving).0
      (outcome_error (call some encode_state examine call_input put_helper serving).1)
call-Keeps_example =
    call-Keeps some encode_state examine call_input put_helper serving store-Sound apart

abbrev show_gh : String → Project → Persona → Invocation → String
show_gh path project persona invocation = persona.account

abbrev view_request : Invocation
view_request = record { arguments = "repo" ∷ "view" ∷ []; input = [] }

abbrev change_request : AgentRequest
change_request = record {
  version = pos 1;
  action = "persona";
  invocation = view_request;
  persona_id = "robot";
}

handle_agent-Bound_example :
    Bound session_id serving (handle_agent show_gh session_id (some change_request) serving).0
handle_agent-Bound_example = handle_agent-Bound show_gh serving session_id (some change_request)

abbrev execution : ExecutionRequest
execution = record {
  project_id = "";
  root = "";
  session_id = session_id;
  invocation = view_request;
}

execute_request-Served_example :
    Served show_gh serving execution (execute_request show_gh serving execution)
execute_request-Served_example =
    execute_request-Served show_gh some serving execution state_valid named
