-- ===== src/Identity/Service.antt =====
-- `Service.Call` and `Service.Snapshot` of internal/identity/service.go. The answers of the system
-- and of the platform are in the input; what the doctor finds is a function given.
pub mod Calling
use Prim.Native.String.{compare}
use text.Mathlib.Text.{is_le}
use dovik.Prelude.{
  String, Bool, true, false, not, ◌||◌, Option, none, some, List, [], ◌∷◌, ◌++◌, Map, is_some,
  if◌then◌else◌, ◌==◌, string_eq,
}
use dovik.Storage.{Disk}
use dovik.Identity.Model.{Persona, Policy, Project, State, find_persona}
use dovik.Identity.Store.{
  ChangeError, no_personas, persona_exists, unknown_project, Changed, sets, stops, StoreError,
  Store, update, put_persona, put_project, set_persona, set_project, RootInput,
}
use dovik.Identity.Sessions.{
  Session, Service, ServiceError, store_failed, unknown_operation, persona_required,
  project_required, policy_required, invalid_gh, no_root, root_not_directory, Outcome, gives,
  refuses, CreateInput, create_session, select_session_persona, revoke_session,
}

pub record Request : Type 0 where
  pub action : String
  pub persona : Option Persona
  pub project : Option Project
  pub project_id : String
  pub persona_id : String
  pub session_id : String
  pub policy : Option Policy
  pub path : String
  pub root : String
  pub backend : String
  pub principal : String
  pub personas : List Persona

pub record Snapshot (Check : Type 0) : Type 0 where
  pub state : State
  pub sessions : List Session
  pub checks : List Check

-- What the system answers to a call: the path that `ValidateGH` returns, the root of a project, what
-- a new session needs, and the name of a temporary file.
pub record CallInput : Type 0 where
  pub gh : Option String
  pub root : RootInput
  pub create : CreateInput
  pub temp : String

-- the cases of the `switch`
pub data Action : Type 0 where
  doctor persona_import configure get persona_put project_put gh_set policy_set : Action
  session_create session_revoke session_persona : Action

unfoldable pub action_of : String → Option Action
action_of action =
    if action == "doctor"
    then some doctor
    else if action == "persona.import"
    then some persona_import
    else if action == "configure"
    then some configure
    else if action == "get"
    then some get
    else if action == "persona.put"
    then some persona_put
    else if action == "project.put"
    then some project_put
    else if action == "gh.set"
    then some gh_set
    else if action == "policy.set"
    then some policy_set
    else if action == "session.create"
    then some session_create
    else if action == "session.revoke"
    then some session_revoke
    else if action == "session.persona"
    then some session_persona
    else none

-- The loop of an import over the personas known so far: an ID that is taken ends it.
unfoldable pub import_loop : List Persona → List Persona → Option (List Persona)
unfolding find_persona
import_loop known [] = some known
import_loop known (p ∷ ps) =
    let rest = import_loop (known ++ p ∷ []) ps in
    if is_some (find_persona known p.id) then none else rest

abbrev imported : State → Option (List Persona) → Changed
imported state none = stops persona_exists
imported state (some personas) = sets (record state { personas = personas })

unfoldable pub import_personas : List Persona → State → Changed
unfolding import_loop
import_personas [] state = stops no_personas
import_personas (p ∷ ps) state = imported state (import_loop state.personas (p ∷ ps))

-- The loop of "policy.set": the first project with the ID gets the policy.
unfoldable pub put_policy : Policy → String → List Project → Option (List Project)
put_policy policy id [] = none
put_policy policy id (p ∷ ps) =
    let rest = put_policy policy id ps in
    if p.id == id
    then some (record p { policy = policy } ∷ ps)
    else elim rest [ none ↦ none | some qs ↦ some (p ∷ qs) ]

unfoldable pub change_policy : Policy → String → State → Changed
unfolding put_policy
change_policy policy id state = elim (put_policy policy id state.projects) [
  | none ↦ stops unknown_project
  | some projects ↦ sets (record state { projects = projects })
]

unfoldable pub change_all : String → Persona → Project → State → Changed
unfolding put_persona put_project
change_all path persona project state = sets (record state {
  gh_path = path;
  personas = put_persona persona state.personas;
  projects = put_project project state.projects;
})

abbrev pub store_error : Option StoreError → Option ServiceError
store_error none = none
store_error (some e) = some (store_failed e)

abbrev pub outcome_error : {A : Type 0} → Outcome A → Option ServiceError
outcome_error (gives a) = none
outcome_error (refuses e) = some e

-- what an operation on the store makes of the service
abbrev pub with_store :
    {Content : Type 0}
    → Service Content
    → Store × Disk Content × Option StoreError
    → Service Content × Option ServiceError
with_store s (store, disk, error) = (record s { store = store; disk = disk }, store_error error)

abbrev pub change_gh : String → State → Changed
change_gh path state = sets (record state { gh_path = path })

module _ {Content : Type 0} (parse_address : String → Option String)
    (encode : State → Option Content) where
  abbrev pub updates :
      String → (State → Changed) → Service Content → Service Content × Option ServiceError
  updates temp change s = with_store s (update parse_address encode temp change s.store s.disk)

  -- The body of each case, up to the reply.
  unfoldable pub perform :
      CallInput → Request → Action → Service Content → Service Content × Option ServiceError
  unfolding update import_personas change_policy change_all set_persona set_project create_session
      revoke_session select_session_persona
  perform input r doctor s = (s, none)
  perform input r persona_import s = updates input.temp (import_personas r.personas) s
  perform input r configure s = elim r.persona [
    | none ↦ (s, some persona_required)
    | some persona ↦ elim r.project [
      | none ↦ (s, some project_required)
      | some project ↦ elim input.gh [
        | none ↦ (s, some invalid_gh)
        | some path ↦ elim input.root.resolved [
          | none ↦ (s, some no_root)
          | some root ↦
              if not input.root.is_directory
              then (s, some root_not_directory)
              else updates input.temp (change_all path persona (record project { root = root })) s
        ]
      ]
    ]
  ]
  perform input r get s = (s, none)
  perform input r persona_put s = elim r.persona [
    | none ↦ (s, some persona_required)
    | some persona ↦
        with_store s (set_persona parse_address encode input.temp persona s.store s.disk)
  ]
  perform input r project_put s = elim r.project [
    | none ↦ (s, some project_required)
    | some project ↦
        with_store s (set_project parse_address encode input.temp input.root project s.store s.disk)
  ]
  perform input r gh_set s = elim input.gh [
    | none ↦ (s, some invalid_gh)
    | some path ↦ updates input.temp (change_gh path) s
  ]
  perform input r policy_set s = elim r.policy [
    | none ↦ (s, some policy_required)
    | some policy ↦ updates input.temp (change_policy policy r.project_id) s
  ]
  perform input r session_create s =
      let (s', result) = create_session input.create r.project_id r.backend r.principal s in
      (s', outcome_error result)
  perform input r session_revoke s = revoke_session r.session_id s
  perform input r session_persona s = select_session_persona r.session_id r.persona_id s

-- slices.SortFunc by the session's ID
unfoldable pub insert_session : Session → List Session → List Session
insert_session s [] = s ∷ []
insert_session s (t ∷ ts) =
    if is_le (compare s.id t.id) then s ∷ t ∷ ts else t ∷ insert_session s ts

unfoldable pub sort_sessions : List Session → List Session
unfolding insert_session
sort_sessions [] = []
sort_sessions (s ∷ ss) = insert_session s (sort_sessions ss)

abbrev pub values : Map String Session → List Session
values [] = []
values ((id, session) ∷ rest) = session ∷ values rest

module _ {Content Check : Type 0} (parse_address : String → Option String)
    (encode : State → Option Content) (examine : Service Content → Request → List Check) where
  unfoldable pub snapshot : Service Content → Snapshot Check
  unfolding sort_sessions
  snapshot s = record {
    state = s.store.state;
    sessions = sort_sessions (values s.sessions);
    checks = [];
  }

  abbrev pub checks_of : Action → Request → Service Content → List Check
  checks_of doctor r s = examine s r
  checks_of action r s = []

  abbrev pub reply :
      Action
      → Request
      → Service Content × Option ServiceError
      → Service Content × Outcome (Snapshot Check)
  reply action r (s, none) = (s, gives (record (snapshot s) { checks = checks_of action r s }))
  reply action r (s, some e) = (s, refuses e)

  unfoldable pub call :
      CallInput → Request → Service Content → Service Content × Outcome (Snapshot Check)
  unfolding action_of perform snapshot
  call input r s = elim (action_of r.action) [
    | none ↦ (s, refuses unknown_operation)
    | some action ↦ reply action r (perform parse_address encode input r action s)
  ]
