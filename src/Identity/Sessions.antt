-- ===== src/Identity/Sessions.antt =====
-- internal/identity/service.go: the sessions of agents, and what a request runs as.
-- What the platform says is in the input of an operation: random bytes in hexadecimal, the check of
-- the boundary between accounts, the account that a name resolves to, and a listener.
pub mod Hosts
pub mod Permitted
pub mod Created
use dovik.Prelude.{
  ℕ, String, Bool, true, false, not, ◌&&◌, ◌||◌, Option, none, some, List, [], ◌∷◌, Map, lookup,
  insert, delete, if◌then◌else◌, ◌==◌, string_eq,
}
use dovik.Storage.{Disk}
use dovik.Identity.Model.{
  Persona, Policy, Project, State, contains, allows, find_persona, find_project,
}
use dovik.Identity.Validation.{host_of}
use dovik.Identity.Store.{Store, StoreError}

pub record Session : Type 0 where
  pub status : String
  pub id : String
  pub project_id : String
  pub persona_id : String
  pub backend : String
  pub principal : String
  pub endpoint : String

-- The service. A listener is known by a number; `closed` are those that were closed.
pub record Service (Content : Type 0) : Type 0 where
  pub store : Store
  pub disk : Disk Content
  pub sessions : Map String Session
  pub listeners : Map String ℕ
  pub closed : List ℕ

pub data ServiceError : Type 0 where
  store_failed : StoreError → ServiceError
  unknown_project unknown_persona unknown_backend requires_isolation : ServiceError
  no_nonce no_boundary no_principal no_listener : ServiceError
  session_unavailable not_isolated_anymore persona_not_permitted persona_not_allowed : ServiceError
  other_host unknown_session unknown_operation : ServiceError
  persona_required project_required policy_required : ServiceError
  invalid_gh no_root root_not_directory : ServiceError

pub data Outcome (A : Type 0) : Type 0 where
  gives : A → Outcome A
  refuses : ServiceError → Outcome A

abbrev pub backends : List String
backends = "proxy-level" ∷ "native" ∷ "docker" ∷ "podman" ∷ []

pub record CreateInput : Type 0 where
  pub nonce : Option String
  pub boundary : Bool
  pub account : String → Option String
  pub listener : Option (ℕ × String)

-- if r.Backend == "native": the check of the boundary, the account and the listener
abbrev pub native_session : CreateInput → Session → Outcome (Session × ℕ)
native_session input session =
    if not input.boundary then refuses no_boundary else elim (input.account session.principal) [
      | none ↦ refuses no_principal
      | some account ↦ elim input.listener [
        | none ↦ refuses no_listener
        | some (listener, endpoint) ↦
            gives (record session { principal = account; endpoint = endpoint }, listener)
      ]
    ]

abbrev pub new_session : Project → String → String → String → Session
new_session p nonce backend principal = record {
  status = if backend == "proxy-level" then "active" else "awaiting-agent";
  id = nonce;
  project_id = p.id;
  persona_id = p.persona;
  backend = backend;
  principal = principal;
  endpoint = "";
}

abbrev handles : Map String ℕ → List ℕ → List ℕ
handles [] closed = closed
handles ((id, listener) ∷ rest) closed = handles rest (listener ∷ closed)

abbrev pub with_persona : Project → Option Persona → Outcome (Project × Persona)
with_persona p none = refuses unknown_persona
with_persona p (some persona) = gives (p, persona)

module _ {Content : Type 0} where
  -- the session, written to the map under its ID
  abbrev pub with_session : Service Content → Session → Service Content
  with_session s session = record s { sessions = insert session.id session s.sessions }

  abbrev pub added : Service Content → Outcome (Session × ℕ) → Service Content × Outcome Session
  added s (refuses e) = (s, refuses e)
  added s (gives (session, listener)) = (
    record (with_session s session) { listeners = insert session.id listener s.listeners },
    gives session,
  )

  unfoldable pub create_session :
      CreateInput → String → String → String → Service Content → Service Content × Outcome Session
  unfolding find_project contains
  create_session input project_id backend principal s =
      elim (find_project s.store.state.projects project_id "") [
        | none ↦ (s, refuses unknown_project)
        | some p ↦
            if not (contains backends backend)
            then (s, refuses unknown_backend)
            else if p.mode == "agent-isolation" && backend == "proxy-level"
            then (s, refuses requires_isolation)
            else elim input.nonce [
              | none ↦ (s, refuses no_nonce)
              | some nonce ↦
                  let session = new_session p nonce backend principal in
                  if backend == "native"
                  then added s (native_session input session)
                  else (with_session s session, gives session)
            ]
      ]

  -- original.Host != alternative.Host; `original` is the empty persona if there is none.
  unfoldable pub select_session_persona :
      String → String → Service Content → Service Content × Option ServiceError
  unfolding find_project find_persona allows contains
  select_session_persona id persona s = elim (lookup id s.sessions) [
    | none ↦ (s, some session_unavailable)
    | some session ↦ elim (find_project s.store.state.projects session.project_id "") [
      | none ↦ (s, some unknown_project)
      | some p ↦
          if not (allows p.policy "persona")
            || (not (persona == p.persona) && not (contains p.alternatives persona))
          then (s, some persona_not_allowed)
          else elim (find_persona s.store.state.personas persona) [
            | none ↦ (s, some other_host)
            | some alternative ↦
                if not (host_of (find_persona s.store.state.personas p.persona) == alternative.host)
                then (s, some other_host)
                else (
                  record s {
                    sessions = insert id (record session { persona_id = persona }) s.sessions;
                  },
                  none,
                )
          ]
    ]
  ]

  unfoldable pub activate_session : String → Service Content → Service Content
  activate_session id s = elim (lookup id s.sessions) [
    | none ↦ s
    | some session ↦ record s {
      sessions = insert id (record session { status = "active" }) s.sessions;
    }
  ]

  -- the case "session.revoke"
  unfoldable pub revoke_session : String → Service Content → Service Content × Option ServiceError
  revoke_session id s = elim (lookup id s.sessions) [
    | none ↦ (s, some unknown_session)
    | some session ↦
        let s1 = record s { sessions = delete id s.sessions } in
        elim (lookup id s.listeners) [
          | none ↦ (s1, none)
          | some listener ↦
              (record s1 { listeners = delete id s.listeners; closed = listener ∷ s.closed }, none)
        ]
  ]

  -- `Close`
  unfoldable pub close_service : Service Content → Service Content
  close_service s = record s { sessions = []; closed = handles s.listeners s.closed }

  unfoldable pub session_context : Service Content → Session → Outcome (Project × Persona)
  unfolding find_project find_persona contains
  session_context s session = elim (find_project s.store.state.projects session.project_id "") [
    | none ↦ refuses unknown_project
    | some p ↦
        if p.mode == "agent-isolation" && session.backend == "proxy-level"
        then refuses not_isolated_anymore
        else if not (session.persona_id == p.persona)
            && not (contains p.alternatives session.persona_id)
        then refuses persona_not_permitted
        else with_persona p (find_persona s.store.state.personas session.persona_id)
  ]

  -- `Context`: the project and the persona that a request runs as
  unfoldable pub context : Service Content → String → String → String → Outcome (Project × Persona)
  unfolding session_context find_project find_persona
  context s session_id project_id root =
      if not (session_id == "")
      then (elim (lookup session_id s.sessions) [
        | none ↦ refuses session_unavailable
        | some session ↦ session_context s session
      ])
      else elim (find_project s.store.state.projects project_id root) [
        | none ↦ refuses unknown_project
        | some p ↦
            if p.mode == "agent-isolation"
            then refuses requires_isolation
            else with_persona p (find_persona s.store.state.personas p.persona)
      ]
