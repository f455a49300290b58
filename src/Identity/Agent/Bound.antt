-- ===== src/Identity/Agent/Bound.antt =====
-- What an agent can do over its connection.
use text.Mathlib.TextEquality.{eq_iff}
use mathlib.Core.Path.{subst}
use dovik.Prelude.{
  arith, ◌⊎◌, String, ◌≡◌, ◌≢◌, refl, Bool, true, false, not, ◌&&◌, ◌||◌, Option, none, some,
  Option-cases, Bool-cases, inl, inr, lookup, insert, lookup-insert_self, lookup-insert_ne, ◌==◌,
  string_eq,
}
use dovik.Identity.Model.{Persona, Project, State, contains, allows, find_persona, find_project}
use dovik.Identity.Validation.{host_of, validate_state}
use dovik.Identity.Sessions.{
  Session, Service, Outcome, gives, refuses, context, select_session_persona,
}
use dovik.Identity.Sessions.Created.{named_session}
use dovik.Identity.Sessions.Permitted.{RunsAs, InSession, context-RunsAs}
use dovik.Identity.Agent.{
  ExecutionRequest, AgentRequest, Execution, not_served, no_credentials_here, ran, executed,
  execute_request, handle_agent, is_agent_version,
}
use dovik.Identity.Commands.{Invocation}
use dovik.Identity.Authorize.{is_git_credential_invocation}

-- A session that is another with the persona that it has: all else of the two is equal.
abbrev pub Repersoned : Session → Session → Type 0
Repersoned session session' = session' ≡ record session { persona_id = session'.persona_id }

-- A persona that the session may change to: its project lets agents choose, and permits this one, which
-- is on the host of the project's own persona.
pub record Selectable (state : State) (project_id persona : String) : Type 0 where
  pub project : Project
  pub project_there : find_project state.projects project_id "" ≡ some project
  pub chooses : allows project.policy "persona" ≡ true
  pub permitted : (persona ≡ project.persona) ⊎ (contains project.alternatives persona ≡ true)
  pub found : Persona
  pub persona_there : find_persona state.personas persona ≡ some found
  pub same_host : host_of (find_persona state.personas project.persona) ≡ found.host

-- what `selectSessionPersona` refuses by the project
abbrev not_selectable : Project → String → Bool
not_selectable p persona =
    not (allows p.policy "persona")
    || (not (persona == p.persona) && not (contains p.alternatives persona))

selected :
    (p : Project) (persona : String)
    → not_selectable p persona ≡ false
    → (allows p.policy "persona" ≡ true)
      × ((persona ≡ p.persona) ⊎ (contains p.alternatives persona ≡ true))
selected p persona h = elim (Bool-cases (persona == p.persona)) [
  | inl e ↦ (ground (arith, h), inl ((eq_iff persona p.persona).0 e))
  | inr e ↦ (ground (arith, h), inr (ground (arith, e, h)))
]

module _ {Content : Type 0} where
  -- The stored state, the listeners and all other sessions are untouched; the session of the
  -- connection has at most another persona, and if it is not there it does not come back.
  pub record Bound (session_id : String) (s s' : Service Content) : Type 0 where
    pub store : s'.store ≡ s.store
    pub disk : s'.disk ≡ s.disk
    pub listeners : s'.listeners ≡ s.listeners
    pub closed : s'.closed ≡ s.closed
    pub others : (id : String) → session_id ≢ id → lookup id s'.sessions ≡ lookup id s.sessions
    pub own :
        (session : Session)
        → lookup session_id s.sessions ≡ some session
        → (session' : Session) × (lookup session_id s'.sessions ≡ some session')
          × Repersoned session session'
          × ((session'.persona_id ≡ session.persona_id)
              ⊎ Selectable s.store.state session.project_id session'.persona_id)
    pub absent : lookup session_id s.sessions ≡ none → lookup session_id s'.sessions ≡ none

  Bound-refl : (session_id : String) (s : Service Content) → Bound session_id s s
  Bound-refl session_id s = record {
    store = refl;
    disk = refl;
    listeners = refl;
    closed = refl;
    others = λ id ne. refl;
    own = λ session e. (session, e, refl, inl refl);
    absent = λ e. e;
  }

  inserted-Bound :
      (session_id : String) (s : Service Content) (session : Session) (persona : String)
      → lookup session_id s.sessions ≡ some session
      → Selectable s.store.state session.project_id persona
      → Bound session_id s (record s {
        sessions = insert session_id (record session { persona_id = persona }) s.sessions;
      })
  inserted-Bound session_id s session persona e selectable =
      let changed = record session { persona_id = persona } in
      record {
        store = refl;
        disk = refl;
        listeners = refl;
        closed = refl;
        others = λ id ne. lookup-insert_ne session_id id changed s.sessions ne;
        own = λ old e'.
            let same : session ≡ old = cc (e, e') in
            (
              changed,
              lookup-insert_self session_id changed s.sessions,
              subst (λ x. Repersoned x changed) same refl,
              inr (
                  subst (λ (x : Session). Selectable s.store.state x.project_id persona) same
                    selectable),
            );
        absent = λ gone. absurd (cc (e, gone));
      }

  select-Bound :
      (session_id persona : String) (s : Service Content)
      → Bound session_id s (select_session_persona session_id persona s).0
  unfolding select_session_persona
  select-Bound session_id persona s = elim (Option-cases (lookup session_id s.sessions)) [
    | inl e ↦ rw (e, select_session_persona) (Bound-refl session_id s)
    | inr (session, e) ↦
        elim (Option-cases (find_project s.store.state.projects session.project_id "")) [
          | inl e1 ↦ rw (e, e1, select_session_persona) (Bound-refl session_id s)
          | inr (p, e1) ↦ elim (Bool-cases (not_selectable p persona)) [
            | inl e2 ↦ rw (e, e1, e2, select_session_persona) (Bound-refl session_id s)
            | inr e2 ↦ elim (Option-cases (find_persona s.store.state.personas persona)) [
              | inl e3 ↦ rw (e, e1, e2, e3, select_session_persona) (Bound-refl session_id s)
              | inr (found, e3) ↦
                  elim (Bool-cases
                    (host_of (find_persona s.store.state.personas p.persona) == found.host)) [
                      | inr e4 ↦
                          rw (e, e1, e2, e3, e4, select_session_persona) (Bound-refl session_id s)
                      | inl e4 ↦
                          rw (e, e1, e2, e3, e4, select_session_persona)
                            (inserted-Bound session_id s session persona e (record {
                              project = p;
                              project_there = e1;
                              chooses = (selected p persona e2).0;
                              permitted = (selected p persona e2).1;
                              found = found;
                              persona_there = e3;
                              same_host =
                                  (eq_iff (host_of (find_persona s.store.state.personas p.persona))
                                      found.host).0
                                    e4;
                            }))
                    ]
            ]
          ]
        ]
  ]

-- What may come of a run in a session: it is refused, or it is gh for a project and a persona that the
-- session permits, and never the helper that gives the credential away.
abbrev pub Served :
    {Content Result : Type 0}
    → (String → Project → Persona → Invocation → Result)
    → Service Content
    → ExecutionRequest
    → Execution Result
    → Type 0
Served run s r (not_served e) = Unit
Served run s r no_credentials_here = is_git_credential_invocation r.invocation ≡ true
Served run s r (ran result) =
    (is_git_credential_invocation r.invocation ≡ false)
    × ((p : Project) × (persona : Persona) × (result
          ≡ run s.store.state.gh_path p persona r.invocation)
        × RunsAs s.store.state p persona
        × ((session : Session) × (lookup r.session_id s.sessions ≡ some session)
            × InSession session p persona))

module _ {Content Result : Type 0} (run : String → Project → Persona → Invocation → Result)
    (parse_address : String → Option String) (s : Service Content) where
  executed-Served :
      (r : ExecutionRequest) (outcome : Outcome (Project × Persona))
      → validate_state parse_address s.store.state ≡ none
      → r.session_id ≢ ""
      → context s r.session_id r.project_id r.root ≡ outcome
      → Served run s r (executed run s r outcome)
  executed-Served r (refuses e) valid ne h = tt
  executed-Served r (gives (p, persona)) valid ne h =
      let named = named_session r.session_id ne in
      let (runs, alone, inside) =
        context-RunsAs parse_address s valid p persona r.session_id r.project_id r.root h in
      elim (Bool-cases (is_git_credential_invocation r.invocation)) [
        | inl e ↦ rw (named, e) e
        | inr e ↦ rw (named, e) (e, (p, persona, refl, runs, inside ne))
      ]

  -- Whatever is executed in a session, while the stored state is valid, is refused, or it is gh for a
  -- project and a persona that the session permits, and is not the helper that gives the credential.
  pub execute_request-Served :
      (r : ExecutionRequest)
      → validate_state parse_address s.store.state ≡ none
      → r.session_id ≢ ""
      → Served run s r (execute_request run s r)
  unfolding execute_request
  execute_request-Served r valid ne =
      executed-Served r (context s r.session_id r.project_id r.root) valid ne refl

module _ {Content Result : Type 0} (run : String → Project → Persona → Invocation → Result)
    (s : Service Content) where
  -- Whatever comes in over the connection of a session: the stored state, the listeners and all
  -- other sessions stay as they are, and this session has at most another persona, which its project
  -- permits it to choose, all else of it as before; if it is not there, as after it was revoked, it
  -- does not come back.
  pub handle_agent-Bound :
      (session_id : String) (request : Option AgentRequest)
      → Bound session_id s (handle_agent run session_id request s).0
  unfolding handle_agent
  handle_agent-Bound session_id none = Bound-refl session_id s
  handle_agent-Bound session_id (some request) =
      let same = Bound-refl session_id s in
      elim (Bool-cases (is_agent_version request.version)) [
        | inr e ↦ rw (e, handle_agent) same
        | inl e ↦ elim (Bool-cases (request.action == "execute")) [
          | inl e1 ↦ rw (e, e1, handle_agent) same
          | inr e1 ↦ elim (Bool-cases (request.action == "context")) [
            | inl e2 ↦ rw (e, e1, e2, handle_agent) same
            | inr e2 ↦ elim (Bool-cases (request.action == "persona")) [
              | inl e3 ↦
                  rw (e, e1, e2, e3, handle_agent) (select-Bound session_id request.persona_id s)
              | inr e3 ↦ rw (e, e1, e2, e3, handle_agent) same
            ]
          ]
        ]
      ]
