-- ===== src/Identity/Sessions/Permitted.antt =====
-- What an agent may run as.
use text.Mathlib.TextEquality.{eq_iff}
use mathlib.Core.List.{Memᴰ}
use mathlib.Core.Path.{subst}
use dovik.Prelude.{
  String, ◌≡◌, ◌≢◌, refl, sym, ap, ◌∙◌, Bool, true, false, not, ◌&&◌, Option, none, some,
  Option-cases, Bool-cases, inl, inr, ◌⊎◌, List, [], ◌∷◌, lookup, ◌==◌, string_eq, arith,
}
use dovik.Identity.Model.{Persona, Project, State, contains, find_persona, find_project}
use dovik.Identity.Validation.{equal_fold, host_of, validate_state}
use dovik.Identity.Sessions.{Session, Service, gives, with_persona, session_context, context}
use dovik.Identity.Sessions.Hosts.{found_persona_id, found_project, permitted_host}

-- What a request runs as: `p` is a project of the state, and the persona is that of the project, or,
-- in a session, one of its alternatives.
pub record RunsAs (s : State) (p : Project) (persona : Persona) : Type 0 where
  pub project_there : Memᴰ p s.projects
  pub persona_there : find_persona s.personas persona.id ≡ some persona
  pub permitted : (p.persona ≡ persona.id) ⊎ (contains p.alternatives persona.id ≡ true)
  pub same_host : equal_fold (host_of (find_persona s.personas p.persona)) persona.host ≡ true

-- What of the session allows it.
pub record InSession (session : Session) (p : Project) (persona : Persona) : Type 0 where
  pub project : p.id ≡ session.project_id
  pub persona_id : persona.id ≡ session.persona_id
  pub isolated : p.mode ≡ "agent-isolation" → session.backend ≢ "proxy-level"

RunsAs-of_found :
    (parse_address : String → Option String) (s : State) (p : Project) (id : String)
    (persona : Persona)
    → validate_state parse_address s ≡ none
    → Memᴰ p s.projects
    → ((p.persona ≡ id) ⊎ (contains p.alternatives id ≡ true))
    → find_persona s.personas id ≡ some persona
    → RunsAs s p persona
RunsAs-of_found parse_address s p id persona valid t allowed found =
    let same = found_persona_id s.personas id persona found in
    let host = permitted_host parse_address s p id valid t allowed in
    record {
      project_there = t;
      persona_there = ap (find_persona s.personas) same ∙ found;
      permitted = rw same allowed;
      same_host = rw found at host;
    }

pub found_project_id :
    (projects : List Project) (id : String) (p : Project)
    → find_project projects id "" ≡ some p
    → p.id ≡ id
unfolding find_project
found_project_id [] id p h = absurd (cc h)
found_project_id (q ∷ qs) id p h = elim (Bool-cases (not (id == "") && q.id == id)) [
  | inl e ↦
      let h' = rw (e, find_project) at h in
      let same : q.id ≡ id = ground (arith, e, eq_iff q.id id) in cc (h', same)
  | inr e ↦ found_project_id qs id p (ground (arith, h, e))
]

given_persona :
    (p q : Project) (found : Option Persona) (persona : Persona)
    → with_persona p found ≡ gives (q, persona)
    → (p ≡ q) × (found ≡ some persona)
given_persona p q none persona h = absurd (cc h)
given_persona p q (some r) persona h = (cc h, cc h)

-- The two checks of a session, and what they leave.
abbrev not_isolated : Project → Session → Bool
not_isolated p session = p.mode == "agent-isolation" && session.backend == "proxy-level"

abbrev not_permitted : Project → Session → Bool
not_permitted p session =
    not (session.persona_id == p.persona) && not (contains p.alternatives session.persona_id)

isolated_of :
    (p : Project) (session : Session)
    → not_isolated p session ≡ false
    → p.mode ≡ "agent-isolation"
    → session.backend ≢ "proxy-level"
isolated_of p session h mode backend = ground (
  arith,
  h,
  (eq_iff p.mode "agent-isolation").1 mode,
  (eq_iff session.backend "proxy-level").1 backend,
)

permitted_of :
    (p : Project) (session : Session)
    → not_permitted p session ≡ false
    → (p.persona ≡ session.persona_id) ⊎ (contains p.alternatives session.persona_id ≡ true)
permitted_of p session h = elim (Bool-cases (session.persona_id == p.persona)) [
  | inl e ↦ inl (sym ((eq_iff session.persona_id p.persona).0 e))
  | inr e ↦ inr (ground (arith, h, e))
]

module _ {Content : Type 0} (parse_address : String → Option String) (s : Service Content)
    (valid : validate_state parse_address s.store.state ≡ none) (p : Project)
    (persona : Persona) where
  session_context-RunsAs :
      (session : Session)
      → session_context s session ≡ gives (p, persona)
      → RunsAs s.store.state p persona × InSession session p persona
  unfolding session_context
  session_context-RunsAs session h =
      elim (Option-cases (find_project s.store.state.projects session.project_id "")) [
        | inl e ↦ let h' = rw (e, session_context) at h in absurd (cc h')
        | inr (q, e) ↦ elim (Bool-cases (not_isolated q session)) [
          | inl e1 ↦ let h' = rw (e, e1, session_context) at h in absurd (cc h')
          | inr e1 ↦ elim (Bool-cases (not_permitted q session)) [
            | inl e2 ↦ let h' = rw (e, e1, e2, session_context) at h in absurd (cc h')
            | inr e2 ↦
                let h' = rw (e, e1, e2, session_context) at h in
                let (same, found) =
                  given_persona q p (find_persona s.store.state.personas session.persona_id) persona
                    h' in
                subst (λ x. RunsAs s.store.state x persona × InSession session x persona) same
                  (
                    RunsAs-of_found parse_address s.store.state q session.persona_id persona valid
                        (found_project s.store.state.projects session.project_id "" q e)
                        (permitted_of q session e2) found,
                    record {
                      project = found_project_id s.store.state.projects session.project_id q e;
                      persona_id =
                          found_persona_id s.store.state.personas session.persona_id persona found;
                      isolated = isolated_of q session e1;
                    },
                  )
          ]
        ]
      ]

  -- In a valid state, what a request runs as is a project of the state and a persona of the state that
  -- the project permits, with the host of the project's own persona up to case. Without a session the
  -- persona is the project's own, and the project does not ask for isolation. In a session the session
  -- is there, project and persona are its own, and a project that asks for isolation has them only if
  -- the session is not one at the level of the proxy.
  pub context-RunsAs :
      (session_id project_id root : String)
      → context s session_id project_id root ≡ gives (p, persona)
      → RunsAs s.store.state p persona
        × (session_id ≡ "" → (p.mode ≢ "agent-isolation") × (p.persona ≡ persona.id))
        × (session_id ≢ ""
            → (session : Session) × (lookup session_id s.sessions ≡ some session)
              × InSession session p persona)
  unfolding context
  context-RunsAs session_id project_id root h = elim (Bool-cases (session_id == "")) [
    | inl e ↦ elim (Option-cases (find_project s.store.state.projects project_id root)) [
      | inl e1 ↦ let h' = rw (e, e1, context) at h in absurd (cc h')
      | inr (q, e1) ↦ elim (Bool-cases (q.mode == "agent-isolation")) [
        | inl e2 ↦ let h' = rw (e, e1, e2, context) at h in absurd (cc h')
        | inr e2 ↦
            let h' = rw (e, e1, e2, context) at h in
            let (same, found) =
              given_persona q p (find_persona s.store.state.personas q.persona) persona h' in
            subst
              (λ x.
                RunsAs s.store.state x persona
                × (session_id ≡ "" → (x.mode ≢ "agent-isolation") × (x.persona ≡ persona.id))
                × (session_id ≢ ""
                    → (session : Session) × (lookup session_id s.sessions ≡ some session)
                      × InSession session x persona))
              same
              (
                RunsAs-of_found parse_address s.store.state q q.persona persona valid
                    (found_project s.store.state.projects project_id root q e1) (inl refl) found,
                λ empty. (
                  λ mode. ground (arith, e2, (eq_iff q.mode "agent-isolation").1 mode),
                  sym (found_persona_id s.store.state.personas q.persona persona found),
                ),
                λ ne. absurd (ne ((eq_iff session_id "").0 e)),
              )
      ]
    ]
    | inr e ↦ elim (Option-cases (lookup session_id s.sessions)) [
      | inl e1 ↦ let h' = rw (e, e1, context) at h in absurd (cc h')
      | inr (session, e1) ↦
          let (runs, inside) = session_context-RunsAs session (rw (e, e1, context) at h) in
          (
            runs,
            λ empty. absurd (ground (arith, e, (eq_iff session_id "").1 empty)),
            λ ne. (session, e1, inside),
          )
    ]
  ]
