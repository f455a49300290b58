-- ===== src/Identity/Sessions/Created.antt =====
-- A session from its creation to its end.
use text.Mathlib.TextEquality.{eq_iff}
use mathlib.Core.Path.{subst⁻¹}
use dovik.Identity.Store.{Store}
use dovik.Prelude.{
  ℕ, String, ◌≡◌, ◌≢◌, refl, true, false, ◌&&◌, Option, none, some, Option-cases, Bool-cases, inl,
  inr, lookup, lookup-insert_self, lookup-delete_self, ◌==◌, string_eq,
}
use dovik.Identity.Model.{Persona, Project, contains, find_persona, find_project}
use dovik.Identity.Validation.{validate_state}
use dovik.Identity.Finding.{find_project_lem}
use dovik.Identity.Sessions.{
  Session, Service, Outcome, gives, refuses, CreateInput, backends, new_session, native_session,
  with_session, added, create_session, session_context, context, revoke_session,
  session_unavailable,
}
use dovik.Identity.Sessions.Permitted.{found_project_id}
use dovik.Identity.Sessions.Hosts.{found_project}

-- What a session has of the project that it was created for.
record Of (p : Project) (backend : String) (session : Session) : Type 0 where
  same_project : session.project_id ≡ p.id
  own_persona : session.persona_id ≡ p.persona
  same_backend : session.backend ≡ backend

native_session-Of :
    (input : CreateInput) (p : Project) (backend : String) (first session : Session) (listener : ℕ)
    → native_session input first ≡ gives (session, listener)
    → Of p backend first
    → Of p backend session
native_session-Of input p backend first session listener h of_first =
    elim (Bool-cases input.boundary) [
      | inr e ↦ let h' = rw e at h in absurd (cc h')
      | inl e ↦ elim (Option-cases (input.account first.principal)) [
        | inl e1 ↦ let h' = rw (e, e1) at h in absurd (cc h')
        | inr (account, e1) ↦ elim (Option-cases input.listener) [
          | inl e2 ↦ let h' = rw (e, e1, e2) at h in absurd (cc h')
          | inr (l, e2) ↦
              let h' = rw (e, e1, e2) at h in
              let same : session ≡ record first { principal = account; endpoint = l.1 } = cc h' in
              rw same (record {
                same_project = of_first.same_project;
                own_persona = of_first.own_persona;
                same_backend = of_first.same_backend;
              })
        ]
      ]
    ]

pub named_session : (id : String) → id ≢ "" → (id == "") ≡ false
named_session id ne = elim (Bool-cases (id == "")) [
  | inl e ↦ absurd (ne ((eq_iff id "").0 e))
  | inr e ↦ e
]

module _ {Content : Type 0} where
  -- What is known of a session that was created.
  record Created (project_id backend : String) (s s' : Service Content) (session : Session)
      : Type 0 where
    project : Project
    found : find_project s.store.state.projects project_id "" ≡ some project
    isolated : (project.mode == "agent-isolation" && backend == "proxy-level") ≡ false
    of_project : Of project backend session
    there : lookup session.id s'.sessions ≡ some session
    same_store : s'.store ≡ s.store

  added-gives :
      (s s' : Service Content) (session : Session) (result : Outcome (Session × ℕ))
      → added s result ≡ (s', gives session)
      → (listener : ℕ) × (result ≡ gives (session, listener))
        × (lookup session.id s'.sessions ≡ some session)
        × (s'.store ≡ s.store)
  added-gives s s' session (refuses e) h = absurd (cc h)
  added-gives s s' session (gives (made, listener)) h =
      let same : session ≡ made = cc h in
      let stored : s' ≡ (added s (gives (made, listener))).0 = cc h in
      (
        listener,
        rw same refl,
        rw (same, stored) (lookup-insert_self made.id made s.sessions),
        rw stored refl,
      )

  create_session-Created :
      (input : CreateInput) (project_id backend principal : String) (s s' : Service Content)
      (session : Session)
      → create_session input project_id backend principal s ≡ (s', gives session)
      → Created project_id backend s s' session
  unfolding create_session
  create_session-Created input project_id backend principal s s' session h =
      elim (Option-cases (find_project s.store.state.projects project_id "")) [
        | inl e ↦ let h' = rw (e, create_session) at h in absurd (cc h')
        | inr (p, e) ↦ elim (Bool-cases (contains backends backend)) [
          | inr e1 ↦ let h' = rw (e, e1, create_session) at h in absurd (cc h')
          | inl e1 ↦ elim (Bool-cases (p.mode == "agent-isolation" && backend == "proxy-level")) [
            | inl e2 ↦ let h' = rw (e, e1, e2, create_session) at h in absurd (cc h')
            | inr e2 ↦ elim (Option-cases input.nonce) [
              | inl e3 ↦ let h' = rw (e, e1, e2, e3, create_session) at h in absurd (cc h')
              | inr (nonce, e3) ↦
                  let first = new_session p nonce backend principal in
                  elim (Bool-cases (backend == "native")) [
                    | inl e4 ↦
                        let h' = rw (e, e1, e2, e3, e4, create_session) at h in
                        let (listener, made, there, store) =
                          added-gives s s' session (native_session input first) h' in
                        record {
                          project = p;
                          found = e;
                          isolated = e2;
                          of_project =
                              native_session-Of input p backend first session listener made
                                (record {
                                  same_project = refl;
                                  own_persona = refl;
                                  same_backend = refl;
                                });
                          there = there;
                          same_store = store;
                        }
                    | inr e4 ↦
                        let h' = rw (e, e1, e2, e3, e4, create_session) at h in
                        let same : session ≡ first = cc h' in
                        let stored : s' ≡ with_session s first = cc h' in
                        record {
                          project = p;
                          found = e;
                          isolated = e2;
                          of_project = rw same (record {
                            same_project = refl;
                            own_persona = refl;
                            same_backend = refl;
                          });
                          there = rw (same, stored) (lookup-insert_self nonce first s.sessions);
                          same_store = rw stored refl;
                        }
                  ]
            ]
          ]
        ]
      ]

  session_context-serves :
      (s : Service Content) (session : Session) (p : Project) (persona : Persona) (backend : String)
      → find_project s.store.state.projects p.id "" ≡ some p
      → find_persona s.store.state.personas p.persona ≡ some persona
      → (p.mode == "agent-isolation" && backend == "proxy-level") ≡ false
      → Of p backend session
      → session_context s session ≡ gives (p, persona)
  unfolding session_context
  session_context-serves s session p persona backend by_id found isolated of_project =
      let own : (p.persona == p.persona) ≡ true = (eq_iff p.persona p.persona).1 refl in
      rw (of_project.same_project, by_id, session_context)
        (rw (of_project.own_persona, of_project.same_backend) (rw (isolated, own) (rw found refl)))

  -- In a valid state a request in a session that was just created is never refused for its session,
  -- project or persona: it runs as the project asked for and that project's own persona.
  pub create_session-context :
      (parse_address : String → Option String) (input : CreateInput)
      (project_id backend principal other root : String) (s s' : Service Content)
      (session : Session)
      → validate_state parse_address s.store.state ≡ none
      → create_session input project_id backend principal s ≡ (s', gives session)
      → session.id ≢ ""
      → (p : Project) × (persona : Persona) × (p.id ≡ project_id)
        × (persona.id ≡ p.persona)
        × (context s' session.id other root ≡ gives (p, persona))
  unfolding context session_context
  create_session-context parse_address input project_id backend principal other root s s' session
        valid h ne =
      let made = create_session-Created input project_id backend principal s s' session h in
      let p = made.project in
      let there = found_project s.store.state.projects project_id "" p made.found in
      let (by_id, by_root, persona, found, same) =
        find_project_lem parse_address s.store.state p "" valid there in
      let named : (session.id == "") ≡ false = named_session session.id ne in
      (
        p,
        persona,
        found_project_id s.store.state.projects project_id p made.found,
        same,
        rw (named, made.there, context)
            (session_context-serves s' session p persona backend
              (subst⁻¹ (λ (x : Store). find_project x.state.projects p.id "" ≡ some p)
                made.same_store by_id)
              (subst⁻¹ (λ (x : Store). find_persona x.state.personas p.persona ≡ some persona)
                made.same_store found)
              made.isolated made.of_project),
      )

  -- After a session is revoked no request in it is served.
  pub revoke_session-context :
      (id other root : String) (s : Service Content)
      → id ≢ ""
      → (revoke_session id s).1 ≡ none
      → context (revoke_session id s).0 id other root ≡ refuses session_unavailable
  unfolding context revoke_session
  revoke_session-context id other root s ne h = elim (Option-cases (lookup id s.sessions)) [
    | inl e ↦ let h' = rw (e, revoke_session) at h in absurd (cc h')
    | inr (session, e) ↦
        let named = named_session id ne in
        let gone = lookup-delete_self id s.sessions in
        elim (Option-cases (lookup id s.listeners)) [
          | inl e1 ↦ rw (e, e1, revoke_session, named, context) (rw gone refl)
          | inr (listener, e1) ↦ rw (e, e1, revoke_session, named, context) (rw gone refl)
        ]
  ]
