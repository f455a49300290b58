-- ===== src/Identity/Service/Calling.antt =====
-- Every call keeps the stored state sound, and a call that is refused changes nothing but the disk.
use dovik.Prelude.{
  String, ◌≡◌, ◌≢◌, refl, ap, Option, none, some, Option-cases, Bool-cases, inl, inr, List, clean,
  string_eq, arith,
}
use mathlib.Core.Path.{subst⁻¹}
use dovik.Storage.{Disk}
use dovik.Identity.Model.{Persona, Project, State}
use dovik.Identity.Store.{
  Changed, StoreError, Store, update, change_persona, change_project, set_persona, set_project,
  RootInput,
}
use dovik.Identity.Store.Updating.{Sound, Updated, update-Updated}
use dovik.Identity.Sessions.{
  Service, ServiceError, CreateInput, create_session, select_session_persona, revoke_session,
}
use dovik.Identity.Service.{
  Request, CallInput, Action, doctor, persona_import, configure, get, persona_put, project_put,
  gh_set, policy_set, session_create, session_revoke, session_persona, with_store, updates,
  change_gh, change_policy, change_all, import_personas, outcome_error, perform, call, action_of,
  reply,
}

module _ {Content : Type 0} where
  pub record SameService (s s' : Service Content) : Type 0 where
    pub store : s'.store ≡ s.store
    pub sessions : s'.sessions ≡ s.sessions
    pub listeners : s'.listeners ≡ s.listeners
    pub closed : s'.closed ≡ s.closed

  pub record Keeps (parse_address : String → Option String) (s s' : Service Content)
      (error : Option ServiceError) : Type 0 where
    pub path : s'.store.path ≡ s.store.path
    pub sound : Sound parse_address s'.store
    pub refused : (e : ServiceError) → error ≡ some e → SameService s s'

module _ {Content : Type 0} (parse_address : String → Option String)
    (encode : State → Option Content) where
  abbrev Kept : Service Content → Service Content × Option ServiceError → Type 0
  Kept s (s', error) = Keeps parse_address s s' error

  unchanged :
      (s : Service Content) (error : Option ServiceError)
      → Sound parse_address s.store
      → Kept s (s, error)
  unchanged s error sound = record {
    path = refl;
    sound = sound;
    refused = λ e h. record { store = refl; sessions = refl; listeners = refl; closed = refl };
  }

  with_store-Kept :
      (s : Service Content) (temp : String) (change : State → Changed)
      (result : Store × Disk Content × Option StoreError)
      → Sound parse_address s.store
      → Updated encode temp parse_address change s.store s.disk result
      → Kept s (with_store s result)
  with_store-Kept s temp change (store, disk, none) sound (next, e1, e2, sound', holds, others) =
      record {
        path = ap (λ (x : Store). x.path) e2;
        sound = subst⁻¹ (Sound parse_address) e2 sound';
        refused = λ e h. absurd (cc h);
      }
  with_store-Kept s temp change (store, disk, some error) sound (e2, kept, others) = record {
    path = ap (λ (x : Store). x.path) e2;
    sound = subst⁻¹ (Sound parse_address) e2 sound;
    refused = λ e h. record { store = e2; sessions = refl; listeners = refl; closed = refl };
  }

  updates-Kept :
      (s : Service Content) (temp : String) (change : State → Changed)
      → Sound parse_address s.store
      → temp ≢ s.store.path
      → Kept s (updates parse_address encode temp change s)
  updates-Kept s temp change sound ne =
      with_store-Kept s temp change (update parse_address encode temp change s.store s.disk) sound
        (update-Updated parse_address encode temp change s.store s.disk ne)

  set_project-Kept :
      (input : RootInput) (project : Project) (s : Service Content) (temp : String)
      → Sound parse_address s.store
      → temp ≢ s.store.path
      → Kept s (with_store s (set_project parse_address encode temp input project s.store s.disk))
  unfolding set_project
  set_project-Kept input project s temp sound ne = elim (Option-cases input.resolved) [
    | inl e ↦ rw (e, set_project) (unchanged s _ sound)
    | inr (root, e) ↦ elim (Bool-cases input.is_directory) [
      | inr e' ↦ rw (e, e', set_project) (unchanged s _ sound)
      | inl e' ↦
          rw (e, e', set_project)
            (updates-Kept s temp (change_project (record project { root = clean root })) sound ne)
    ]
  ]

  set_persona-Kept :
      (persona : Persona) (s : Service Content) (temp : String)
      → Sound parse_address s.store
      → temp ≢ s.store.path
      → Kept s (with_store s (set_persona parse_address encode temp persona s.store s.disk))
  unfolding set_persona
  set_persona-Kept persona s temp sound ne = updates-Kept s temp (change_persona persona) sound ne

  create_session-Kept :
      (input : CreateInput) (project_id backend principal : String) (s : Service Content)
      → ((create_session input project_id backend principal s).0.store ≡ s.store)
        × ((e : ServiceError)
            → outcome_error (create_session input project_id backend principal s).1 ≡ some e
            → (create_session input project_id backend principal s).0 ≡ s)
  unfolding create_session
  create_session-Kept input project_id backend principal s =
      (ground arith, λ e h. ground (arith, h))

  select-Kept :
      (id persona : String) (s : Service Content)
      → ((select_session_persona id persona s).0.store ≡ s.store)
        × ((e : ServiceError)
            → (select_session_persona id persona s).1 ≡ some e
            → (select_session_persona id persona s).0 ≡ s)
  unfolding select_session_persona
  select-Kept id persona s = (ground arith, λ e h. ground (arith, h))

  revoke-Kept :
      (id : String) (s : Service Content)
      → ((revoke_session id s).0.store ≡ s.store)
        × ((e : ServiceError) → (revoke_session id s).1 ≡ some e → (revoke_session id s).0 ≡ s)
  unfolding revoke_session
  revoke-Kept id s = (ground arith, λ e h. ground (arith, h))

  of_session :
      (s s' : Service Content) (error : Option ServiceError)
      → Sound parse_address s.store
      → (s'.store ≡ s.store) × ((e : ServiceError) → error ≡ some e → s' ≡ s)
      → Kept s (s', error)
  of_session s s' error sound (store, refused) = record {
    path = ap (λ (x : Store). x.path) store;
    sound = subst⁻¹ (Sound parse_address) store sound;
    refused = λ e h.
        subst⁻¹ (SameService s) (refused e h)
          (record { store = refl; sessions = refl; listeners = refl; closed = refl });
  }

  perform-Kept :
      (input : CallInput) (r : Request) (action : Action) (s : Service Content)
      → Sound parse_address s.store
      → input.temp ≢ s.store.path
      → Kept s (perform parse_address encode input r action s)
  unfolding perform
  perform-Kept input r doctor s sound ne = unchanged s none sound
  perform-Kept input r persona_import s sound ne =
      updates-Kept s input.temp (import_personas r.personas) sound ne
  perform-Kept input r configure s sound ne = elim (Option-cases r.persona) [
    | inl e ↦ rw (e, perform) (unchanged s _ sound)
    | inr (persona, e) ↦ elim (Option-cases r.project) [
      | inl e1 ↦ rw (e, e1, perform) (unchanged s _ sound)
      | inr (project, e1) ↦ elim (Option-cases input.gh) [
        | inl e2 ↦ rw (e, e1, e2, perform) (unchanged s _ sound)
        | inr (path, e2) ↦ elim (Option-cases input.root.resolved) [
          | inl e3 ↦ rw (e, e1, e2, e3, perform) (unchanged s _ sound)
          | inr (root, e3) ↦ elim (Bool-cases input.root.is_directory) [
            | inr e4 ↦ rw (e, e1, e2, e3, e4, perform) (unchanged s _ sound)
            | inl e4 ↦
                rw (e, e1, e2, e3, e4, perform)
                  (updates-Kept s input.temp
                    (change_all path persona (record project { root = root })) sound ne)
          ]
        ]
      ]
    ]
  ]
  perform-Kept input r get s sound ne = unchanged s none sound
  perform-Kept input r persona_put s sound ne = elim (Option-cases r.persona) [
    | inl e ↦ rw (e, perform) (unchanged s _ sound)
    | inr (persona, e) ↦ rw (e, perform) (set_persona-Kept persona s input.temp sound ne)
  ]
  perform-Kept input r project_put s sound ne = elim (Option-cases r.project) [
    | inl e ↦ rw (e, perform) (unchanged s _ sound)
    | inr (project, e) ↦ rw (e, perform) (set_project-Kept input.root project s input.temp sound ne)
  ]
  perform-Kept input r gh_set s sound ne = elim (Option-cases input.gh) [
    | inl e ↦ rw (e, perform) (unchanged s _ sound)
    | inr (path, e) ↦ rw (e, perform) (updates-Kept s input.temp (change_gh path) sound ne)
  ]
  perform-Kept input r policy_set s sound ne = elim (Option-cases r.policy) [
    | inl e ↦ rw (e, perform) (unchanged s _ sound)
    | inr (policy, e) ↦
        rw (e, perform) (updates-Kept s input.temp (change_policy policy r.project_id) sound ne)
  ]
  perform-Kept input r session_create s sound ne =
      of_session s (create_session input.create r.project_id r.backend r.principal s).0
        (outcome_error (create_session input.create r.project_id r.backend r.principal s).1) sound
        (create_session-Kept input.create r.project_id r.backend r.principal s)
  perform-Kept input r session_revoke s sound ne =
      of_session s (revoke_session r.session_id s).0 (revoke_session r.session_id s).1 sound
        (revoke-Kept r.session_id s)
  perform-Kept input r session_persona s sound ne =
      of_session s (select_session_persona r.session_id r.persona_id s).0
        (select_session_persona r.session_id r.persona_id s).1 sound
        (select-Kept r.session_id r.persona_id s)

module _ {Content Check : Type 0} (parse_address : String → Option String)
    (encode : State → Option Content) (examine : Service Content → Request → List Check) where
  reply-Keeps :
      (action : Action) (r : Request) (s : Service Content)
      (result : Service Content × Option ServiceError)
      → Keeps parse_address s result.0 result.1
      → Keeps parse_address s
          (reply parse_address encode examine action r result).0
          (outcome_error (reply parse_address encode examine action r result).1)
  reply-Keeps action r s (s', none) keeps = record {
    path = keeps.path;
    sound = keeps.sound;
    refused = λ e h. absurd (cc h);
  }
  reply-Keeps action r s (s', some error) keeps = record {
    path = keeps.path;
    sound = keeps.sound;
    refused = λ e h. keeps.refused error refl;
  }

  -- Every call on a service whose stored state is sound leaves it sound and at the same path; and a
  -- call that is refused leaves the state, the sessions and the listeners as they were.
  pub call-Keeps :
      (input : CallInput) (r : Request) (s : Service Content)
      → Sound parse_address s.store
      → input.temp ≢ s.store.path
      → Keeps parse_address s
          (call parse_address encode examine input r s).0
          (outcome_error (call parse_address encode examine input r s).1)
  unfolding call
  call-Keeps input r s sound ne = elim (Option-cases (action_of r.action)) [
    | inl e ↦ rw (e, call) (unchanged parse_address encode s _ sound)
    | inr (action, e) ↦
        rw (e, call)
          (reply-Keeps action r s (perform parse_address encode input r action s)
            (perform-Kept parse_address encode input r action s sound ne))
  ]
