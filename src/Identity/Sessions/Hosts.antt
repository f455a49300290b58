-- ===== src/Identity/Sessions/Hosts.antt =====
-- What the searches of internal/identity/service.go find in a valid state.
use text.Mathlib.TextEquality.{eq_iff}
use mathlib.Core.List.{Memᴰ}
use dovik.Prelude.{
  String, ◌≡◌, refl, true, not, ◌&&◌, Option, none, some, Option-cases, Bool-cases, inl, inr, ◌⊎◌,
  List, [], ◌∷◌, ◌==◌, string_eq, arith,
}
use dovik.Identity.Model.{Persona, Project, State, contains, find_persona, find_project, path_key}
use dovik.Identity.Validation.{
  equal_fold, host_of, validate_alternatives, validate_details, validate_state,
}
use dovik.Identity.Finding.{valid_member, valid_projects}

equal_fold_refl : (s : String) → equal_fold s s ≡ true
unfolding equal_fold
equal_fold_refl String.[] = refl
equal_fold_refl (String.◌∷◌ c s) = ground (arith, equal_fold_refl s)

-- An alternative of a project has the host of its persona.
alternative_host :
    (personas : List Persona) (persona alternative : String) (alternatives : List String)
    → validate_alternatives personas persona alternatives ≡ none
    → contains alternatives alternative ≡ true
    → equal_fold
        (host_of (find_persona personas persona))
        (host_of (find_persona personas alternative))
      ≡ true
unfolding validate_alternatives contains
alternative_host personas persona alternative [] v h = absurd (cc h)
alternative_host personas persona alternative (a ∷ rest) v h =
    ground (arith, v, h, eq_iff a alternative, alternative_host personas persona alternative rest)

details_alternatives :
    (personas : List Persona) (p : Project)
    → validate_details personas p ≡ none
    → validate_alternatives personas p.persona p.alternatives ≡ none
unfolding validate_details
details_alternatives personas p h =
    elim (Option-cases (validate_alternatives personas p.persona p.alternatives)) [
      | inl e ↦ e
      | inr (x, e) ↦ absurd (ground (arith, h, e))
    ]

pub found_persona_id :
    (personas : List Persona) (id : String) (persona : Persona)
    → find_persona personas id ≡ some persona
    → persona.id ≡ id
unfolding find_persona
found_persona_id [] id persona h = absurd (cc h)
found_persona_id (p ∷ ps) id persona h = elim (Bool-cases (p.id == id)) [
  | inl e ↦ let h' = rw (e, find_persona) at h in cc (h', (eq_iff p.id id).0 e)
  | inr e ↦ found_persona_id ps id persona (rw (e, find_persona) at h)
]

-- The project that is found is one of them.
pub found_project :
    (projects : List Project) (id root : String) (p : Project)
    → find_project projects id root ≡ some p
    → Memᴰ p projects
unfolding find_project
found_project [] id root p h = absurd (cc h)
found_project (q ∷ qs) id root p h = elim (Bool-cases (not (id == "") && q.id == id)) [
  | inl e ↦ let h' = rw (e, find_project) at h in Memᴰ.head (cc h')
  | inr e ↦ elim (Bool-cases (id == "" && not (root == "") && path_key root == path_key q.root)) [
    | inl e' ↦ let h' = rw (e, e', find_project) at h in Memᴰ.head (cc h')
    | inr e' ↦ Memᴰ.tail (found_project qs id root p (rw (e, e', find_project) at h))
  ]
]

-- In a valid state the persona of a project and its alternatives have the same host, up to case.
pub permitted_host :
    (parse_address : String → Option String) (s : State) (p : Project) (id : String)
    → validate_state parse_address s ≡ none
    → Memᴰ p s.projects
    → ((p.persona ≡ id) ⊎ (contains p.alternatives id ≡ true))
    → equal_fold
        (host_of (find_persona s.personas p.persona))
        (host_of (find_persona s.personas id))
      ≡ true
permitted_host parse_address s p id valid t (inl e) =
    rw e (equal_fold_refl (host_of (find_persona s.personas id)))
permitted_host parse_address s p id valid t (inr e) =
    let details =
      (valid_member s.personas [] [] p s.projects (valid_projects parse_address s valid) t).2 in
    alternative_host s.personas p.persona id p.alternatives
      (details_alternatives s.personas p details) e
