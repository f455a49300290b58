-- ===== src/Identity/Finding.antt =====
-- In a state that has been validated the searches find every project and its personas.
use mathlib.Core.List.{Memᴰ}
use text.Mathlib.TextEquality.{eq_iff}
use dovik.Prelude.{
  ◌≡◌, refl, String, true, false, Option, none, some, Option-cases, Bool-cases, inl, inr, List, [],
  ◌∷◌, ◌==◌, string_eq, is_abs, arith,
}
use dovik.Identity.Model.{
  Persona, Project, State, contains, find_persona, find_project, path_key, is_identifier,
}
use dovik.Identity.Validation.{
  validate_projects, validate_details, validate_personas, validate_state, persona_ids,
}

identifier_named : (s : String) → is_identifier s ≡ true → (s == "") ≡ false
unfolding is_identifier
identifier_named s h = elim (Bool-cases (s == "")) [
  | inr e ↦ e
  | inl e ↦ let bad = rw ((eq_iff s "").0 e) at h in absurd (cc bad)
]

absolute_named : (s : String) → is_abs s ≡ true → (s == "") ≡ false
unfolding is_abs
absolute_named s h = elim (Bool-cases (s == "")) [
  | inr e ↦ e
  | inl e ↦ let bad = rw ((eq_iff s "").0 e) at h in absurd (cc bad)
]

-- A persona whose ID is among those of the personas is found.
found_persona :
    (ps : List Persona) (id : String)
    → contains (persona_ids ps) id ≡ true
    → (p : Persona) × (find_persona ps id ≡ some p) × (p.id ≡ id)
unfolding contains find_persona
found_persona [] id h = absurd (cc h)
found_persona (p ∷ ps) id h = elim (Bool-cases (p.id == id)) [
  | inl e ↦ (p, rw e refl, (eq_iff p.id id).0 e)
  | inr e ↦
      let (q, found, same) = found_persona ps id (ground (arith, h, e)) in
      (q, ground (arith, found, e), same)
]

module _ (personas : List Persona) where
  valid_project :
      (ids roots : List String) (q : Project) (ps : List Project)
      → validate_projects personas ids roots (q ∷ ps) ≡ none
      → (is_identifier q.id ≡ true)
        × (contains ids q.id ≡ false)
        × (is_abs q.root ≡ true)
        × (contains roots (path_key q.root) ≡ false)
        × (validate_details personas q ≡ none)
        × (validate_projects personas (q.id ∷ ids) (path_key q.root ∷ roots) ps ≡ none)
  unfolding validate_projects
  valid_project ids roots q ps h = elim (Option-cases (validate_details personas q)) [
    | inl e ↦ ground (arith, h, e)
    | inr (x, e) ↦ absurd (ground (arith, h, e))
  ]

  -- A project after another has another ID and another root.
  apart :
      (ids roots : List String) (p : Project) (ps : List Project)
      → validate_projects personas ids roots ps ≡ none
      → Memᴰ p ps
      → (contains ids p.id ≡ false) × (contains roots (path_key p.root) ≡ false)
  unfolding contains
  apart ids roots p [] h t = elim t [ ]
  apart ids roots p (q ∷ ps) h (Memᴰ.head e) =
      let v = valid_project ids roots q ps h in rw e (v.1, v.3)
  apart ids roots p (q ∷ ps) h (Memᴰ.tail t) =
      let v = valid_project ids roots q ps h in
      let later = apart (q.id ∷ ids) (path_key q.root ∷ roots) p ps v.5 t in
      (ground (arith, later), ground (arith, later))

  pub valid_member :
      (ids roots : List String) (p : Project) (ps : List Project)
      → validate_projects personas ids roots ps ≡ none
      → Memᴰ p ps
      → (is_identifier p.id ≡ true) × (is_abs p.root ≡ true) × (validate_details personas p ≡ none)
  valid_member ids roots p [] h t = elim t [ ]
  valid_member ids roots p (q ∷ ps) h (Memᴰ.head e) =
      let v = valid_project ids roots q ps h in rw e (v.0, v.2, v.4)
  valid_member ids roots p (q ∷ ps) h (Memᴰ.tail t) =
      let v = valid_project ids roots q ps h in
      valid_member (q.id ∷ ids) (path_key q.root ∷ roots) p ps v.5 t

  pub found_by_id :
      (ids roots : List String) (p : Project) (ps : List Project) (root : String)
      → validate_projects personas ids roots ps ≡ none
      → Memᴰ p ps
      → find_project ps p.id root ≡ some p
  unfolding find_project contains
  found_by_id ids roots p [] root h t = elim t [ ]
  found_by_id ids roots p (q ∷ ps) root h (Memᴰ.head e) =
      let named = identifier_named q.id (valid_project ids roots q ps h).0 in
      rw e (ground (arith, named, eq_iff q.id q.id))
  found_by_id ids roots p (q ∷ ps) root h (Memᴰ.tail t) =
      let v = valid_project ids roots q ps h in
      let named = identifier_named p.id (valid_member ids roots p (q ∷ ps) h (Memᴰ.tail t)).0 in
      let other = (apart (q.id ∷ ids) (path_key q.root ∷ roots) p ps v.5 t).0 in
      let rest = found_by_id (q.id ∷ ids) (path_key q.root ∷ roots) p ps root v.5 t in
      ground (arith, named, other, rest)

  pub found_by_root :
      (ids roots : List String) (p : Project) (ps : List Project)
      → validate_projects personas ids roots ps ≡ none
      → Memᴰ p ps
      → find_project ps "" p.root ≡ some p
  unfolding find_project contains
  found_by_root ids roots p [] h t = elim t [ ]
  found_by_root ids roots p (q ∷ ps) h (Memᴰ.head e) =
      let rooted = absolute_named q.root (valid_project ids roots q ps h).2 in
      rw e (ground (arith, rooted, eq_iff (path_key q.root) (path_key q.root)))
  found_by_root ids roots p (q ∷ ps) h (Memᴰ.tail t) =
      let v = valid_project ids roots q ps h in
      let rooted = absolute_named p.root (valid_member ids roots p (q ∷ ps) h (Memᴰ.tail t)).1 in
      let other = (apart (q.id ∷ ids) (path_key q.root ∷ roots) p ps v.5 t).1 in
      let rest = found_by_root (q.id ∷ ids) (path_key q.root ∷ roots) p ps v.5 t in
      ground (
        arith,
        rooted,
        other,
        rest,
        eq_iff (path_key p.root) (path_key q.root),
        eq_iff (path_key q.root) (path_key p.root),
      )

  details_persona :
      (p : Project)
      → validate_details personas p ≡ none
      → contains (persona_ids personas) p.persona ≡ true
  unfolding validate_details
  details_persona p h = ground (arith, h)

module _ (parse_address : String → Option String) (s : State) where
  pub valid_projects :
      validate_state parse_address s ≡ none → validate_projects s.personas [] [] s.projects ≡ none
  unfolding validate_state
  valid_projects h = elim (Option-cases (validate_personas parse_address [] s.personas)) [
    | inl e ↦ ground (arith, h, e)
    | inr (x, e) ↦ absurd (ground (arith, h, e))
  ]

  -- In a state that passes `Validate` every project is the one that `FindProject` returns for its
  -- ID, whatever root is given beside it, and the one that it returns for its root without an ID;
  -- and the persona that the project names is found.
  pub find_project_lem :
      (p : Project) (root : String)
      → validate_state parse_address s ≡ none
      → Memᴰ p s.projects
      → (find_project s.projects p.id root ≡ some p)
        × (find_project s.projects "" p.root ≡ some p)
        × (persona : Persona) × (find_persona s.personas p.persona ≡ some persona)
        × (persona.id ≡ p.persona)
  find_project_lem p root h t =
      let v = valid_projects h in
      let details = (valid_member s.personas [] [] p s.projects v t).2 in
      let (persona, found, same) =
        found_persona s.personas p.persona (details_persona s.personas p details) in
      (
        found_by_id s.personas [] [] p s.projects root v t,
        found_by_root s.personas [] [] p s.projects v t,
        persona,
        found,
        same,
      )
