-- ===== src/Identity/Authorize/Confined.antt =====
-- What an authorised command of the catalogue looks like.
use text.Mathlib.TextEquality.{eq_iff}
use mathlib.Core.Path.{subst}
use dovik.Prelude.{
  String, ◌≡◌, refl, sym, ap, true, false, not, ◌&&◌, Option, none, some, Option-cases, Bool-cases,
  inl, inr, List, [], ◌∷◌, ◌++◌, lookup, length, nat_beq, ◌==◌, string_eq, ◌⧺◌, arith,
  if◌then◌else◌,
}
use dovik.Identity.Model.{Persona, Project, allows}
use dovik.Identity.Catalog.{Parsed, argument_loop}
use dovik.Identity.Commands.{Command, CommandSpec, catalog}
use dovik.Identity.Authorize.{authorize_command, is_complete, target}
use dovik.Identity.Authorize.Allowing.{Allowed, TakenOk, argument_loop-Ok, start}

-- An authorised command: its name is in the catalogue, the policy allows the permission that the
-- catalogue asks for, and between the name and the repository of the project stand allowed arguments.
pub record Confined (project : Project) (persona : Persona) (name : String) (command : Command)
    : Type 0 where
  pub spec : CommandSpec
  pub listed : lookup name catalog ≡ some spec
  pub permission : command.permission ≡ spec.permission
  pub allowed : allows project.policy command.permission ≡ true
  pub middle : List String
  pub arguments_allowed : Allowed project persona name spec middle
  pub words :
      (a b : String) × ((a ⧺ " " ⧺ b) ≡ name)
      × (command.arguments ≡ a ∷ b ∷ (middle ++ "--repo" ∷ target project persona ∷ []))
  pub no_credential : command.credential ≡ false

module _ (project : Project) (persona : Persona) (first second : String) (rest : List String) where
  interactive-Confined :
      (spec : CommandSpec) (name : String) (command : Command)
      → lookup name catalog ≡ some spec
      → name ≡ "pr create"
      → allows project.policy spec.permission ≡ true
      → some (record {
        arguments = "pr" ∷ "create" ∷ "--repo" ∷ target project persona ∷ [];
        permission = spec.permission;
        credential = false;
        interactive = true;
      })
        ≡ some command
      → Confined project persona name command
  interactive-Confined spec name command e named e1 h =
      let made : Command = record {
        arguments = "pr" ∷ "create" ∷ "--repo" ∷ target project persona ∷ [];
        permission = spec.permission;
        credential = false;
        interactive = true;
      } in
      let same : made ≡ command = cc h in
      subst (Confined project persona name) same (record {
        spec = spec;
        listed = e;
        permission = refl;
        allowed = e1;
        middle = [];
        arguments_allowed = start;
        words = ("pr", "create", sym named, refl);
        no_credential = refl;
      })

  looped-Confined :
      (spec : CommandSpec) (result : Option Parsed) (command : Command)
      → lookup (first ⧺ " " ⧺ second) catalog ≡ some spec
      → allows project.policy spec.permission ≡ true
      → TakenOk project persona (first ⧺ " " ⧺ second) spec first second result
      → elim result [
        | none ↦ none
        | some st ↦
            if not (is_complete project (first ⧺ " " ⧺ second) spec st)
            then none
            else some (record {
              arguments = st.output ++ "--repo" ∷ target project persona ∷ [];
              permission = spec.permission;
              credential = false;
              interactive = false;
            })
      ]
        ≡ some command
      → Confined project persona (first ⧺ " " ⧺ second) command
  looped-Confined spec none command e e1 grown h = absurd (cc h)
  looped-Confined spec (some st) command e e1 grown h =
      elim (Bool-cases (is_complete project (first ⧺ " " ⧺ second) spec st)) [
        | inr e2 ↦ let h' = rw e2 at h in absurd (cc h')
        | inl e2 ↦
            let h' = rw e2 at h in
            let made : Command = record {
              arguments = st.output ++ "--repo" ∷ target project persona ∷ [];
              permission = spec.permission;
              credential = false;
              interactive = false;
            } in
            let same : made ≡ command = cc h' in
            subst (Confined project persona (first ⧺ " " ⧺ second)) same (record {
              spec = spec;
              listed = e;
              permission = refl;
              allowed = e1;
              middle = grown.middle;
              arguments_allowed = grown.allowed;
              words = (
                first,
                second,
                refl,
                ap (λ (o : List String). o ++ "--repo" ∷ target project persona ∷ []) grown.output,
              );
              no_credential = refl;
            })
      ]

  -- Whatever arguments are given, a command that is authorised is confined so.
  pub authorize_command-Confined :
      (command : Command)
      → authorize_command project persona first second rest ≡ some command
      → Confined project persona (first ⧺ " " ⧺ second) command
  unfolding authorize_command
  authorize_command-Confined command h =
      let name = first ⧺ " " ⧺ second in
      elim (Option-cases (lookup name catalog)) [
        | inl e ↦ let h' = rw (e, authorize_command) at h in absurd (cc h')
        | inr (spec, e) ↦ elim (Bool-cases (allows project.policy spec.permission)) [
          | inr e1 ↦ let h' = rw (e, e1, authorize_command) at h in absurd (cc h')
          | inl e1 ↦ elim (Bool-cases (name == "pr create" && nat_beq (length rest) 0)) [
            | inl e2 ↦
                let h' = rw (e, e1, e2, authorize_command) at h in
                let named : name ≡ "pr create" = (eq_iff name "pr create").0 (ground (arith, e2)) in
                interactive-Confined spec name command e named e1 h'
            | inr e2 ↦
                let h' = rw (e, e1, e2, authorize_command) at h in
                let first_state : Parsed = record {
                  values = [];
                  output = first ∷ second ∷ [];
                  positional = 0;
                } in
                looped-Confined spec (argument_loop project persona name spec rest first_state)
                  command e e1
                  (argument_loop-Ok project persona name spec first second rest first_state
                    (record { middle = []; output = refl; allowed = start }))
                  h'
          ]
        ]
      ]
