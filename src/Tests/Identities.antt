-- ===== src/Tests/Identities.antt =====
-- A persona, a project, and policies.
use mathlib.Core.List.{Memᴰ}
use dovik.Prelude.{◌≡◌, refl, pos, string_eq, true, none, some, [], ◌∷◌}
use dovik.Identity.Model.{Persona, Policy, Project, State, find_project, find_persona}
use dovik.Identity.Validation.{validate_state}
use dovik.Identity.Finding.{find_project_lem}

abbrev trusting : Policy
trusting = record { preset = "read-only"; exceptions = ("persona", true) ∷ [] }

abbrev pub robot : Persona
robot = record {
  id = "robot";
  name = "Robot";
  git_name = "Robot";
  git_email = "r@x.io";
  host = "github.com";
  account = "robot";
}

abbrev pub site : Project
site = record {
  id = "site";
  name = "Site";
  description = "";
  root = "/srv/site";
  repository = "robot/site";
  persona = "robot";
  alternatives = "robot" ∷ [];
  mode = "proxy-level";
  policy = trusting;
  proxy_enabled = true;
}

abbrev pub state : State
state = record { version = pos 1; gh_path = ""; personas = robot ∷ []; projects = site ∷ [] }

pub state_valid : validate_state some state ≡ none
unfolding validate_state
state_valid = refl

find_project_lem_example :
    (find_project (site ∷ []) "site" "/elsewhere" ≡ some site)
    × (find_project (site ∷ []) "" "/srv/site" ≡ some site)
    × (persona : Persona) × (find_persona (robot ∷ []) "robot" ≡ some persona)
    × (persona.id ≡ "robot")
find_project_lem_example =
    find_project_lem some state site "/elsewhere" state_valid (Memᴰ.head refl)
