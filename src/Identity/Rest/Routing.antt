-- ===== src/Identity/Rest/Routing.antt =====
-- What an authorised call of the REST interface looks like.
use text.Mathlib.TextEquality.{eq_iff}
use mathlib.Core.List.{Memᴰ}
use mathlib.Core.Path.{subst}
use dovik.Prelude.{
  String, ◌≡◌, refl, true, false, some, Option-cases, Bool-cases, inl, inr, List, [], ◌∷◌, ◌++◌,
  string_eq, arith,
}
use dovik.Identity.Model.{Persona, Project, allows}
use dovik.Identity.Catalog.{trim_prefix}
use dovik.Identity.Commands.{Command}
use dovik.Identity.Rest.{
  ApiRoute, ApiFlags, api_routes, api_flags, fields_ok, raw_fields, skips, route_loop,
  in_repository, route_of, authorize_api,
}

-- A call of the REST interface: the endpoint is in the project's repository, the method and the path,
-- with its numbers left open, are a route of the catalogue that the policy allows, the fields are
-- those of the route, and the host is the persona's.
pub record Routed (project : Project) (persona : Persona) (endpoint : String) (command : Command)
    : Type 0 where
  pub inside : in_repository project endpoint ≡ true
  pub found : ApiRoute
  pub listed : Memᴰ found api_routes
  pub path : found.path ≡ route_of project endpoint
  pub permission : command.permission ≡ found.permission
  pub allowed : allows project.policy command.permission ≡ true
  pub fields : List String
  pub fields_allowed : fields_ok found.fields [] fields ≡ true
  pub format : List String
  pub arguments :
      command.arguments
      ≡ "api"
        ∷ endpoint
        ∷ "--hostname"
        ∷ persona.host
        ∷ "--method"
        ∷ found.method
        ∷ (raw_fields fields ++ format)
  pub no_credential : command.credential ≡ false

module _ (project : Project) (persona : Persona) (endpoint : String) where
  module _ (flags : ApiFlags) where
    route_command : ApiRoute → Command
    route_command r = record {
      arguments =
          "api"
          ∷ endpoint
          ∷ "--hostname"
          ∷ persona.host
          ∷ "--method"
          ∷ flags.method
          ∷ (raw_fields flags.fields ++ flags.format);
      permission = r.permission;
      credential = false;
      interactive = false;
    }

    -- the route at which the loop ends
    route_loop-found :
        (rs : List ApiRoute) (command : Command)
        → route_loop project persona endpoint (route_of project endpoint) flags rs ≡ some command
        → (r : ApiRoute) × Memᴰ r rs
          × (skips project persona endpoint (route_of project endpoint) flags r ≡ false)
          × (fields_ok r.fields [] flags.fields ≡ true)
          × (route_command r ≡ command)
    unfolding route_loop route_command
    route_loop-found [] command h = absurd (cc h)
    route_loop-found (r ∷ rs) command h =
        elim (Bool-cases (skips project persona endpoint (route_of project endpoint) flags r)) [
          | inl e ↦
              let (q, t, kept, fields, same) =
                route_loop-found rs command (rw (e, route_loop) at h) in
              (q, Memᴰ.tail t, kept, fields, same)
          | inr e ↦ elim (Bool-cases (fields_ok r.fields [] flags.fields)) [
            | inr e1 ↦ let h' = rw (e, e1, route_loop) at h in absurd (cc h')
            | inl e1 ↦ let h' = rw (e, e1, route_loop) at h in (r, Memᴰ.head refl, e, e1, cc h')
          ]
        ]

  Routed-of_loop :
      (flags : ApiFlags) (command : Command)
      → in_repository project endpoint ≡ true
      → route_loop project persona endpoint (route_of project endpoint) flags api_routes
        ≡ some command
      → Routed project persona endpoint command
  unfolding skips route_command
  Routed-of_loop flags command inside h =
      let (r, t, kept, fields, same) = route_loop-found flags api_routes command h in
      let method : r.method ≡ flags.method =
        (eq_iff r.method flags.method).0 (ground (arith, kept)) in
      let path : r.path ≡ route_of project endpoint =
        (eq_iff r.path (route_of project endpoint)).0 (ground (arith, kept)) in
      subst (Routed project persona endpoint) same (record {
        inside = inside;
        found = r;
        listed = t;
        path = path;
        permission = refl;
        allowed = ground (arith, kept);
        fields = flags.fields;
        fields_allowed = fields;
        format = flags.format;
        arguments = rw method refl;
        no_credential = refl;
      })

module _ (project : Project) (persona : Persona) where
  -- Whatever endpoint and flags are given, a call that is authorised is routed so.
  pub authorize_api-Routed :
      (first : String) (rest : List String) (command : Command)
      → authorize_api project persona first rest ≡ some command
      → Routed project persona (trim_prefix first "/") command
  unfolding authorize_api
  authorize_api-Routed first rest command h =
      let endpoint = trim_prefix first "/" in
      elim (Bool-cases (in_repository project endpoint)) [
        | inr e ↦ let h' = rw (e, authorize_api) at h in absurd (cc h')
        | inl e ↦
            elim (Option-cases (
              api_flags rest
                (record { method = "GET"; method_set = false; fields = []; format = [] }))) [
                  | inl e1 ↦ let h' = rw (e, e1, authorize_api) at h in absurd (cc h')
                  | inr (flags, e1) ↦
                      Routed-of_loop project persona endpoint flags command e
                        (rw (e, e1, authorize_api) at h)
                ]
      ]
