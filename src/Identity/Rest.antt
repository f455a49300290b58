-- ===== src/Identity/Rest.antt =====
-- `authorizeAPI` of internal/identity/catalog.go, the catalogue of REST routes, and the whole of
-- `Authorize`.
pub mod Routing
pub mod Repository
use dovik.Prelude.{
  ℕ, String, Bool, true, false, not, ◌&&◌, ◌||◌, Option, none, some, List, [], ◌∷◌, ◌++◌, length,
  ltb, nat_beq, if◌then◌else◌, ◌==◌, string_eq, split_on, join_with, ◌⧺◌,
}
use dovik.Identity.Model.{Persona, Policy, Project, contains, allows, byte_length}
use dovik.Identity.Catalog.{is_number, starts_with, trim_prefix, cut}
use dovik.Identity.Commands.{Invocation, Command}
use dovik.Identity.Authorize.{
  arguments_ok, is_git_credential_invocation, authorize_command, authorize_git_credential,
}

pub record ApiRoute : Type 0 where
  pub method : String
  pub path : String
  pub permission : String
  pub fields : String

abbrev route : String → String → String → String → ApiRoute
route method path permission fields = record {
  method = method;
  path = path;
  permission = permission;
  fields = fields;
}

unfoldable pub api_routes : List ApiRoute
api_routes =
    route "GET" "" "read" ""
    ∷ route "GET" "issues" "read" "state,labels,assignee,creator,page,per_page"
    ∷ route "GET" "issues/#" "read" ""
    ∷ route "GET" "issues/#/comments" "read" "page,per_page"
    ∷ route "GET" "pulls" "read" "state,head,base,page,per_page"
    ∷ route "GET" "pulls/#" "read" ""
    ∷ route "GET" "pulls/#/reviews" "read" "page,per_page"
    ∷ route "GET" "actions/runs" "read" "branch,event,status,page,per_page"
    ∷ route "GET" "actions/runs/#" "read" ""
    ∷ route "GET" "actions/workflows" "read" "page,per_page"
    ∷ route "POST" "issues" "create" "title,body"
    ∷ route "POST" "issues/#/comments" "comment" "body"
    ∷ route "PATCH" "issues/#" "edit" "title,body"
    ∷ route "POST" "pulls" "create" "title,body,head,base"
    ∷ route "PATCH" "pulls/#" "edit" "title,body,base"
    ∷ route "PUT" "pulls/#/merge" "merge" "merge_method,commit_title,commit_message,sha"
    ∷ route "POST" "actions/runs/#/rerun" "actions" ""
    ∷ route "POST" "actions/runs/#/cancel" "actions" ""
    ∷ route "POST" "actions/workflows/#/dispatches" "actions" "ref"
    ∷ []

-- The variables of the loop over the flags.
pub record ApiFlags : Type 0 where
  pub method : String
  pub method_set : Bool
  pub fields : List String
  pub format : List String

-- The body of that loop
unfoldable pub api_flag : String → String → ApiFlags → Option ApiFlags
api_flag flag value st =
    if flag == "--method" || flag == "-X"
    then (if st.method_set then none else some (record st { method_set = true; method = value }))
    else if flag == "--raw-field" || flag == "-f"
    then some (record st { fields = st.fields ++ value ∷ [] })
    else if flag == "--jq" || flag == "--template"
    then some (record st { format = st.format ++ flag ∷ value ∷ [] })
    else none

unfoldable pub api_flags : List String → ApiFlags → Option ApiFlags
unfolding api_flag
api_flags [] st = some st
api_flags (flag ∷ []) st = none
api_flags (flag ∷ value ∷ rest) st = elim (api_flag flag value st) [
  | none ↦ none
  | some st' ↦ api_flags rest st'
]

-- a number of a path as "#"
unfoldable pub route_parts : List String → List String
unfolding is_number
route_parts [] = []
route_parts (p ∷ ps) = (if is_number p then "#" else p) ∷ route_parts ps

-- The loop over the fields of a route, with the keys seen so far: whether all are allowed.
unfoldable pub fields_ok : String → List String → List String → Bool
unfolding cut contains split_on
fields_ok allowed seen [] = true
fields_ok allowed seen (field ∷ rest) =
    let (key, value, found) = cut b'=' field in
    let later = fields_ok allowed (key ∷ seen) rest in
    if not found || contains seen key || not (contains (split_on b',' allowed) key)
    then false
    else later

abbrev pub raw_fields : List String → List String
raw_fields [] = []
raw_fields (field ∷ rest) = "--raw-field" ∷ field ∷ raw_fields rest

module _ (project : Project) (persona : Persona) (endpoint route_path : String)
    (flags : ApiFlags) where
  -- whether the loop over the routes goes on behind a route
  unfoldable pub skips : ApiRoute → Bool
  unfolding allows
  skips r =
      not (r.method == flags.method)
      || not (r.path == route_path)
      || not (allows project.policy r.permission)

  unfoldable pub route_loop : List ApiRoute → Option Command
  unfolding skips fields_ok
  route_loop [] = none
  route_loop (r ∷ rs) =
      let rest = route_loop rs in
      if skips r
      then rest
      else if not (fields_ok r.fields [] flags.fields)
      then none
      else some (record {
        arguments =
            "api"
            ∷ endpoint
            ∷ "--hostname"
            ∷ persona.host
            ∷ "--method"
            ∷ flags.method
            ∷ (raw_fields flags.fields ++ flags.format);
        permission = r.permission;
        credential = false;
        interactive = false;
      })

abbrev pub repository_prefix : Project → String
repository_prefix project = "repos/" ⧺ project.repository

-- Whether an endpoint is in the repository of the project
unfoldable pub in_repository : Project → String → Bool
unfolding starts_with
in_repository project endpoint =
    endpoint == repository_prefix project || starts_with endpoint (repository_prefix project ⧺ "/")

abbrev pub route_of : Project → String → String
route_of project endpoint = join_with "/" (
    route_parts
      (split_on b'/' (trim_prefix (trim_prefix endpoint (repository_prefix project)) "/")))

-- The arguments behind "api": the endpoint and the flags.
unfoldable pub authorize_api : Project → Persona → String → List String → Option Command
unfolding in_repository trim_prefix route_parts join_with split_on api_flags route_loop api_routes
authorize_api project persona first rest =
    let endpoint = trim_prefix first "/" in
    if not (in_repository project endpoint)
    then none
    else elim (api_flags rest
        (record { method = "GET"; method_set = false; fields = []; format = [] })) [
          | none ↦ none
          | some flags ↦
              route_loop project persona endpoint (route_of project endpoint) flags api_routes
        ]

abbrev pub too_large : Invocation → Bool
too_large invocation =
    ltb 1048576 (length invocation.input)
    || ltb (length invocation.arguments) 2
    || ltb 256 (length invocation.arguments)

unfoldable pub authorize : Project → Persona → Invocation → Option Command
unfolding byte_length arguments_ok is_git_credential_invocation authorize_git_credential
    authorize_api authorize_command
authorize project persona invocation =
    if too_large invocation
    then none
    else if not (arguments_ok invocation.arguments)
    then none
    else if is_git_credential_invocation invocation
    then authorize_git_credential project persona invocation
    else elim invocation.arguments [
      | first ∷ second ∷ rest ↦
          if first == "api"
          then authorize_api project persona second rest
          else authorize_command project persona first second rest
      | _ ↦ none
    ]
