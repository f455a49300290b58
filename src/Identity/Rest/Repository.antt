-- ===== src/Identity/Rest/Repository.antt =====
-- What an authorised request is allowed to reach.
use text.Mathlib.TextEquality.{eq_iff}
use mathlib.Core.Path.{subst}
use dovik.Prelude.{
  nat_beq, length, String, ◌≡◌, refl, ap, true, false, not, ◌&&◌, ◌||◌, none, some, Option-cases,
  Bool-cases, inl, inr, ◌⊎◌, List, [], ◌∷◌, ltb, Map, ◌==◌, string_eq, ◌⧺◌, arith, if◌then◌else◌,
}
use dovik.Identity.Model.{Persona, Project}
use dovik.Identity.Validation.{equal_fold}
use dovik.Identity.Catalog.{trim_prefix}
use dovik.Identity.Filter.{Bytes}
use dovik.Identity.Utf8.{split_bytes}
use dovik.Identity.Commands.{Invocation, Command}
use dovik.Identity.Authorize.{
  arguments_ok, is_git_credential_invocation, authorize_command, authorize_git_credential,
  credential_fields, lines_of, value_of, trim_git, trim_slashes, trim_slashes_right,
}
use dovik.Identity.Authorize.Confined.{Confined, authorize_command-Confined}
use dovik.Identity.Rest.{authorize_api, too_large, authorize}
use dovik.Identity.Rest.Routing.{Routed, authorize_api-Routed}

-- A request for the credential itself: it is for the persona's host, over HTTPS, and for the project's
-- repository if it names a repository; it need not name one.
pub record Credential (project : Project) (persona : Persona) (invocation : Invocation)
    (command : Command) : Type 0 where
  pub asked : is_git_credential_invocation invocation ≡ true
  pub fields : Map String String
  pub fields_read : credential_fields [] (lines_of (split_bytes 10 invocation.input)) ≡ some fields
  pub protocol : value_of "protocol" fields ≡ "https"
  pub host : equal_fold (value_of "host" fields) persona.host ≡ true
  pub repository :
      (trim_git (trim_slashes_right (trim_slashes (value_of "path" fields))) ≡ "")
      ⊎ (equal_fold
            (trim_git (trim_slashes_right (trim_slashes (value_of "path" fields))))
            project.repository
          ≡ true)
  pub arguments : command.arguments ≡ []

module _ (project : Project) (persona : Persona) where
  own_repository :
      (path : String)
      → (not (path == "") && not (equal_fold path project.repository)) ≡ false
      → (path ≡ "") ⊎ (equal_fold path project.repository ≡ true)
  own_repository path h = elim (Bool-cases (path == "")) [
    | inl e ↦ inl ((eq_iff path "").0 e)
    | inr e ↦ inr (ground (arith, e, h))
  ]

  three_words-Credential :
      (a b c : String) (input : Bytes) (command : Command)
      → is_git_credential_invocation (record { arguments = a ∷ b ∷ c ∷ []; input = input }) ≡ true
      → authorize_git_credential project persona
          (record { arguments = a ∷ b ∷ c ∷ []; input = input })
        ≡ some command
      → Credential project persona (record { arguments = a ∷ b ∷ c ∷ []; input = input }) command
  unfolding authorize_git_credential
  three_words-Credential a b c input command asked h =
      elim (Bool-cases (not (c == "get") || nat_beq (length input) 0 || ltb 65536 (length input))) [
        | inl e ↦ let h' = rw (e, authorize_git_credential) at h in absurd (cc h')
        | inr e ↦ elim (Option-cases (credential_fields [] (lines_of (split_bytes 10 input)))) [
          | inl e1 ↦ let h' = rw (e, e1, authorize_git_credential) at h in absurd (cc h')
          | inr (fields, e1) ↦
              let path = trim_git (trim_slashes_right (trim_slashes (value_of "path" fields))) in
              elim (Bool-cases (
                not (value_of "protocol" fields == "https")
                || not (equal_fold (value_of "host" fields) persona.host))) [
                  | inl e2 ↦
                      let h' = rw (e, e1, e2, authorize_git_credential) at h in absurd (cc h')
                  | inr e2 ↦
                      elim (Bool-cases
                        (not (path == "") && not (equal_fold path project.repository))) [
                          | inl e3 ↦
                              let h' = rw (e, e1, e2, e3, authorize_git_credential) at h in
                              absurd (cc h')
                          | inr e3 ↦
                              let h' = rw (e, e1, e2, e3, authorize_git_credential) at h in
                              let made : Command = record {
                                arguments = [];
                                permission = "";
                                credential = true;
                                interactive = false;
                              } in
                              let same : made ≡ command = cc h' in
                              subst
                                (Credential project persona
                                  (record { arguments = a ∷ b ∷ c ∷ []; input = input }))
                                same
                                (record {
                                  asked = asked;
                                  fields = fields;
                                  fields_read = e1;
                                  protocol =
                                      (eq_iff (value_of "protocol" fields) "https").0
                                        (ground (arith, e2));
                                  host = ground (arith, e2);
                                  repository = own_repository path e3;
                                  arguments = refl;
                                })
                        ]
                ]
        ]
      ]

  words-Credential :
      (arguments : List String) (input : Bytes) (command : Command)
      → is_git_credential_invocation (record { arguments = arguments; input = input }) ≡ true
      → authorize_git_credential project persona (record { arguments = arguments; input = input })
        ≡ some command
      → Credential project persona (record { arguments = arguments; input = input }) command
  unfolding authorize_git_credential
  words-Credential [] input command asked h = absurd (cc h)
  words-Credential (a ∷ []) input command asked h = absurd (cc h)
  words-Credential (a ∷ b ∷ []) input command asked h = absurd (cc h)
  words-Credential (a ∷ b ∷ c ∷ []) input command asked h =
      three_words-Credential a b c input command asked h
  words-Credential (a ∷ b ∷ c ∷ d ∷ rest) input command asked h = absurd (cc h)

-- The three ways to be authorised.
pub data Authorized (project : Project) (persona : Persona) (invocation : Invocation)
    (command : Command) : Type 0 where
  credential :
      Credential project persona invocation command → Authorized project persona invocation command
  routed :
      (first : String) (rest : List String)
      → invocation.arguments ≡ "api" ∷ first ∷ rest
      → Routed project persona (trim_prefix first "/") command
      → Authorized project persona invocation command
  catalogued :
      (first second : String) (rest : List String)
      → invocation.arguments ≡ first ∷ second ∷ rest
      → Confined project persona (first ⧺ " " ⧺ second) command
      → Authorized project persona invocation command

module _ (project : Project) (persona : Persona) where
  dispatched :
      (arguments : List String) (input : Bytes) (command : Command)
      → elim arguments [
        | first ∷ second ∷ rest ↦
            if first == "api"
            then authorize_api project persona second rest
            else authorize_command project persona first second rest
        | _ ↦ none
      ]
        ≡ some command
      → Authorized project persona (record { arguments = arguments; input = input }) command
  dispatched [] input command h = absurd (cc h)
  dispatched (a ∷ []) input command h = absurd (cc h)
  dispatched (first ∷ second ∷ rest) input command h = elim (Bool-cases (first == "api")) [
    | inl e ↦
        routed second rest (ap (λ (w : String). w ∷ second ∷ rest) ((eq_iff first "api").0 e))
          (authorize_api-Routed project persona second rest command (rw e at h))
    | inr e ↦
        catalogued first second rest refl
          (authorize_command-Confined project persona first second rest command (rw e at h))
  ]

  -- Whatever a client asks for, a command that is authorised is one of three: the credential, for
  -- the persona's host and, if the request names a repository, for that of the project; a call of a
  -- REST route in the project's repository; or a command of the catalogue with the flags and
  -- arguments that its entry lists, ending in the project's repository. The last two have a
  -- permission that the policy of the project allows.
  pub authorize-Authorized :
      (invocation : Invocation) (command : Command)
      → authorize project persona invocation ≡ some command
      → Authorized project persona invocation command
  unfolding authorize
  authorize-Authorized invocation command h = elim (Bool-cases (too_large invocation)) [
    | inl e ↦ let h' = rw (e, authorize) at h in absurd (cc h')
    | inr e ↦ elim (Bool-cases (arguments_ok invocation.arguments)) [
      | inr e1 ↦ let h' = rw (e, e1, authorize) at h in absurd (cc h')
      | inl e1 ↦ elim (Bool-cases (is_git_credential_invocation invocation)) [
        | inl e2 ↦ credential (
            words-Credential project persona invocation.arguments invocation.input command e2
              (rw (e, e1, e2, authorize) at h))
        | inr e2 ↦
            dispatched invocation.arguments invocation.input command
              (rw (e, e1, e2, authorize) at h)
      ]
    ]
  ]
