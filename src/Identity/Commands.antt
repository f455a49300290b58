-- ===== src/Identity/Commands.antt =====
-- The catalogue of commands and flags in internal/identity/catalog.go.
use dovik.Identity.Filter.{Bytes}
use dovik.Prelude.{String, Bool, true, false, List, [], ◌∷◌, Map, string_eq}

pub record Invocation : Type 0 where
  pub arguments : List String
  pub input : Bytes

pub record Command : Type 0 where
  pub arguments : List String
  pub permission : String
  pub credential : Bool
  pub interactive : Bool

pub record CommandSpec : Type 0 where
  pub permission : String
  pub values : String
  pub booleans : String
  pub positional : Bool

abbrev spec : String → String → String → Bool → CommandSpec
spec permission values booleans positional = record {
  permission = permission;
  values = values;
  booleans = booleans;
  positional = positional;
}

unfoldable pub catalog : Map String CommandSpec
catalog =
    ("repo view", spec "read" "branch" "" false)
    ∷ ("pr list", spec "read" "state,base,head,author,assignee,label,limit,search" "draft" false)
    ∷ ("pr view", spec "read" "" "comments" true)
    ∷ ("pr diff", spec "read" "color" "patch,name-only" true)
    ∷ ("pr checks", spec "read" "" "required" true)
    ∷ (
      "pr create",
      spec "create" "title,body,body-file,head,base,assignee,label,reviewer,milestone"
          "draft,no-maintainer-edit" false,
    )
    ∷ ("pr comment", spec "comment" "body,body-file" "" true)
    ∷ (
      "pr edit",
      spec "edit"
          "title,body,body-file,base,add-label,remove-label,add-assignee,remove-assignee,add-reviewer,remove-reviewer,milestone"
          "" true,
    )
    ∷ ("pr close", spec "close" "comment" "" true)
    ∷ ("pr reopen", spec "close" "comment" "" true)
    ∷ ("pr review", spec "review" "body,body-file" "approve,request-changes,comment" true)
    ∷ ("pr ready", spec "edit" "" "undo" true)
    ∷ ("pr merge", spec "merge" "match-head-commit" "merge,squash,rebase,auto,disable-auto" true)
    ∷ ("issue list", spec "read" "state,author,assignee,label,limit,search" "" false)
    ∷ ("issue view", spec "read" "" "comments" true)
    ∷ ("issue create", spec "create" "title,body,body-file,assignee,label,milestone" "" false)
    ∷ ("issue comment", spec "comment" "body,body-file" "" true)
    ∷ (
      "issue edit",
      spec "edit"
          "title,body,body-file,add-label,remove-label,add-assignee,remove-assignee,milestone" ""
          true,
    )
    ∷ ("issue close", spec "close" "comment,reason" "" true)
    ∷ ("issue reopen", spec "close" "comment" "" true)
    ∷ ("run list", spec "read" "workflow,branch,event,status,user,limit,commit,created" "" false)
    ∷ ("run view", spec "read" "job,attempt" "log,log-failed,exit-status" true)
    ∷ ("run rerun", spec "actions" "job" "failed" true)
    ∷ ("run cancel", spec "actions" "" "" true)
    ∷ ("workflow list", spec "read" "limit" "all" false)
    ∷ ("workflow view", spec "read" "ref" "yaml" true)
    ∷ ("workflow run", spec "actions" "ref,raw-field" "" true)
    ∷ []

unfoldable pub short_flags : Map String String
short_flags =
    ("R", "repo")
    ∷ ("b", "body")
    ∷ ("F", "body-file")
    ∷ ("f", "raw-field")
    ∷ ("t", "title")
    ∷ ("H", "head")
    ∷ ("B", "base")
    ∷ ("L", "limit")
    ∷ ("q", "jq")
    ∷ ("s", "state")
    ∷ ("a", "assignee")
    ∷ ("l", "label")
    ∷ []
