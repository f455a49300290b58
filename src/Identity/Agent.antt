-- ===== src/Identity/Agent.antt =====
-- `Execute` of internal/identity/service.go and `HandleAgent` of internal/identity/stream.go.
-- What running gh comes to is a parameter, `run`; an agent that asks for it is answered by frames, and
-- here by the request that is run.
pub mod Bound
use dovik.Prelude.{
  ℕ, ℤ, pos, String, Bool, true, false, not, ◌&&◌, ◌||◌, Option, none, some, nat_beq, if◌then◌else◌,
  ◌==◌, string_eq,
}
use dovik.Identity.Model.{Persona, Project}
use dovik.Identity.Commands.{Invocation}
use dovik.Identity.Authorize.{is_git_credential_invocation}
use dovik.Identity.Sessions.{
  Service, ServiceError, Outcome, gives, refuses, context, select_session_persona,
}

pub record ExecutionRequest : Type 0 where
  pub project_id : String
  pub root : String
  pub session_id : String
  pub invocation : Invocation

pub record AgentRequest : Type 0 where
  pub version : ℤ
  pub action : String
  pub invocation : Invocation
  pub persona_id : String

abbrev pub agent_protocol_version : ℤ
agent_protocol_version = pos 1

abbrev pub is_agent_version : ℤ → Bool
is_agent_version (pos n) = nat_beq n 1
is_agent_version v = false

-- What comes of a request to run gh.
pub data Execution (Result : Type 0) : Type 0 where
  not_served : ServiceError → Execution Result
  no_credentials_here : Execution Result
  ran : Result → Execution Result

-- What an agent is told: that its request is invalid or not permitted, an error, its context, a done
-- change of persona, or the frames of a run.
pub data AgentReply (Result : Type 0) : Type 0 where
  invalid_request not_permitted persona_changed : AgentReply Result
  fails_with : ServiceError → AgentReply Result
  has_context : Project → Persona → AgentReply Result
  streams : Execution Result → AgentReply Result

abbrev context_reply : {Result : Type 0} → Outcome (Project × Persona) → AgentReply Result
context_reply (refuses e) = fails_with e
context_reply (gives (project, persona)) = has_context (record project { root = "" }) persona

abbrev persona_reply : {Result : Type 0} → Option ServiceError → AgentReply Result
persona_reply none = persona_changed
persona_reply (some e) = fails_with e

abbrev pub agent_request : String → AgentRequest → ExecutionRequest
agent_request session_id request = record {
  project_id = "";
  root = "";
  session_id = session_id;
  invocation = request.invocation;
}

module _ {Content Result : Type 0} (run : String → Project → Persona → Invocation → Result) where
  abbrev pub executed :
      Service Content → ExecutionRequest → Outcome (Project × Persona) → Execution Result
  executed s r (refuses e) = not_served e
  executed s r (gives (project, persona)) =
      if not (r.session_id == "") && is_git_credential_invocation r.invocation
      then no_credentials_here
      else ran (run s.store.state.gh_path project persona r.invocation)

  unfoldable pub execute_request : Service Content → ExecutionRequest → Execution Result
  unfolding context is_git_credential_invocation
  execute_request s r = executed s r (context s r.session_id r.project_id r.root)

  -- The request that the decoder found in the session's connection, if any.
  unfoldable pub handle_agent :
      String → Option AgentRequest → Service Content → Service Content × AgentReply Result
  unfolding execute_request context select_session_persona
  handle_agent session_id none s = (s, invalid_request)
  handle_agent session_id (some request) s =
      if not (is_agent_version request.version)
      then (s, invalid_request)
      else if request.action == "execute"
      then (s, streams (execute_request s (agent_request session_id request)))
      else if request.action == "context"
      then (s, context_reply (context s session_id "" ""))
      else if request.action == "persona"
      then (let (s', error) = select_session_persona session_id request.persona_id s in
          (s', persona_reply error))
      else (s, not_permitted)
