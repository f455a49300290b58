-- ===== src/Identity/Executor.antt =====
-- `Executor.Run` and `commandEnvironment` of internal/identity/executor.go, for Unix. What other
-- programs print and what the system answers is in the input: the path that `ValidateGH` returns, the
-- output of `gh auth token` and of the call for the login, a private directory, the writes of gh to its
-- two streams, and how it ended.
pub mod Redacting
use Prim.Native.Nat.{◌/◌}
use Prim.Native.Char.{code}
use dovik.Prelude.{
  ℕ, ◌+◌, ◌%◌, ℤ, pos, String, Bool, true, false, not, ◌&&◌, ◌||◌, Option, none, some, is_some,
  List, [], ◌∷◌, ◌++◌, ltb, nat_beq, if◌then◌else◌, ◌==◌, string_eq, ◌⧺◌,
}
use dovik.Identity.Model.{Persona, Project, every, is_space}
use dovik.Identity.Validation.{equal_fold}
use dovik.Identity.Commands.{Invocation, Command}
use dovik.Identity.Rest.{authorize}
use dovik.Identity.Filter.{Bytes, WriteError, SecretFilter, new_secret_filter, copy_output, flush}

-- []byte(text)
abbrev pub utf8 : ℕ → Bytes
utf8 n =
    if ltb n 128
    then n ∷ []
    else if ltb n 2048
    then (192 + n / 64) ∷ (128 + n % 64) ∷ []
    else if ltb n 65536
    then (224 + n / 4096) ∷ (128 + n / 64 % 64) ∷ (128 + n % 64) ∷ []
    else (240 + n / 262144) ∷ (128 + n / 4096 % 64) ∷ (128 + n / 64 % 64) ∷ (128 + n % 64) ∷ []

unfoldable pub bytes_of : String → Bytes
bytes_of String.[] = []
bytes_of (String.◌∷◌ c s) = utf8 (code c) ++ bytes_of s

-- strings.TrimSpace: at the left, and at the right
unfoldable pub trim_left : String → String
trim_left String.[] = ""
trim_left (String.◌∷◌ c s) = if is_space (code c) then trim_left s else String.◌∷◌ c s

unfoldable pub trim_right : String → String
unfolding every
trim_right String.[] = ""
trim_right (String.◌∷◌ c s) =
    let rest = trim_right s in if every is_space (String.◌∷◌ c s) then "" else String.◌∷◌ c rest

unfoldable pub trim_space : String → String
unfolding trim_left trim_right
trim_space s = trim_right (trim_left s)

-- a character other than "\r", "\n" and NUL
abbrev pub is_token_character : ℕ → Bool
is_token_character n = not (nat_beq n 13 || nat_beq n 10 || nat_beq n 0)

unfoldable pub ends_with_ghe : String → Bool
ends_with_ghe String.[] = false
ends_with_ghe (String.◌∷◌ c s) = let rest = ends_with_ghe s in String.◌∷◌ c s == ".ghe.com" || rest

-- The environment of a run: the directory of git is empty if there is none.
unfoldable pub command_environment : String → String → Persona → String → List String
unfolding ends_with_ghe
command_environment directory git_directory persona token =
    ("HOME=" ⧺ directory)
    ∷ ("USERPROFILE=" ⧺ directory)
    ∷ ("GH_CONFIG_DIR=" ⧺ directory)
    ∷ ("XDG_CONFIG_HOME=" ⧺ directory)
    ∷ ("GH_HOST=" ⧺ persona.host)
    ∷ "GH_PROMPT_DISABLED=1"
    ∷ "GH_NO_UPDATE_NOTIFIER=1"
    ∷ "GH_NO_EXTENSION_UPDATE_NOTIFIER=1"
    ∷ "GH_PAGER=cat"
    ∷ "NO_COLOR=1"
    ∷ "GIT_CONFIG_NOSYSTEM=1"
    ∷ "GIT_CONFIG_GLOBAL=/dev/null"
    ∷ "GIT_TERMINAL_PROMPT=0"
    ∷ ((if git_directory == "" then [] else ("PATH=" ⧺ git_directory) ∷ [])
        ++ ((if persona.host == "github.com" || ends_with_ghe persona.host
              then "GH_TOKEN"
              else "GH_ENTERPRISE_TOKEN")
            ⧺ "="
            ⧺ token)
          ∷ [])

pub data RunError : Type 0 where
  denied interactive invalid_gh no_authentication invalid_credential no_directory not_protected :
      RunError
  not_verified output_closed cancelled not_executed : RunError

-- How gh ended: well, with an exit code, or not at all.
pub data Ended : Type 0 where
  well : Ended
  exited : ℤ → Ended
  failed : Ended

-- What gh wrote and how it ended, by its arguments and its environment.
pub record GhRun : Type 0 where
  pub stdout : List Bytes
  pub stderr : List Bytes
  pub ended : Ended
  pub cancelled : Bool

pub record RunInput : Type 0 where
  pub validate_gh : String → Option String
  pub token_output : Option String
  pub directory : Option String
  pub protected : Bool
  pub git_directory : String
  pub login : Option String
  pub gh : String → List String → List String → Bytes → GhRun

-- The writers as they are left, the exit code and the error.
pub record RunResult (Sink : Type 0) : Type 0 where
  pub stdout : Sink
  pub stderr : Sink
  pub code : ℤ
  pub error : Option RunError

abbrev pub is_verified : Option String → Persona → Bool
is_verified none persona = false
is_verified (some login) persona = equal_fold (trim_space login) persona.account

-- The lines that git reads
unfoldable pub credential_lines : String → Bytes
unfolding bytes_of
credential_lines token =
    bytes_of "username=x-access-token" ++ 10 ∷ (bytes_of ("password=" ⧺ token) ++ 10 ∷ 10 ∷ [])

-- A process that ended well counts as failed if its output could not be copied.
abbrev pub after_copy : Option WriteError → Option WriteError → Ended → Ended
after_copy none none ended = ended
after_copy e e' well = failed
after_copy e e' ended = ended

module _ {Sink : Type 0} (put : Sink → Bytes → Sink × Option WriteError) where
  abbrev pub stops : Sink → Sink → RunError → Option (RunResult Sink)
  stops out err e = some (record { stdout = out; stderr = err; code = pos 1; error = some e })

  abbrev pub gh_result : Sink → Sink → Bool → Ended → RunResult Sink
  gh_result out err true ended = record {
    stdout = out;
    stderr = err;
    code = pos 1;
    error = some cancelled;
  }
  gh_result out err false well = record { stdout = out; stderr = err; code = pos 0; error = none }
  gh_result out err false (exited code) = record {
    stdout = out;
    stderr = err;
    code = code;
    error = none;
  }
  gh_result out err false failed = record {
    stdout = out;
    stderr = err;
    code = pos 1;
    error = some not_executed;
  }

  -- What is flushed at the end of a run, an error of either stream first.
  abbrev pub flushed : GhRun → Sink × Option WriteError → Sink × Option WriteError → RunResult Sink
  flushed r (out, none) (err, none) = gh_result out err r.cancelled r.ended
  flushed r (out, e) (err, e') = record {
    stdout = out;
    stderr = err;
    code = pos 1;
    error = some output_closed;
  }

  abbrev flush_writer : SecretFilter Sink → Sink × Option WriteError
  flush_writer f = let (f', e) = flush put f in (f'.writer, e)

  -- From `newSecretFilter` on. A write that does not return leaves no result.
  unfoldable pub filtered_run : Sink → Sink → String → GhRun → Option (RunResult Sink)
  unfolding copy_output flush bytes_of
  filtered_run out err token r =
      elim (copy_output put (new_secret_filter put out (bytes_of token)) r.stdout) [
        | none ↦ none
        | some (f, e) ↦
            elim (copy_output put (new_secret_filter put err (bytes_of token)) r.stderr) [
              | none ↦ none
              | some (g, e') ↦ some (
                  flushed (record r { ended = after_copy e e' r.ended }) (flush_writer f)
                    (flush_writer g))
            ]
      ]

  abbrev credential_result : Sink → Sink × Option WriteError → RunResult Sink
  credential_result err (out, none) = record {
    stdout = out;
    stderr = err;
    code = pos 0;
    error = none;
  }
  credential_result err (out, some e) = record {
    stdout = out;
    stderr = err;
    code = pos 1;
    error = some output_closed;
  }

  -- With a valid credential
  unfoldable pub run_with_token :
      RunInput
      → String
      → Persona
      → Invocation
      → Command
      → String
      → Sink
      → Sink
      → Option (RunResult Sink)
  unfolding trim_space equal_fold command_environment filtered_run credential_lines
  run_with_token input gh persona invocation command token out err = elim input.directory [
    | none ↦ stops out err no_directory
    | some directory ↦
        if not input.protected
        then stops out err not_protected
        else if not (is_verified input.login persona)
        then stops out err not_verified
        else if command.credential
        then some (credential_result err (put out (credential_lines token)))
        else filtered_run out err token (
            input.gh gh command.arguments
              (command_environment directory input.git_directory persona token) invocation.input)
  ]

  unfoldable pub run :
      RunInput → String → Project → Persona → Invocation → Sink → Sink → Option (RunResult Sink)
  unfolding authorize trim_space every run_with_token
  run input gh project persona invocation out err = elim (authorize project persona invocation) [
    | none ↦ stops out err denied
    | some command ↦
        if command.interactive then stops out err interactive else elim (input.validate_gh gh) [
          | none ↦ stops out err invalid_gh
          | some gh_path ↦ elim input.token_output [
            | none ↦ stops out err no_authentication
            | some text ↦
                let token = trim_space text in
                if token == "" || not (every is_token_character token)
                then stops out err invalid_credential
                else run_with_token input gh_path persona invocation command token out err
          ]
        ]
  ]
