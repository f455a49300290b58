-- ===== src/Identity/Executor/Redacting.antt =====
-- A run returns, and shows no credential but to the helper of git.
use Prim.Native.Char.{code}
use dovik.Prelude.{
  ℕ, Option, ◌<◌, ◌≡◌, refl, ◌∙◌, pos, String, Bool, true, false, not, ◌||◌, none, some,
  Option-cases, Bool-cases, inl, inr, ◌++◌, length, length-append, ◌==◌, string_eq, arith,
}
use dovik.Identity.Model.{Persona, Project, every}
use dovik.Identity.Validation.{equal_fold}
use dovik.Identity.Commands.{Invocation, Command}
use dovik.Identity.Rest.{authorize}
use dovik.Identity.Filter.{Bytes, flush}
use dovik.Identity.Filter.Redaction.{collect, redact, join, copy_output-redacts}
use dovik.Identity.Executor.{
  utf8, bytes_of, after_copy, trim_space, is_token_character, RunError, denied, interactive,
  invalid_gh, no_authentication, invalid_credential, no_directory, not_protected, not_verified,
  GhRun, Ended, RunInput, RunResult, credential_lines, filtered_run, flushed, gh_result,
  run_with_token, run, is_verified, command_environment,
}

utf8-nonempty : (n : ℕ) → 0 < length (utf8 n)
utf8-nonempty n = ground arith

bytes_of-nonempty : (token : String) → (token == "") ≡ false → 0 < length (bytes_of token)
unfolding bytes_of
bytes_of-nonempty String.[] h = absurd (cc h)
bytes_of-nonempty (String.◌∷◌ c s) h =
    omega (arith, length-append (utf8 (code c)) (bytes_of s), utf8-nonempty (code c))

-- What a run has established before it uses the credential: an authorised command, gh at a path that
-- was validated, the token that gh gave, a private directory, and the account behind the token, which
-- is the persona's.
pub record Ready (input : RunInput) (gh : String) (project : Project) (persona : Persona)
    (invocation : Invocation) : Type 0 where
  pub command : Command
  pub authorised : authorize project persona invocation ≡ some command
  pub batch : command.interactive ≡ false
  pub path : String
  pub validated : input.validate_gh gh ≡ some path
  pub printed : String
  pub token_there : input.token_output ≡ some printed
  pub token : String
  pub trimmed : token ≡ trim_space printed
  pub directory : String
  pub directory_there : input.directory ≡ some directory
  pub private : input.protected ≡ true
  pub login : String
  pub login_there : input.login ≡ some login
  pub same_account : equal_fold (trim_space login) persona.account ≡ true

module _ (input : RunInput) (gh : String) (project : Project) (persona : Persona)
    (invocation : Invocation) where
  -- what gh writes when it is run so
  abbrev pub printed_by : Ready input gh project persona invocation → GhRun
  printed_by ready =
      input.gh ready.path ready.command.arguments
        (command_environment ready.directory input.git_directory persona ready.token)
        invocation.input

module _ (input : RunInput) (gh : String) (project : Project) (persona : Persona)
    (invocation : Invocation) (out err : Bytes) where
  -- What the two writers have after a run, by what they had: nothing more, after an error; the token
  -- that gh gave, for a command that asks for it; or what gh printed with that token redacted.
  pub data Shown (result : RunResult Bytes) : Type 0 where
    nothing :
        (e : RunError)
        → result.error ≡ some e
        → result.stdout ≡ out
        → result.stderr ≡ err
        → Shown result
    to_git :
        (ready : Ready input gh project persona invocation)
        → ready.command.credential ≡ true
        → result.stdout ≡ out ++ credential_lines ready.token
        → result.stderr ≡ err
        → Shown result
    redacted :
        (ready : Ready input gh project persona invocation)
        → ready.command.credential ≡ false
        → 0 < length (bytes_of ready.token)
        → result.stdout
          ≡ out
            ++ redact
                (bytes_of ready.token)
                (join (printed_by input gh project persona invocation ready).stdout)
        → result.stderr
          ≡ err
            ++ redact
                (bytes_of ready.token)
                (join (printed_by input gh project persona invocation ready).stderr)
        → Shown result

gh_result-outputs :
    (out err : Bytes) (cancelled : Bool) (ended : Ended)
    → ((gh_result collect out err cancelled ended).stdout ≡ out)
      × ((gh_result collect out err cancelled ended).stderr ≡ err)
gh_result-outputs out err true ended = (refl, refl)
gh_result-outputs out err false Ended.well = (refl, refl)
gh_result-outputs out err false (Ended.exited code) = (refl, refl)
gh_result-outputs out err false Ended.failed = (refl, refl)

flushed-outputs :
    (r : GhRun) (out err : Bytes)
    → ((flushed collect r (out, none) (err, none)).stdout ≡ out)
      × ((flushed collect r (out, none) (err, none)).stderr ≡ err)
flushed-outputs r out err = gh_result-outputs out err r.cancelled r.ended

filtered_run-redacts :
    (out err : Bytes) (token : String) (r : GhRun)
    → 0 < length (bytes_of token)
    → (result : RunResult Bytes) × (filtered_run collect out err token r ≡ some result)
      × (result.stdout ≡ out ++ redact (bytes_of token) (join r.stdout))
      × (result.stderr ≡ err ++ redact (bytes_of token) (join r.stderr))
unfolding filtered_run flush
filtered_run-redacts out err token r h =
    let (f, e, same) = copy_output-redacts (bytes_of token) out r.stdout h in
    let (g, e', same') = copy_output-redacts (bytes_of token) err r.stderr h in
    let result =
      flushed collect (record r { ended = after_copy none none r.ended })
        ((flush collect f).0.writer, none) ((flush collect g).0.writer, none) in
    let outputs =
      flushed-outputs (record r { ended = after_copy none none r.ended }) (flush collect f).0.writer
        (flush collect g).0.writer in
    (result, rw (e, filtered_run) (rw e' refl), outputs.0 ∙ same, outputs.1 ∙ same')

verified_login :
    (login : Option String) (persona : Persona)
    → is_verified login persona ≡ true
    → (text : String) × (login ≡ some text) × (equal_fold (trim_space text) persona.account ≡ true)
verified_login none persona h = absurd (cc h)
verified_login (some text) persona h = (text, refl, h)

module _ (input : RunInput) (gh : String) (project : Project) (persona : Persona)
    (invocation : Invocation) (out err : Bytes) where
  abbrev stopped : RunError → RunResult Bytes
  stopped e = record { stdout = out; stderr = err; code = pos 1; error = some e }

  halted : (e : RunError) → Shown input gh project persona invocation out err (stopped e)
  halted e = nothing e refl refl refl

  run_with_token-Shown :
      (command : Command) (path text : String)
      → authorize project persona invocation ≡ some command
      → command.interactive ≡ false
      → input.validate_gh gh ≡ some path
      → input.token_output ≡ some text
      → (trim_space text == "") ≡ false
      → (result : RunResult Bytes) × (run_with_token collect input path persona invocation command
            (trim_space text)
            out
            err
          ≡ some result)
        × Shown input gh project persona invocation out err result
  unfolding run_with_token
  run_with_token-Shown command path text authorised batch validated printed h =
      elim (Option-cases input.directory) [
        | inl e ↦ (stopped no_directory, rw (e, run_with_token) refl, halted no_directory)
        | inr (directory, e) ↦ elim (Bool-cases input.protected) [
          | inr e1 ↦ (stopped not_protected, rw (e, e1, run_with_token) refl, halted not_protected)
          | inl e1 ↦ elim (Bool-cases (is_verified input.login persona)) [
            | inr e2 ↦
                (stopped not_verified, rw (e, e1, e2, run_with_token) refl, halted not_verified)
            | inl e2 ↦
                let (login, there, same) = verified_login input.login persona e2 in
                let ready : Ready input gh project persona invocation = record {
                  command = command;
                  authorised = authorised;
                  batch = batch;
                  path = path;
                  validated = validated;
                  printed = text;
                  token_there = printed;
                  token = trim_space text;
                  trimmed = refl;
                  directory = directory;
                  directory_there = e;
                  private = e1;
                  login = login;
                  login_there = there;
                  same_account = same;
                } in
                elim (Bool-cases command.credential) [
                  | inl e3 ↦ (
                    record {
                      stdout = out ++ credential_lines (trim_space text);
                      stderr = err;
                      code = pos 0;
                      error = none;
                    },
                    rw (e, e1, e2, e3, run_with_token) refl,
                    to_git ready e3 refl refl,
                  )
                  | inr e3 ↦
                      let some_bytes = bytes_of-nonempty (trim_space text) h in
                      let (result, made, stdout, stderr) =
                        filtered_run-redacts out err (trim_space text)
                          (printed_by input gh project persona invocation ready) some_bytes in
                      (
                        result,
                        rw (e, e1, e2, e3, run_with_token) made,
                        redacted ready e3 some_bytes stdout stderr,
                      )
                ]
          ]
        ]
      ]

  -- While the connection takes what is written, every run returns, whatever is asked and whatever the
  -- programs print; and the connection then has nothing new, after an error, or the lines with the
  -- token that gh gave, for the helper of git, or what gh printed when it was run with that token, with
  -- every occurrence of the token, from left to right, replaced by the mark. The last two only for an
  -- authorised command, a validated gh and a token of the persona's account.
  pub run-Shown :
      (result : RunResult Bytes) × (run collect input gh project persona invocation out err
        ≡ some result)
      × Shown input gh project persona invocation out err result
  unfolding run
  run-Shown = elim (Option-cases (authorize project persona invocation)) [
    | inl e ↦ (stopped denied, rw (e, run) refl, halted denied)
    | inr (command, e) ↦ elim (Bool-cases command.interactive) [
      | inl e1 ↦ (stopped interactive, rw (e, e1, run) refl, halted interactive)
      | inr e1 ↦ elim (Option-cases (input.validate_gh gh)) [
        | inl e2 ↦ (stopped invalid_gh, rw (e, e1, e2, run) refl, halted invalid_gh)
        | inr (path, e2) ↦ elim (Option-cases input.token_output) [
          | inl e3 ↦
              (stopped no_authentication, rw (e, e1, e2, e3, run) refl, halted no_authentication)
          | inr (text, e3) ↦
              elim (Bool-cases
                (trim_space text == "" || not (every is_token_character (trim_space text)))) [
                  | inl e4 ↦ (
                    stopped invalid_credential,
                    rw (e, e1, e2, e3, e4, run) refl,
                    halted invalid_credential,
                  )
                  | inr e4 ↦
                      let (result, made, shown) =
                        run_with_token-Shown command path text e e1 e2 e3 (ground (arith, e4)) in
                      let step : run collect input gh project persona invocation out err
                          ≡ run_with_token collect input path persona invocation command
                              (trim_space text) out err =
                        rw (e, e1, e2, e3, e4, run) refl in
                      (result, step ∙ made, shown)
                ]
        ]
      ]
    ]
  ]
