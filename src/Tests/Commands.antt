-- ===== src/Tests/Commands.antt =====
-- What an agent asks of gh, and what gh prints.
use dovik.Prelude.{
  ◌≡◌, refl, pos, Bool, true, false, none, some, List, [], ◌∷◌, lookup, insert, arith,
}
use dovik.Identity.Commands.{Invocation, Command}
use dovik.Identity.Utf8.{text_of, split_bytes, cut_bytes}
use dovik.Identity.Validation.{equal_fold}
use dovik.Identity.Rest.{authorize}
use dovik.Identity.Rest.Repository.{Authorized, authorize-Authorized}
use dovik.Identity.Filter.{Bytes, SecretFilter, new_secret_filter, copy_output, flush}
use dovik.Identity.Filter.Redaction.{collect, redact, join, copy_output-redacts}
use dovik.Identity.Stream.{Frame, read_stream, send_exit}
use dovik.Identity.Stream.Carrying.{queue, gather, write_all, write_all-read_stream}
use dovik.Identity.Executor.{bytes_of, Ended, RunInput, RunResult, run}
use dovik.Identity.Executor.Redacting.{Shown, run-Shown}
use dovik.Tests.Identities.{robot, site}

-- gh pr view 12 --json title
abbrev view_request : Invocation
view_request = record { arguments = "pr" ∷ "view" ∷ "12" ∷ "--json" ∷ "title" ∷ []; input = [] }

abbrev view_command : Command
view_command = record {
  arguments = "pr" ∷ "view" ∷ "12" ∷ "--json" ∷ "title" ∷ "--repo" ∷ "github.com/robot/site" ∷ [];
  permission = "read";
  credential = false;
  interactive = false;
}

viewed : authorize site robot view_request ≡ some view_command
unfolding authorize lookup
viewed = refl

authorize-Authorized_example : Authorized site robot view_request view_command
authorize-Authorized_example = authorize-Authorized site robot view_request view_command viewed

-- the secret 1 2, cut in two, between other bytes
abbrev chunks : List Bytes
chunks = (7 ∷ 1 ∷ []) ∷ (2 ∷ 8 ∷ []) ∷ []

copy_output-redacts_example :
    (f : SecretFilter Bytes) × (copy_output collect
        (new_secret_filter collect [] (1 ∷ 2 ∷ []))
        chunks
      ≡ some (f, none))
    × ((flush collect f).0.writer ≡ redact (1 ∷ 2 ∷ []) (join chunks))
copy_output-redacts_example = copy_output-redacts (1 ∷ 2 ∷ []) [] chunks (omega arith)

abbrev writes : List (Bool × Bytes)
writes = (true, 1 ∷ 2 ∷ []) ∷ (false, 9 ∷ []) ∷ (true, 3 ∷ []) ∷ []

write_all-read_stream_example :
    (frames : List Frame) × (write_all writes [] ≡ some frames)
    × (read_stream gather (send_exit queue (pos 4) "" frames) [] []
        ≡ record { stdout = 1 ∷ 2 ∷ 3 ∷ []; stderr = 9 ∷ []; code = pos 4; error = none })
write_all-read_stream_example = write_all-read_stream writes (pos 4)

-- a gh that prints its token
abbrev input : RunInput
input = record {
  validate_gh = λ path. some path;
  token_output = some "s3cret";
  directory = some "/var/dovik/gh-call-1";
  protected = true;
  git_directory = "/usr/bin";
  login = some "robot";
  gh = λ path arguments environment text. record {
    stdout = (b's' ∷ b'3' ∷ []) ∷ (b'c' ∷ b'r' ∷ b'e' ∷ b't' ∷ []) ∷ [];
    stderr = [];
    ended = Ended.well;
    cancelled = false;
  };
}

run-Shown_example :
    (result : RunResult Bytes) × (run collect input "/usr/bin/gh" site robot view_request [] []
      ≡ some result)
    × Shown input "/usr/bin/gh" site robot view_request [] [] result
run-Shown_example = run-Shown input "/usr/bin/gh" site robot view_request [] []

-- "é", a byte that begins nothing, "a", and the three bytes of "€"
decoded : text_of (0xc3 ∷ 0xa9 ∷ 0xff ∷ 0x61 ∷ 0xe2 ∷ 0x82 ∷ 0xac ∷ []) ≡ "é�a€"
unfolding text_of
decoded = refl

-- git credential get, for a host and no repository
abbrev credential_request : Invocation
credential_request = record {
  arguments = "auth" ∷ "git-credential" ∷ "get" ∷ [];
  input = bytes_of "capability[]=authtype\r\nprotocol=https\nhost=GitHub.com\n";
}

credential_given :
    authorize site robot credential_request
    ≡ some (record { arguments = []; permission = ""; credential = true; interactive = false })
unfolding authorize lookup insert bytes_of text_of split_bytes cut_bytes equal_fold
credential_given = refl
