-- ===== src/Identity/Stream.antt =====
-- internal/identity/stream.go: the frames between the daemon and the proxy of gh.
-- A byte is a number. The encoder and the writers are parameters, and so is what the decoder reads: a
-- list of frames, at whose end the channel is closed.
pub mod Carrying
use dovik.Prelude.{
  ℕ, zero, suc, ℤ, pos, String, Bool, true, false, Option, none, some, List, [], ◌∷◌, length, take,
  drop, if◌then◌else◌, ◌==◌, string_eq,
}
use dovik.Identity.Filter.{Bytes}
use dovik.Identity.Model.{Persona, Project}

pub record Frame : Type 0 where
  pub stream : String
  pub data_bytes : Bytes
  pub exit_code : Option ℤ
  pub error : String
  pub context : Option (Project × Persona)

abbrev pub empty_frame : Frame
empty_frame = record { stream = ""; data_bytes = []; exit_code = none; error = ""; context = none }

abbrev pub frame_size : ℕ
frame_size = 32768

module _ {Channel : Type 0} (send : Channel → Frame → Channel × Bool) where
  -- The loop of `frameWriter.Write` on fuel, over what is left of the bytes.
  unfoldable pub write_loop : ℕ → String → Bytes → Channel → Option (Channel × Bool)
  write_loop fuel stream [] c = some (c, true)
  write_loop zero stream (x ∷ p) c = none
  write_loop (suc fuel) stream (x ∷ p) c =
      let (c', sent) =
        send c (record empty_frame { stream = stream; data_bytes = take frame_size (x ∷ p) }) in
      elim sent [
        | false ↦ some (c', false)
        | true ↦ write_loop fuel stream (drop frame_size (x ∷ p)) c'
      ]

  -- Every round takes a byte, so the number of bytes is enough fuel.
  unfoldable pub frame_write : String → Bytes → Channel → Option (Channel × ℕ × Bool)
  unfolding write_loop
  frame_write stream p c = elim (write_loop (length p) stream p c) [
    | none ↦ none
    | some (c', true) ↦ some (c', length p, true)
    | some (c', false) ↦ some (c', 0, false)
  ]

  -- The last frame of `Stream`
  unfoldable pub send_exit : ℤ → String → Channel → Channel
  send_exit code error c = (send c (record empty_frame { exit_code = some code; error = error })).0

pub data StreamError : Type 0 where
  channel_closed invalid_frame write_failed : StreamError
  reported : String → StreamError

-- What `ReadStream` leaves: both writers, the exit code and the error.
pub record Read (Sink : Type 0) : Type 0 where
  pub stdout : Sink
  pub stderr : Sink
  pub code : ℤ
  pub error : Option StreamError

module _ {Sink : Type 0} (put : Sink → Bytes → Sink × Bool) where
  unfoldable pub read_stream : List Frame → Sink → Sink → Read Sink
  read_stream [] out err = record {
    stdout = out;
    stderr = err;
    code = pos 1;
    error = some channel_closed;
  }
  read_stream (frame ∷ frames) out err = elim frame.exit_code [
    | some code ↦ record {
      stdout = out;
      stderr = err;
      code = code;
      error = if frame.error == "" then none else some (reported frame.error);
    }
    | none ↦
        if frame.stream == "stdout"
        then (let (out', written) = put out frame.data_bytes in
            elim written [
              | true ↦ read_stream frames out' err
              | false ↦ record {
                stdout = out';
                stderr = err;
                code = pos 1;
                error = some write_failed;
              }
            ])
        else if frame.stream == "stderr"
        then (let (err', written) = put err frame.data_bytes in
            elim written [
              | true ↦ read_stream frames out err'
              | false ↦ record {
                stdout = out;
                stderr = err';
                code = pos 1;
                error = some write_failed;
              }
            ])
        else record { stdout = out; stderr = err; code = pos 1; error = some invalid_frame }
  ]
