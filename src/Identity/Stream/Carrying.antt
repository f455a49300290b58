-- ===== src/Identity/Stream/Carrying.antt =====
-- What is written at one end of the channel is what comes out at the other.
use mathlib.Core.List.{append-nil, append_assoc}
use mathlib.Core.Path.{subst}
use dovik.Prelude.{
  ℕ, zero, suc, ◌≤◌, ◌≡◌, refl, ap, ◌∙◌, ℤ, String, Bool, true, false, Option, none, some, List, [],
  ◌∷◌, ◌++◌, length, take, drop, take-append-drop, length-drop, arith, if◌then◌else◌, string_eq,
}
use dovik.Identity.Filter.{Bytes}
use dovik.Identity.Stream.{
  Frame, empty_frame, frame_size, write_loop, frame_write, send_exit, read_stream,
}

-- a channel that takes everything, and a writer that does
abbrev pub queue : List Frame → Frame → List Frame × Bool
queue frames frame = (frames ++ frame ∷ [], true)

abbrev pub gather : Bytes → Bytes → Bytes × Bool
gather out p = (out ++ p, true)

-- the stream of a write: stdout or stderr
abbrev pub stream_name : Bool → String
stream_name to_stdout = if to_stdout then "stdout" else "stderr"

-- The writes of a process, in order, each to one of the streams.
abbrev pub write_all : List (Bool × Bytes) → List Frame → Option (List Frame)
write_all [] frames = some frames
write_all ((to_stdout, p) ∷ rest) frames =
    elim (frame_write queue (stream_name to_stdout) p frames) [
      | none ↦ none
      | some (frames', n, sent) ↦ write_all rest frames'
    ]

abbrev pub written_to : Bool → List (Bool × Bytes) → Bytes
written_to stream [] = []
written_to true ((true, p) ∷ rest) = p ++ written_to true rest
written_to true ((false, p) ∷ rest) = written_to true rest
written_to false ((true, p) ∷ rest) = written_to false rest
written_to false ((false, p) ∷ rest) = p ++ written_to false rest

-- Reading more frames of one stream first appends their bytes.
abbrev Carries : Bool → Bytes → List Frame → Type 0
Carries to_stdout p frames =
    (rest : List Frame) (out err : Bytes)
    → read_stream gather (frames ++ rest) out err ≡ (
        if to_stdout
        then read_stream gather rest (out ++ p) err
        else read_stream gather rest out (err ++ p))

carry_frame :
    (to_stdout : Bool) (p q : Bytes) (frames : List Frame)
    → Carries to_stdout q frames
    → Carries to_stdout
        (p ++ q)
        (record empty_frame { stream = stream_name to_stdout; data_bytes = p } ∷ frames)
unfolding read_stream
carry_frame true p q frames h rest out err =
    h rest (out ++ p) err ∙ ap (λ (o : Bytes). read_stream gather rest o err) (append_assoc out p q)
carry_frame false p q frames h rest out err =
    h rest out (err ++ p) ∙ ap (λ (o : Bytes). read_stream gather rest out o) (append_assoc err p q)

-- The loop of a write ends, and appends frames that carry the bytes.
abbrev Sent : ℕ → Bool → Bytes → List Frame → Type 0
Sent fuel to_stdout p sent =
    (frames : List Frame) × (write_loop queue fuel (stream_name to_stdout) p sent
      ≡ some (sent ++ frames, true))
    × Carries to_stdout p frames

abbrev frame_of : Bool → Bytes → Frame
frame_of to_stdout p = record empty_frame {
  stream = stream_name to_stdout;
  data_bytes = take frame_size p;
}

Sent-nil : (fuel : ℕ) (to_stdout : Bool) (sent : List Frame) → Sent fuel to_stdout [] sent
unfolding write_loop
Sent-nil fuel true sent = ([], rw append-nil refl, λ rest out err. rw append-nil refl)
Sent-nil fuel false sent = ([], rw append-nil refl, λ rest out err. rw append-nil refl)

Sent-cons :
    (fuel : ℕ) (to_stdout : Bool) (x : ℕ) (p : Bytes) (sent : List Frame)
    → Sent fuel to_stdout (drop frame_size (x ∷ p)) (sent ++ frame_of to_stdout (x ∷ p) ∷ [])
    → Sent (suc fuel) to_stdout (x ∷ p) sent
unfolding write_loop
Sent-cons fuel to_stdout x p sent (frames, e, carries) = (
  frame_of to_stdout (x ∷ p) ∷ frames,
  e
      ∙ ap (λ (f : List Frame). some (f, true))
          (append_assoc sent (frame_of to_stdout (x ∷ p) ∷ []) frames),
  subst (λ (q : Bytes). Carries to_stdout q (frame_of to_stdout (x ∷ p) ∷ frames))
      (take-append-drop frame_size (x ∷ p))
      (carry_frame to_stdout (take frame_size (x ∷ p)) (drop frame_size (x ∷ p)) frames carries),
)

write_loop-Sent :
    (fuel : ℕ) (to_stdout : Bool) (p : Bytes) (sent : List Frame)
    → length p ≤ fuel
    → Sent fuel to_stdout p sent
write_loop-Sent fuel to_stdout [] sent h = Sent-nil fuel to_stdout sent
write_loop-Sent zero to_stdout (x ∷ p) sent h = absurd (omega arith)
write_loop-Sent (suc fuel) to_stdout (x ∷ p) sent h = Sent-cons fuel to_stdout x p sent (
    write_loop-Sent fuel to_stdout (drop frame_size (x ∷ p))
      (sent ++ frame_of to_stdout (x ∷ p) ∷ []) (omega (arith, length-drop frame_size (x ∷ p))))

-- All the writes of a process end, and the frames carry each stream's bytes in order.
abbrev Delivers : List (Bool × Bytes) → List Frame → Type 0
Delivers events frames =
    (rest : List Frame) (out err : Bytes)
    → read_stream gather (frames ++ rest) out err
      ≡ read_stream gather rest (out ++ written_to true events) (err ++ written_to false events)

abbrev AllSent : List (Bool × Bytes) → List Frame → Type 0
AllSent events sent =
    (frames : List Frame) × (write_all events sent ≡ some (sent ++ frames)) × Delivers events frames

deliver :
    (to_stdout : Bool) (p : Bytes) (events : List (Bool × Bytes)) (first later : List Frame)
    → Carries to_stdout p first
    → Delivers events later
    → Delivers ((to_stdout, p) ∷ events) (first ++ later)
deliver true p events first later carries delivers rest out err =
    rw
      (append_assoc first later rest, carries (later ++ rest) out err, delivers rest (out ++ p) err)
      (rw append_assoc refl)
deliver false p events first later carries delivers rest out err =
    rw
      (append_assoc first later rest, carries (later ++ rest) out err, delivers rest out (err ++ p))
      (rw append_assoc refl)

AllSent-cons :
    (to_stdout : Bool) (p : Bytes) (events : List (Bool × Bytes)) (sent : List Frame)
    → (s : Sent (length p) to_stdout p sent) → AllSent events (sent ++ s.0)
    → AllSent ((to_stdout, p) ∷ events) sent
unfolding frame_write
AllSent-cons to_stdout p events sent (first, e, carries) (later, e', delivers) = (
  first ++ later,
  rw (e, frame_write, write_all) (e' ∙ ap some (append_assoc sent first later)),
  deliver to_stdout p events first later carries delivers,
)

write_all-AllSent : (events : List (Bool × Bytes)) (sent : List Frame) → AllSent events sent
write_all-AllSent [] sent =
    ([], rw append-nil refl, λ rest out err. rw append-nil (rw append-nil refl))
write_all-AllSent ((to_stdout, p) ∷ events) sent =
    let s = write_loop-Sent (length p) to_stdout p sent (omega arith) in
    AllSent-cons to_stdout p events sent s (write_all-AllSent events (sent ++ s.0))

-- Whatever a process writes, in whatever order to its two streams, every write to the channel returns,
-- and reading the frames and the last one behind them gives both streams byte for byte and the exit
-- code, without an error.
pub write_all-read_stream :
    (events : List (Bool × Bytes)) (code : ℤ)
    → (frames : List Frame) × (write_all events [] ≡ some frames)
      × (read_stream gather (send_exit queue code "" frames) [] [] ≡ record {
        stdout = written_to true events;
        stderr = written_to false events;
        code = code;
        error = none;
      })
unfolding send_exit read_stream
write_all-read_stream events code =
    let (frames, e, delivers) = write_all-AllSent events [] in
    (frames, e, delivers (record empty_frame { exit_code = some code; error = "" } ∷ []) [] [])
