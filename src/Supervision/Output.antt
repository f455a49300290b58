-- ===== src/Supervision/Output.antt =====
-- internal/supervision/output.go: the bounded buffer of captured output.
-- The lock makes each method one step. A byte is a number; an empty `Data` and a nil one are one
-- list. `bytes`, `maxBytes` and `maxEvents` are Go ints: lengths of data in memory, and limits that
-- `NewOutputBuffer` has checked to be positive, so natural numbers. `nextSequence` wraps at 2^64.
pub mod Retention
pub mod Capture
pub mod History
pub mod Paging
pub mod Overflow
pub mod Keeping
use dovik.Prelude.{
  ℕ, ℤ, pos, negsuc, is_positive, zero, suc, ◌+◌, ◌-◌, ◌%◌, ◌^◌, min, String, Bool, true, false,
  ◌||◌, not, Option, none, some, List, [], ◌∷◌, ◌++◌, length, take, drop, ltb, leb, nat_beq,
  if◌then◌else◌, ◌==◌, string_eq,
}

pub record OutputEvent : Type 0 where
  pub sequence : ℕ  -- uint64
  pub captured_at : ℕ
  pub stream : String
  pub data_bytes : List ℕ

pub record OutputTail : Type 0 where
  pub events : List OutputEvent
  pub truncated : Bool

pub record OutputBuffer : Type 0 where
  pub max_bytes : ℕ
  pub max_events : ℕ
  pub bytes : ℕ
  pub next_sequence : ℕ  -- uint64
  pub events : List OutputEvent
  pub truncated : Bool

pub data OutputError : Type 0 where
  byte_limit event_limit invalid_stream tail_limit : OutputError
  -- a slice or `make` with a negative bound
  panics : OutputError

pub data Result {ℓ} (A : Type ℓ) : Type ℓ where
  ok : A → Result A
  err : OutputError → Result A

abbrev pub u64 : ℕ → ℕ
u64 n = n % 2 ^ 64

unfoldable pub new_output_buffer : ℤ → ℤ → Result OutputBuffer
new_output_buffer (pos (suc b)) (pos (suc e)) = ok (record {
  max_bytes = suc b;
  max_events = suc e;
  bytes = 0;
  next_sequence = 1;
  events = [];
  truncated = false;
})
new_output_buffer (pos (suc b)) max_events = err event_limit
new_output_buffer max_bytes max_events = err byte_limit

-- stream == OutputStreamStdout || stream == OutputStreamStderr
unfoldable pub is_stream : String → Bool
is_stream stream = stream == "stdout" || stream == "stderr"

-- `Writer`: the writer is the pair of the buffer, which is shared, and the stream.
unfoldable pub writer : String → Result String
writer stream = if not (is_stream stream) then err invalid_stream else ok stream

-- The loop of `enforceLimits`, which drops the oldest event in each round. The code would index
-- an empty slice if the test held there; with `bytes` the size of the events it does not.
unfoldable pub enforce_events : OutputBuffer → List OutputEvent → OutputBuffer
enforce_events buffer [] = record buffer { events = [] }
enforce_events buffer (oldest ∷ rest) =
    let smaller =
      enforce_events
        (record buffer { bytes = buffer.bytes - length oldest.data_bytes; truncated = true })
        rest in
    if ltb buffer.max_events (length (oldest ∷ rest)) || ltb buffer.max_bytes buffer.bytes
    then smaller
    else record buffer { events = oldest ∷ rest }

unfoldable pub enforce_limits : OutputBuffer → OutputBuffer
unfolding enforce_events
enforce_limits buffer = enforce_events buffer buffer.events

-- One round of the loop of `Capture`, on a chunk that was cut off.
unfoldable pub append_chunk : OutputBuffer → String → ℕ → List ℕ → OutputBuffer
unfolding enforce_limits
append_chunk buffer stream captured_at chunk = enforce_limits (record buffer {
  events =
      buffer.events
      ++ (record {
        sequence = buffer.next_sequence;
        captured_at = captured_at;
        stream = stream;
        data_bytes = chunk;
      })
        ∷ [];
  next_sequence = u64 (buffer.next_sequence + 1);
  bytes = buffer.bytes + length chunk;
})

-- The loop of `Capture` on fuel; each round takes a byte at least, so `length data` rounds do.
unfoldable pub capture_loop : ℕ → OutputBuffer → String → ℕ → List ℕ → OutputBuffer
unfolding append_chunk
capture_loop fuel buffer stream captured_at [] = buffer
capture_loop zero buffer stream captured_at (b ∷ bs) = buffer
capture_loop (suc fuel) buffer stream captured_at (b ∷ bs) =
    let n = min (length (b ∷ bs)) buffer.max_bytes in
    capture_loop fuel (append_chunk buffer stream captured_at (take n (b ∷ bs))) stream captured_at
      (drop n (b ∷ bs))

unfoldable pub capture : OutputBuffer → String → List ℕ → ℕ → OutputBuffer × Option OutputError
unfolding is_stream capture_loop
capture buffer stream data_bytes captured_at =
    if not (is_stream stream)
    then (buffer, some invalid_stream)
    else (capture_loop (length data_bytes) buffer stream captured_at data_bytes, none)

-- `Write` of the writer returns the length of the data, or 0 beside an error.
unfoldable pub write : OutputBuffer → String → List ℕ → ℕ → OutputBuffer × ℕ × Option OutputError
unfolding capture
write buffer stream data_bytes now =
    let (buffer', error) = capture buffer stream data_bytes now in
    elim error [ none ↦ (buffer', length data_bytes, none) | some e ↦ (buffer', 0, some e) ]

-- The loop that looks for the first event after a sequence number.
unfoldable pub start_after : ℕ → List OutputEvent → ℕ
start_after after [] = 0
start_after after (event ∷ rest) =
    if leb event.sequence after then suc (start_after after rest) else 0

unfoldable pub tail_start : OutputBuffer → ℕ → ℕ → ℕ
unfolding start_after
tail_start buffer after limit =
    if nat_beq after 0 then length buffer.events - limit else start_after after buffer.events

-- `start+limit` is an int: past 2^63 - 1 it is negative, and `make` panics.
unfoldable pub tail_from : OutputBuffer → ℕ → ℕ → Result OutputTail
tail_from buffer start limit =
    if leb (2 ^ 63) (start + limit)
    then err panics
    else ok (record {
      events = take (min (length buffer.events) (start + limit) - start) (drop start buffer.events);
      truncated = buffer.truncated;
    })

unfoldable pub tail : OutputBuffer → ℕ → ℤ → Result OutputTail
unfolding tail_start tail_from
tail buffer after (pos (suc n)) = tail_from buffer (tail_start buffer after (suc n)) (suc n)
tail buffer after limit = err tail_limit
