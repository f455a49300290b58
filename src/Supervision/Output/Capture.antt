-- ===== src/Supervision/Output/Capture.antt =====
-- `Capture` against the history of everything captured: the buffer holds the longest tail of it
-- within the limits, and the history holds every byte once, in order.
use mathlib.Core.List.{append-nil, append_assoc}
use dovik.Prelude.{
  ℕ, zero, suc, ◌+◌, ◌≤◌, ◌<◌, min, ◌≡◌, refl, ◌∙◌, String, true, false, none, List, [], ◌∷◌, ◌++◌,
  length, length-take, length-drop, take, drop, take-append-drop, if◌then◌else◌, arith,
}
use dovik.Supervision.Output.{
  OutputEvent, OutputBuffer, u64, append_chunk, capture_loop, capture, is_stream,
}
use dovik.Supervision.Output.Retention.{
  total, total-append, exceeds, retain, retain-append, exceeds-retain-append, exceeds-retain,
  retain-suffix, retain-longest, enforce_events-eq-retain,
}

-- the captured bytes of a history
abbrev pub content : List OutputEvent → List ℕ
content [] = []
content (event ∷ rest) = event.data_bytes ++ content rest

-- What ties a buffer to the history of its events, the dropped ones included.
pub record Reflects (history : List OutputEvent) (b : OutputBuffer) : Type 0 where
  pub has_room : 0 < b.max_bytes
  pub kept : b.events ≡ retain b.max_bytes b.max_events history
  pub counted : b.bytes ≡ total b.events
  pub flagged : b.truncated ≡ exceeds b.max_bytes b.max_events history

-- The events that one `Capture` adds are numbered from `n` on, of one stream and one time, and
-- hold between 1 and `max_bytes` bytes each.
abbrev pub Chunks : ℕ → ℕ → String → ℕ → List OutputEvent → Type 0
Chunks max_bytes n stream at [] = Unit {0}
Chunks max_bytes n stream at (event ∷ rest) =
    (event.sequence ≡ n)
    × (event.stream ≡ stream)
    × (event.captured_at ≡ at)
    × (0 < length event.data_bytes)
    × (length event.data_bytes ≤ max_bytes)
    × Chunks max_bytes (u64 (n + 1)) stream at rest

abbrev pub next_after : ℕ → List OutputEvent → ℕ
next_after n [] = n
next_after n (event ∷ rest) = next_after (u64 (n + 1)) rest

abbrev event_of : OutputBuffer → String → ℕ → List ℕ → OutputEvent
event_of b stream at chunk = record {
  sequence = b.next_sequence;
  captured_at = at;
  stream = stream;
  data_bytes = chunk;
}

append_chunk-eq :
    (b : OutputBuffer) (stream : String) (at : ℕ) (chunk : List ℕ)
    → b.bytes ≡ total b.events
    → let all = b.events ++ event_of b stream at chunk ∷ [] in
      let kept = retain b.max_bytes b.max_events all in
      append_chunk b stream at chunk ≡ record b {
        events = kept;
        bytes = total kept;
        next_sequence = u64 (b.next_sequence + 1);
        truncated = (if exceeds b.max_bytes b.max_events all then true else b.truncated);
      }
unfolding append_chunk
append_chunk-eq b stream at chunk h =
    enforce_events-eq-retain _ (b.events ++ event_of b stream at chunk ∷ [])
      (omega (arith, total-append b.events (event_of b stream at chunk ∷ [])))

append_chunk-Reflects :
    (history : List OutputEvent) (b : OutputBuffer) (stream : String) (at : ℕ) (chunk : List ℕ)
    → Reflects history b
    → Reflects (history ++ event_of b stream at chunk ∷ []) (append_chunk b stream at chunk)
append_chunk-Reflects history b stream at chunk r =
    rw (append_chunk-eq b stream at chunk r.counted, r.kept, r.flagged)
      (record {
        has_room = r.has_room;
        kept = retain-append b.max_bytes b.max_events history _;
        counted = refl;
        flagged = exceeds-retain-append b.max_bytes b.max_events history _;
      })

-- What a run of `Capture` on `input` has done: it added the events `new`.
pub record Captured (history : List OutputEvent) (b b' : OutputBuffer) (stream : String) (at : ℕ)
    (input : List ℕ) : Type 0 where
  pub new : List OutputEvent
  pub reflects : Reflects (history ++ new) b'
  pub complete : content new ≡ input
  pub chunks : Chunks b.max_bytes b.next_sequence stream at new
  pub numbered : b'.next_sequence ≡ next_after b.next_sequence new
  pub same_bytes : b'.max_bytes ≡ b.max_bytes
  pub same_events : b'.max_events ≡ b.max_events

capture_loop-nil :
    (history : List OutputEvent) (b : OutputBuffer) (stream : String) (at : ℕ)
    → Reflects history b
    → Captured history b b stream at []
capture_loop-nil history b stream at r = record {
  new = [];
  reflects = rw (append-nil history) r;
  complete = refl;
  chunks = tt;
  numbered = refl;
  same_bytes = refl;
  same_events = refl;
}

-- One chunk in front of the rest.
capture_loop-cons :
    (history : List OutputEvent) (b b'' : OutputBuffer) (stream : String) (at n : ℕ)
    (input : List ℕ)
    → Reflects history b
    → 0 < length (take n input)
    → length (take n input) ≤ b.max_bytes
    → Captured
        (history ++ event_of b stream at (take n input) ∷ [])
        (append_chunk b stream at (take n input))
        b''
        stream
        at
        (drop n input)
    → Captured history b b'' stream at input
capture_loop-cons history b b'' stream at n input r some_byte fits rest =
    let eq = append_chunk-eq b stream at (take n input) r.counted in
    let sizes : (append_chunk b stream at (take n input)).max_bytes ≡ b.max_bytes = rw eq in
    let counts : (append_chunk b stream at (take n input)).max_events ≡ b.max_events = rw eq in
    let next : (append_chunk b stream at (take n input)).next_sequence ≡ u64 (b.next_sequence + 1) =
      rw eq in
    record {
      new = event_of b stream at (take n input) ∷ rest.new;
      reflects = rw append_assoc at rest.reflects;
      complete = rw rest.complete (take-append-drop n input);
      chunks = (refl, refl, refl, some_byte, fits, rw (sizes, next) at rest.chunks);
      numbered = rw next at rest.numbered;
      same_bytes = rest.same_bytes ∙ sizes;
      same_events = rest.same_events ∙ counts;
    }

capture_loop-Captured :
    (fuel : ℕ) (history : List OutputEvent) (b : OutputBuffer) (stream : String) (at : ℕ)
    (input : List ℕ)
    → length input ≤ fuel
    → Reflects history b
    → Captured history b (capture_loop fuel b stream at input) stream at input
unfolding capture_loop
capture_loop-Captured fuel history b stream at [] h r = capture_loop-nil history b stream at r
capture_loop-Captured zero history b stream at (x ∷ xs) h r = absurd (omega arith)
capture_loop-Captured (suc fuel) history b stream at (x ∷ xs) h r =
    let n = min (length (x ∷ xs)) b.max_bytes in
    let event = event_of b stream at (take n (x ∷ xs)) in
    let b' = append_chunk b stream at (take n (x ∷ xs)) in
    capture_loop-cons history b _ stream at n (x ∷ xs) r
      (omega (arith, length-take n (x ∷ xs), r.has_room)) (omega (arith, length-take n (x ∷ xs)))
      (capture_loop-Captured fuel (history ++ event ∷ []) b' stream at (drop n (x ∷ xs))
        (omega (arith, length-drop n (x ∷ xs), r.has_room))
        (append_chunk-Reflects history b stream at (take n (x ∷ xs)) r))

-- On a stream of the process and a buffer that reflects a history, `Capture` succeeds and adds its
-- input to the history, cut into chunks of at most `max_bytes` and at least one byte, numbered in
-- order; the buffer then holds the longest tail of the longer history that the two limits allow,
-- knows its exact size, and is flagged as truncated exactly when that tail is not the whole history.
pub capture-Captured :
    (history : List OutputEvent) (b : OutputBuffer) (stream : String) (input : List ℕ) (at : ℕ)
    → is_stream stream ≡ true
    → Reflects history b
    → ((capture b stream input at).1 ≡ none)
      × Captured history b (capture b stream input at).0 stream at input
unfolding capture
capture-Captured history b stream input at h r =
    rw h (refl, capture_loop-Captured (length input) history b stream at input (omega arith) r)

-- What a buffer holds after a history: an end of it, within both limits, and as long as any end
-- of it that is within them.
pub Reflects-bounds :
    (older newer : List OutputEvent) (b : OutputBuffer)
    → Reflects (older ++ newer) b
    → (b.bytes ≤ b.max_bytes)
      × (length b.events ≤ b.max_events)
      × ((dropped : List OutputEvent) × (older ++ newer ≡ dropped ++ b.events))
      × (exceeds b.max_bytes b.max_events newer ≡ false → length newer ≤ length b.events)
Reflects-bounds older newer b r =
    let fits = exceeds-retain b.max_bytes b.max_events (older ++ newer) in
    (
      ground (arith, fits, r),
      ground (arith, fits, r),
      rw r.kept (retain-suffix b.max_bytes b.max_events (older ++ newer)),
      λ h. rw r.kept (retain-longest b.max_bytes b.max_events older newer h),
    )
