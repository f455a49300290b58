-- ===== src/Tests/Outputs.antt =====
-- Captures into a buffer of four bytes and three events, and pages of it.
use dovik.Prelude.{
  ℕ, pos, drop, ◌+◌, ◌-◌, ◌≤◌, ◌^◌, ◌≡◌, refl, true, false, none, List, [], ◌∷◌, ◌++◌, length, take,
  if◌then◌else◌, arith,
}
use dovik.Supervision.Output.{
  OutputEvent, OutputBuffer, ok, err, panics, new_output_buffer, enforce_events, capture, is_stream,
  tail,
}
use dovik.Supervision.Output.Retention.{total, exceeds, retain, enforce_events-eq-retain}
use dovik.Supervision.Output.Capture.{content, Reflects, Captured, capture-Captured}
use dovik.Supervision.Output.History.{Call, captures, accepted, Numbered, captures_lem}
use dovik.Supervision.Output.Paging.{
  Rising, newer_than, last_sequence, tail_after, tail_newest, tail-resume,
}
use dovik.Supervision.Output.Keeping.{captures-keeps}
use dovik.Supervision.Output.Overflow.{tail_crash}

abbrev event : ℕ → List ℕ → OutputEvent
event n data_bytes = record {
  sequence = n;
  captured_at = 5;
  stream = "stdout";
  data_bytes = data_bytes;
}

abbrev empty : OutputBuffer
empty = record {
  max_bytes = 4;
  max_events = 3;
  bytes = 0;
  next_sequence = 1;
  events = [];
  truncated = false;
}

abbrev history : List OutputEvent
history = event 1 (1 ∷ 2 ∷ []) ∷ event 2 (3 ∷ 4 ∷ []) ∷ event 3 (5 ∷ 6 ∷ []) ∷ []

-- what is left of the history
abbrev recent : List OutputEvent
recent = event 2 (3 ∷ 4 ∷ []) ∷ event 3 (5 ∷ 6 ∷ []) ∷ []

abbrev full : OutputBuffer
full = record empty { bytes = 4; next_sequence = 4; events = recent; truncated = true }

full-Reflects : Reflects history full
unfolding retain
full-Reflects = record { has_room = omega arith; kept = refl; counted = refl; flagged = refl }

enforce_events-eq-retain_example :
    enforce_events (record full { bytes = 6 }) history ≡ record full {
      bytes = total (retain 4 3 history);
      events = retain 4 3 history;
      truncated = (if exceeds 4 3 history then true else true);
    }
enforce_events-eq-retain_example = enforce_events-eq-retain (record full { bytes = 6 }) history refl

stdout_is_stream : is_stream "stdout" ≡ true
unfolding is_stream
stdout_is_stream = refl

capture-Captured_example :
    ((capture full "stdout" (7 ∷ 8 ∷ 9 ∷ []) 6).1 ≡ none)
    × Captured history full (capture full "stdout" (7 ∷ 8 ∷ 9 ∷ []) 6).0 "stdout" 6 (7 ∷ 8 ∷ 9 ∷ [])
capture-Captured_example =
    capture-Captured history full "stdout" (7 ∷ 8 ∷ 9 ∷ []) 6 stdout_is_stream full-Reflects

abbrev calls : List Call
calls = ("stdout", 1 ∷ 2 ∷ 3 ∷ 4 ∷ 5 ∷ [], 1) ∷ ("stdin", 6 ∷ [], 2) ∷ ("stderr", 7 ∷ [], 3) ∷ []

empty-made : new_output_buffer (pos 4) (pos 3) ≡ ok empty
unfolding new_output_buffer
empty-made = refl

captures_lem_example :
    (events : List OutputEvent) × Reflects events (captures empty calls)
    × (content events ≡ accepted calls)
    × Numbered 1 events
captures_lem_example = captures_lem (pos 4) (pos 3) empty calls empty-made

captures-keeps_example :
    ((captures empty calls).bytes ≡ total (captures empty calls).events)
    × ((captures empty calls).bytes ≤ 4)
    × (length (captures empty calls).events ≤ 3)
    × ((dropped : List ℕ) × (accepted calls ≡ dropped ++ content (captures empty calls).events))
    × ((captures empty calls).truncated ≡ false
        → content (captures empty calls).events ≡ accepted calls)
captures-keeps_example = captures-keeps 4 3 empty calls empty-made

recent-Rising : Rising 0 recent
recent-Rising = (omega arith, (omega arith, tt))

tail_after_example :
    tail full 2 (pos 5) ≡ ok (record { events = take 5 (newer_than 2 recent); truncated = true })
tail_after_example = tail_after full 2 5 (omega arith) (omega arith) recent-Rising (omega arith)

tail-resume_example :
    (first second : List OutputEvent) × (tail full 1 (pos 1)
      ≡ ok (record { events = first; truncated = true }))
    × (tail full (last_sequence 1 first) (pos 1)
        ≡ ok (record { events = second; truncated = true }))
    × (tail full 1 (pos (1 + 1)) ≡ ok (record { events = first ++ second; truncated = true }))
tail-resume_example =
    tail-resume full 1 1 1 (omega arith) (omega arith) (omega arith) recent-Rising (omega arith)

tail_crash_example : tail full 2 (pos (2 ^ 63 - 1)) ≡ err panics
tail_crash_example =
    tail_crash full (event 2 (3 ∷ 4 ∷ [])) (event 3 (5 ∷ 6 ∷ []) ∷ []) 2 refl (omega arith)
      (omega arith)

tail_newest_example :
    tail full 0 (pos 1) ≡ ok (record { events = drop (length recent - 1) recent; truncated = true })
tail_newest_example = tail_newest full 1 (omega arith) (omega arith) (omega arith)
