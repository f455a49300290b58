-- ===== src/Supervision/Output/Keeping.antt =====
-- What a buffer of internal/supervision/output.go keeps of what was written to it.
use dovik.Prelude.{
  ℕ, pos, zero, suc, ◌≤◌, length, ◌≡◌, refl, sym, ap, ◌∙◌, false, inl, inr, List, [], ◌∷◌, ◌++◌,
  Bool-cases, arith,
}
use dovik.Supervision.Output.{OutputEvent, OutputBuffer, ok, new_output_buffer, is_stream}
use dovik.Supervision.Output.Retention.{total, retain-fits}
use dovik.Supervision.Output.Capture.{content, Reflects, capture-Captured, Reflects-bounds}
use dovik.Supervision.Output.History.{
  Call, captures, accepted, content-append, capture_rejects, captures-Reflects,
  new_output_buffer-Reflects,
}

captures-limits :
    (history : List OutputEvent) (b : OutputBuffer) (calls : List Call)
    → Reflects history b
    → ((captures b calls).max_bytes ≡ b.max_bytes) × ((captures b calls).max_events ≡ b.max_events)
captures-limits history b [] r = (refl, refl)
captures-limits history b ((stream, input, at) ∷ calls) r = elim (Bool-cases (is_stream stream)) [
  | inl good ↦
      let c = (capture-Captured history b stream input at good r).1 in
      let rest = captures-limits (history ++ c.new) _ calls c.reflects in
      (rest.0 ∙ c.same_bytes, rest.1 ∙ c.same_events)
  | inr bad ↦
      rw (capture_rejects b stream input at bad, captures) (captures-limits history b calls r)
]

made_with :
    (max_bytes max_events : ℕ) (b : OutputBuffer)
    → new_output_buffer (pos max_bytes) (pos max_events) ≡ ok b
    → (b.max_bytes ≡ max_bytes) × (b.max_events ≡ max_events)
unfolding new_output_buffer
made_with zero e b h = absurd (cc h)
made_with (suc n) zero b h = absurd (cc h)
made_with (suc n) (suc e) b h = ground (arith, h)

-- After any captures into a new buffer: its size is that of its events and within the limit of bytes,
-- their count is within the limit of events, their bytes are the end of all that was written to stdout
-- and stderr, and if the buffer is not flagged as truncated they are all of it.
pub captures-keeps :
    (max_bytes max_events : ℕ) (b : OutputBuffer) (calls : List Call)
    → new_output_buffer (pos max_bytes) (pos max_events) ≡ ok b
    → let b' = captures b calls in
      (b'.bytes ≡ total b'.events)
      × (b'.bytes ≤ max_bytes)
      × (length b'.events ≤ max_events)
      × ((dropped : List ℕ) × (accepted calls ≡ dropped ++ content b'.events))
      × (b'.truncated ≡ false → content b'.events ≡ accepted calls)
captures-keeps max_bytes max_events b calls made =
    let first = new_output_buffer-Reflects (pos max_bytes) (pos max_events) b made in
    let (history, r, all, numbered) = captures-Reflects [] b calls first in
    let limits = captures-limits [] b calls first in
    let start = made_with max_bytes max_events b made in
    let (bytes, events, (dropped, cut), longest) =
      Reflects-bounds [] history (captures b calls) r in
    (
      r.counted,
      omega (arith, bytes, limits.0 ∙ start.0),
      omega (arith, events, limits.1 ∙ start.1),
      (
        content dropped,
        sym all ∙ (ap content cut ∙ content-append dropped (captures b calls).events),
      ),
      λ whole. ap content (r.kept ∙ retain-fits _ _ history (sym r.flagged ∙ whole)) ∙ all,
    )
