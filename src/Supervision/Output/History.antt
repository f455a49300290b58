-- ===== src/Supervision/Output/History.antt =====
-- Any number of captures, from a new buffer on.
use mathlib.Core.List.{append-nil, append_assoc}
use dovik.Prelude.{
  ℕ, ℤ, pos, suc, ◌+◌, ◌^◌, ◌≤◌, ◌<◌, length, ◌≡◌, refl, sym, ◌∙◌, String, false, inl, inr, some,
  List, [], ◌∷◌, ◌++◌, Bool-cases, if◌then◌else◌, arith,
}
use dovik.Supervision.Output.{
  OutputEvent, OutputBuffer, u64, ok, new_output_buffer, capture, is_stream, invalid_stream,
}
use dovik.Supervision.Output.Retention.{retain, exceeds}
use dovik.Supervision.Output.Capture.{content, Reflects, Chunks, next_after, capture-Captured}
use dovik.Supervision.Output.Paging.{Rising}

-- A call of `Capture`: a stream, its input and the time.
abbrev pub Call : Type 0
Call = String × List ℕ × ℕ

abbrev pub captures : OutputBuffer → List Call → OutputBuffer
captures b [] = b
captures b ((stream, input, at) ∷ calls) = captures (capture b stream input at).0 calls

-- the input of the calls on one of the two streams
abbrev pub accepted : List Call → List ℕ
accepted [] = []
accepted ((stream, input, at) ∷ calls) = (if is_stream stream then input else []) ++ accepted calls

pub content-append : (xs ys : List OutputEvent) → content (xs ++ ys) ≡ content xs ++ content ys
content-append [] ys = refl
content-append (x ∷ xs) ys = rw (content-append xs ys) (sym (append_assoc x.data_bytes _ _))

pub capture_rejects :
    (b : OutputBuffer) (stream : String) (input : List ℕ) (at : ℕ)
    → is_stream stream ≡ false
    → capture b stream input at ≡ (b, some invalid_stream)
unfolding capture
capture_rejects b stream input at h = rw h

-- numbered from `n` on, modulo 2^64
abbrev pub Numbered : ℕ → List OutputEvent → Type 0
Numbered n [] = Unit {0}
Numbered n (event ∷ rest) = (event.sequence ≡ n) × Numbered (u64 (n + 1)) rest

Chunks-Numbered :
    (max_bytes n : ℕ) (stream : String) (at : ℕ) (events : List OutputEvent)
    → Chunks max_bytes n stream at events
    → Numbered n events
Chunks-Numbered max_bytes n stream at [] c = tt
Chunks-Numbered max_bytes n stream at (event ∷ rest) c =
    (c.0, Chunks-Numbered max_bytes (u64 (n + 1)) stream at rest c.5)

Numbered-append :
    (n : ℕ) (xs ys : List OutputEvent)
    → Numbered n xs
    → Numbered (next_after n xs) ys
    → Numbered n (xs ++ ys)
Numbered-append n [] ys hx hy = hy
Numbered-append n (x ∷ xs) ys hx hy = (hx.0, Numbered-append (u64 (n + 1)) xs ys hx.1 hy)

pub captures-Reflects :
    (history : List OutputEvent) (b : OutputBuffer) (calls : List Call)
    → Reflects history b
    → (later : List OutputEvent) × Reflects (history ++ later) (captures b calls)
      × (content later ≡ accepted calls)
      × Numbered b.next_sequence later
captures-Reflects history b [] r = ([], rw append-nil r, refl, tt)
captures-Reflects history b ((stream, input, at) ∷ calls) r = elim (Bool-cases (is_stream stream)) [
  | inl good ↦
      let c = (capture-Captured history b stream input at good r).1 in
      let rest = captures-Reflects (history ++ c.new) _ calls c.reflects in
      (
        c.new ++ rest.0,
        rw append_assoc at rest.1,
        content-append c.new rest.0 ∙ rw (c.complete, rest.2, good) refl,
        Numbered-append b.next_sequence c.new rest.0 (Chunks-Numbered _ _ _ _ c.new c.chunks)
            (rw c.numbered at rest.3),
      )
  | inr bad ↦ rw (bad, capture_rejects b stream input at bad) (captures-Reflects history b calls r)
]

pub new_output_buffer-Reflects :
    (max_bytes max_events : ℤ) (b : OutputBuffer)
    → new_output_buffer max_bytes max_events ≡ ok b
    → Reflects [] b
unfolding new_output_buffer retain
new_output_buffer-Reflects (pos (suc m)) (pos (suc e)) b h = ground arith
new_output_buffer-Reflects max_bytes max_events b h = cc

new_output_buffer-first :
    (max_bytes max_events : ℤ) (b : OutputBuffer)
    → new_output_buffer max_bytes max_events ≡ ok b
    → b.next_sequence ≡ 1
unfolding new_output_buffer
new_output_buffer-first (pos (suc m)) (pos (suc e)) b h = ground arith
new_output_buffer-first max_bytes max_events b h = cc

-- Whatever is written to a new buffer, in any order and to any streams, there is one history of
-- events, numbered from 1 on, that holds exactly the bytes written to stdout and stderr, in order,
-- and the buffer reflects it.
pub captures_lem :
    (max_bytes max_events : ℤ) (b : OutputBuffer) (calls : List Call)
    → new_output_buffer max_bytes max_events ≡ ok b
    → (history : List OutputEvent) × Reflects history (captures b calls)
      × (content history ≡ accepted calls)
      × Numbered 1 history
captures_lem max_bytes max_events b calls h =
    let (history, r, c, n) =
      captures-Reflects [] b calls (new_output_buffer-Reflects max_bytes max_events b h) in
    (history, r, c, rw (new_output_buffer-first max_bytes max_events b h) at n)

Numbered-Rising :
    (m n : ℕ) (events : List OutputEvent)
    → m < n
    → n + length events < 2 ^ 64
    → Numbered n events
    → Rising m events
Numbered-Rising m n [] h k c = tt
Numbered-Rising m n (event ∷ rest) h k c =
    let next : u64 (n + 1) ≡ n + 1 = omega arith in
    (
      omega (arith, c.0),
      rw c.0 (Numbered-Rising n (n + 1) rest (omega arith) (omega arith) (rw next at c.1)),
    )

Rising-mono : (m n : ℕ) (events : List OutputEvent) → m ≤ n → Rising n events → Rising m events
Rising-mono m n [] h r = tt
Rising-mono m n (event ∷ rest) h r = (omega (arith, r.0), r.1)

retain-Rising :
    (b e n : ℕ) (events : List OutputEvent) → Rising n events → Rising n (retain b e events)
unfolding retain
retain-Rising b e n [] r = tt
retain-Rising b e n (event ∷ rest) r = elim (Bool-cases (exceeds b e (event ∷ rest))) [
  | inl over ↦
      rw over
        (retain-Rising b e n rest (Rising-mono n event.sequence rest (omega (arith, r.0)) r.1))
  | inr fits ↦ rw fits r
]

-- The events of a buffer that reflects a history numbered from 1 have rising numbers above 0, as
-- long as no more than 2^64 - 2 events were ever captured.
pub captured-Rising :
    (history : List OutputEvent) (b : OutputBuffer)
    → Reflects history b
    → Numbered 1 history
    → length history + 1 < 2 ^ 64
    → Rising 0 b.events
captured-Rising history b r n h = rw r.kept (
    retain-Rising b.max_bytes b.max_events 0 history
      (Numbered-Rising 0 1 history (omega arith) (omega arith) n))
