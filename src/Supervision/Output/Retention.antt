-- ===== src/Supervision/Output/Retention.antt =====
-- What the buffer keeps, against a reference: the longest tail of the history within the limits.
use dovik.Prelude.{
  ap, ℕ, ◌+◌, ◌-◌, ◌≤◌, ◌≡◌, refl, Bool, true, false, ◌||◌, inl, inr, List, [], ◌∷◌, ◌++◌, length,
  length-append, ltb, Bool-cases, if◌then◌else◌, arith,
}
use dovik.Supervision.Output.{OutputEvent, OutputBuffer, enforce_events}

-- the bytes of a list of events
abbrev pub total : List OutputEvent → ℕ
total [] = 0
total (event ∷ rest) = length event.data_bytes + total rest

pub total-append : (xs ys : List OutputEvent) → total (xs ++ ys) ≡ total xs + total ys
total-append [] ys = omega arith
total-append (x ∷ xs) ys = omega (arith, total-append xs ys)

-- more events or bytes than the limits allow
abbrev pub exceeds : ℕ → ℕ → List OutputEvent → Bool
exceeds max_bytes max_events events = ltb max_events (length events) || ltb max_bytes (total events)

-- The reference: drop the oldest event until the rest fits.
unfoldable pub retain : ℕ → ℕ → List OutputEvent → List OutputEvent
retain max_bytes max_events [] = []
retain max_bytes max_events (event ∷ rest) =
    let shorter = retain max_bytes max_events rest in
    if exceeds max_bytes max_events (event ∷ rest) then shorter else event ∷ rest

module _ (b e : ℕ) where
  exceeds-append :
      (xs ys : List OutputEvent) → exceeds b e xs ≡ true → exceeds b e (xs ++ ys) ≡ true
  exceeds-append xs ys h = ground (arith, total-append xs ys, length-append xs ys)

  pub retain-fits : (xs : List OutputEvent) → exceeds b e xs ≡ false → retain b e xs ≡ xs
  unfolding retain
  retain-fits [] h = refl
  retain-fits (x ∷ xs) h = rw h

  retain-over :
      (x : OutputEvent) (xs : List OutputEvent)
      → exceeds b e (x ∷ xs) ≡ true
      → retain b e (x ∷ xs) ≡ retain b e xs
  unfolding retain
  retain-over x xs h = rw h

  pub exceeds-retain : (xs : List OutputEvent) → exceeds b e (retain b e xs) ≡ false
  unfolding retain
  exceeds-retain [] = ground arith
  exceeds-retain (x ∷ xs) = elim (Bool-cases (exceeds b e (x ∷ xs))) [
    | inl over ↦ rw over (exceeds-retain xs)
    | inr fits ↦ rw fits fits
  ]

  -- Retaining as one goes is retaining at the end.
  pub retain-append :
      (xs ys : List OutputEvent) → retain b e (retain b e xs ++ ys) ≡ retain b e (xs ++ ys)
  retain-append [] ys = rw (retain-fits [] (ground arith))
  retain-append (x ∷ xs) ys = elim (Bool-cases (exceeds b e (x ∷ xs))) [
    | inl over ↦
        rw (retain-over x xs over, retain-over x (xs ++ ys) (exceeds-append (x ∷ xs) ys over))
          (retain-append xs ys)
    | inr fits ↦ rw (retain-fits (x ∷ xs) fits)
  ]

  pub exceeds-retain-append :
      (xs ys : List OutputEvent)
      → (if exceeds b e (retain b e xs ++ ys) then true else exceeds b e xs)
        ≡ exceeds b e (xs ++ ys)
  exceeds-retain-append xs ys = elim (Bool-cases (exceeds b e xs)) [
    | inl over ↦ rw (exceeds-append xs ys over) (ground arith)
    | inr fits ↦ rw (retain-fits xs fits, fits) (ground arith)
  ]

  -- What is retained is an end of the list.
  pub retain-suffix :
      (xs : List OutputEvent) → (dropped : List OutputEvent) × (xs ≡ dropped ++ retain b e xs)
  unfolding retain
  retain-suffix [] = ([], refl)
  retain-suffix (x ∷ xs) = elim (Bool-cases (exceeds b e (x ∷ xs))) [
    | inl over ↦ rw over (x ∷ (retain-suffix xs).0, ap (◌∷◌ x) (retain-suffix xs).1)
    | inr fits ↦ rw fits ([], refl)
  ]

  -- Nothing longer fits: the reference gives back any tail that does, within its own result.
  pub retain-longest :
      (xs ys : List OutputEvent)
      → exceeds b e ys ≡ false
      → length ys ≤ length (retain b e (xs ++ ys))
  unfolding retain
  retain-longest [] ys h = rw (retain-fits ys h) (omega arith)
  retain-longest (x ∷ xs) ys h = elim (Bool-cases (exceeds b e (x ∷ xs ++ ys))) [
    | inl over ↦ rw over (retain-longest xs ys h)
    | inr fits ↦ rw fits (omega (arith, length-append xs ys))
  ]

-- If the byte count of the buffer is that of its events, `enforceLimits` computes the reference,
-- keeps the byte count exact, marks the buffer truncated exactly when it drops something, and leaves
-- the rest alone.
pub enforce_events-eq-retain :
    (buffer : OutputBuffer) (xs : List OutputEvent)
    → buffer.bytes ≡ total xs
    → let kept = retain buffer.max_bytes buffer.max_events xs in
      enforce_events buffer xs ≡ record buffer {
        events = kept;
        bytes = total kept;
        truncated =
            (if exceeds buffer.max_bytes buffer.max_events xs then true else buffer.truncated);
      }
unfolding enforce_events retain
enforce_events-eq-retain buffer [] h = ground arith
enforce_events-eq-retain buffer (x ∷ xs) h = ground (
  arith,
  enforce_events-eq-retain
      (record buffer { bytes = buffer.bytes - length x.data_bytes; truncated = true }) xs,
)
