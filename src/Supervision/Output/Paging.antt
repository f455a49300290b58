-- ===== src/Supervision/Output/Paging.antt =====
-- `Tail`: what a client reads, page by page, and where the sum of its arguments overflows.
use dovik.Prelude.{
  ℕ, pos, zero, suc, ◌+◌, ◌-◌, ◌^◌, ◌≤◌, ◌<◌, min, ◌≡◌, refl, sym, ap, ◌∙◌, false, inl, inr, List,
  [], ◌∷◌, ◌++◌, length, take, drop, length-drop, leb, leb→le, nat_beq, Bool-cases, if◌then◌else◌,
  arith,
}
use dovik.Supervision.Output.{
  OutputEvent, OutputBuffer, OutputTail, Result, ok, tail, tail_from, start_after,
}

-- sequence numbers that rise from event to event, all above `n`
abbrev pub Rising : ℕ → List OutputEvent → Type 0
Rising n [] = Unit {0}
Rising n (event ∷ rest) = (n < event.sequence) × Rising event.sequence rest

-- The reference: the retained events with a number above `after`.
unfoldable pub newer_than : ℕ → List OutputEvent → List OutputEvent
newer_than after [] = []
newer_than after (event ∷ rest) =
    let kept = newer_than after rest in if leb event.sequence after then kept else event ∷ kept

newer_than-Rising :
    (after n : ℕ) (events : List OutputEvent)
    → after ≤ n
    → Rising n events
    → newer_than after events ≡ events
unfolding newer_than
newer_than-Rising after n [] h r = refl
newer_than-Rising after n (event ∷ rest) h r =
    ground (arith, newer_than-Rising after event.sequence rest)

drop-start_after :
    (after n : ℕ) (events : List OutputEvent)
    → Rising n events
    → drop (start_after after events) events ≡ newer_than after events
unfolding start_after newer_than
drop-start_after after n [] r = refl
drop-start_after after n (event ∷ rest) r =
    ground (
      arith,
      drop-start_after after event.sequence rest,
      newer_than-Rising after event.sequence rest,
    )

start_after-le : (after : ℕ) (events : List OutputEvent) → start_after after events ≤ length events
unfolding start_after
start_after-le after [] = omega arith
start_after-le after (event ∷ rest) = ground (arith, start_after-le after rest)

take-all {ℓ} : {A : Type ℓ} (n : ℕ) (xs : List A) → length xs ≤ n → take n xs ≡ xs
take-all zero [] h = refl
take-all zero (x ∷ xs) h = absurd (omega arith)
take-all (suc n) [] h = refl
take-all (suc n) (x ∷ xs) h = ap (◌∷◌ x) (take-all n xs (omega arith))

take-min {ℓ} : {A : Type ℓ} (n : ℕ) (xs : List A) → take (min (length xs) n) xs ≡ take n xs
take-min n xs = elim (Bool-cases (leb n (length xs))) [
  | inl short ↦ let e : min (length xs) n ≡ n = omega (arith, leb→le n (length xs) short) in rw e
  | inr long ↦
      let h : length xs ≤ n = ground arith in
      let e : min (length xs) n ≡ length xs = omega arith in
      rw e (take-all (length xs) xs (omega arith) ∙ sym (take-all n xs h))
]

take-window {ℓ} :
    {A : Type ℓ} (n s : ℕ) (xs : List A)
    → take (min (length xs) (s + n) - s) (drop s xs) ≡ take n (drop s xs)
take-window n s xs =
    let size : min (length xs) (s + n) - s ≡ min (length (drop s xs)) n =
      omega (arith, length-drop s xs) in
    rw size (take-min n (drop s xs))

tail_from-lem :
    (b : OutputBuffer) (start n : ℕ)
    → start + n < 2 ^ 63
    → tail_from b start n
      ≡ ok (record { events = take n (drop start b.events); truncated = b.truncated })
unfolding tail_from
tail_from-lem b start n h = ground (arith, take-window n start b.events)

abbrev page : OutputBuffer → List OutputEvent → Result OutputTail
page b events = ok (record { events = events; truncated = b.truncated })

-- A request with sequence 0 for `n` events, with `n` above 0 and within an int, as the number of
-- retained events is, gets the newest `n`, or all if there are fewer.
pub tail_newest :
    (b : OutputBuffer) (n : ℕ)
    → 0 < n
    → n < 2 ^ 63
    → length b.events < 2 ^ 63
    → tail b 0 (pos n)
      ≡ ok (record { events = drop (length b.events - n) b.events; truncated = b.truncated })
unfolding tail
tail_newest b zero p h k = absurd (omega arith)
tail_newest b (suc n) p h k =
    tail_from-lem b (length b.events - suc n) (suc n) (omega arith)
    ∙ ap (page b)
        (take-all (suc n) _ (omega (arith, length-drop (length b.events - suc n) b.events)))

-- A request with a sequence above 0 for `n` events gets the first `n` retained events that are
-- newer, provided that the numbers of the retained events rise and that the index of the first of
-- them plus `n` does not overflow.
pub tail_after :
    (b : OutputBuffer) (after n : ℕ)
    → 0 < after
    → 0 < n
    → Rising 0 b.events
    → length b.events + n < 2 ^ 63
    → tail b after (pos n)
      ≡ ok (record { events = take n (newer_than after b.events); truncated = b.truncated })
unfolding tail
tail_after b after zero p q r h = absurd (omega arith)
tail_after b zero (suc n) p q r h = absurd (omega arith)
tail_after b (suc after) (suc n) p q r h =
    let positive : nat_beq (suc after) 0 ≡ false = ground arith in
    rw positive (
      tail_from-lem b (start_after (suc after) b.events) (suc n)
        (omega (arith, start_after-le (suc after) b.events))
      ∙ ap (λ es. page b (take (suc n) es)) (drop-start_after (suc after) 0 b.events r))

-- the number that a client asks after next
abbrev pub last_sequence : ℕ → List OutputEvent → ℕ
last_sequence after [] = after
last_sequence after (event ∷ rest) = last_sequence event.sequence rest

last_sequence-le :
    (n k : ℕ) (events : List OutputEvent) → Rising n events → n ≤ last_sequence n (take k events)
last_sequence-le n zero events r = omega arith
last_sequence-le n (suc k) [] r = omega arith
last_sequence-le n (suc k) (event ∷ rest) r =
    omega (arith, last_sequence-le event.sequence k rest r.1, r.0)

resume-Rising :
    (n k : ℕ) (events : List OutputEvent)
    → Rising n events
    → newer_than (last_sequence n (take k events)) events ≡ drop k events
unfolding newer_than
resume-Rising n zero events r = newer_than-Rising n n events (omega arith) r
resume-Rising n (suc k) [] r = refl
resume-Rising n (suc k) (event ∷ rest) r =
    ground
      (arith, last_sequence-le event.sequence k rest r.1, resume-Rising event.sequence k rest r.1)

Rising-newer_than :
    (n after : ℕ) (events : List OutputEvent)
    → Rising n events
    → Rising after (newer_than after events)
unfolding newer_than
Rising-newer_than n after [] r = tt
Rising-newer_than n after (event ∷ rest) r = elim (Bool-cases (leb event.sequence after)) [
  | inl old ↦ rw old (Rising-newer_than event.sequence after rest r.1)
  | inr new ↦
      rw (new, newer_than-Rising after event.sequence rest (ground arith) r.1) (ground arith, r.1)
]

resume_new :
    (after k : ℕ) (events : List OutputEvent)
    → Rising after events
    → newer_than (last_sequence after (take k (newer_than after events))) events
      ≡ drop k (newer_than after events)
resume_new after k events r =
    rw (newer_than-Rising after after events (omega arith) r) (resume-Rising after k events r)

resume_drop :
    (n after k : ℕ) (events : List OutputEvent)
    → Rising n events
    → newer_than (last_sequence after (take k (newer_than after events))) events
      ≡ drop k (newer_than after events)
unfolding newer_than
resume_drop n after zero [] r = refl
resume_drop n after (suc k) [] r = refl
resume_drop n after k (event ∷ rest) r = elim (Bool-cases (leb event.sequence after)) [
  | inl old ↦ ground (
    arith,
    last_sequence-le after k (newer_than after rest)
        (Rising-newer_than event.sequence after rest r.1),
    resume_drop event.sequence after k rest r.1,
  )
  | inr new ↦ resume_new after k (event ∷ rest) (ground arith, r.1)
]

take-add {ℓ} :
    {A : Type ℓ} (n k : ℕ) (xs : List A) → take n xs ++ take k (drop n xs) ≡ take (n + k) xs
take-add zero k xs = let e : zero + k ≡ k = omega arith in rw e refl
take-add (suc n) k [] = take-all k [] (omega arith) ∙ sym (take-all (suc n + k) [] (omega arith))
take-add (suc n) k (x ∷ xs) =
    let e : suc n + k ≡ suc (n + k) = omega arith in rw e (ap (◌∷◌ x) (take-add n k xs))

-- A client reads `n` events that are newer than `after`, and then `k` events that are newer than the
-- last of them. Provided that the numbers of the retained events rise and that their count plus `n + k`
-- does not overflow, both requests are served, and the two pages together are the page of one request
-- for `n + k` events: nothing is lost or repeated between them.
pub tail-resume :
    (b : OutputBuffer) (after n k : ℕ)
    → 0 < after
    → 0 < n
    → 0 < k
    → Rising 0 b.events
    → length b.events + (n + k) < 2 ^ 63
    → (first second : List OutputEvent) × (tail b after (pos n)
        ≡ ok (record { events = first; truncated = b.truncated }))
      × (tail b (last_sequence after first) (pos k)
          ≡ ok (record { events = second; truncated = b.truncated }))
      × (tail b after (pos (n + k))
          ≡ ok (record { events = first ++ second; truncated = b.truncated }))
tail-resume b after n k p q q' r h =
    let all = newer_than after b.events in
    let first = take n all in
    let next = last_sequence after first in
    let later : after ≤ next =
      last_sequence-le after n all (Rising-newer_than 0 after b.events r) in
    (
      first,
      take k (drop n all),
      tail_after b after n p q r (omega arith),
      tail_after b next k (omega arith) q' r (omega arith)
          ∙ ap (λ es. page b (take k es)) (resume_drop 0 after n b.events r),
      tail_after b after (n + k) p (omega arith) r h ∙ ap (page b) (sym (take-add n k all)),
    )
