-- ===== src/Supervision/Output/Overflow.antt =====
-- Where `start+limit` of `Tail` leaves the range of an int.
use dovik.Prelude.{ℕ, pos, zero, suc, ◌+◌, ◌-◌, ◌^◌, ◌≤◌, ◌<◌, ◌≡◌, ◌↔◌, List, ◌∷◌, arith}
use dovik.Supervision.Output.{OutputEvent, OutputBuffer, err, panics, tail, tail_from, tail_start}

tail_from-panics :
    (b : OutputBuffer) (start n : ℕ) → (2 ^ 63 ≤ start + n) ↔ (tail_from b start n ≡ err panics)
unfolding tail_from
tail_from-panics b start n = ground arith

-- A tail request panics exactly when its limit is positive and the sum of the index of the first
-- event and the limit passes the largest int. No check of the limit but `limit <= 0` is made.
pub tail_panics :
    (b : OutputBuffer) (after n : ℕ)
    → (tail b after (pos n) ≡ err panics) ↔ ((0 < n) × (2 ^ 63 ≤ tail_start b after n + n))
unfolding tail tail_start
tail_panics b after zero = (λ h. cc, λ h. absurd (omega arith))
tail_panics b after (suc n) = (
  λ h. (omega arith, (tail_from-panics b (tail_start b after (suc n)) (suc n)).1 h),
  λ h. (tail_from-panics b (tail_start b after (suc n)) (suc n)).0 h.1,
)

tail_start-pos :
    (b : OutputBuffer) (event : OutputEvent) (rest : List OutputEvent) (after n : ℕ)
    → b.events ≡ event ∷ rest
    → 0 < after
    → event.sequence ≤ after
    → 0 < tail_start b after n
unfolding tail_start
tail_start-pos b event rest after n e p h = rw e (ground arith)

-- A client that has seen the oldest event that is still held and asks for as many more as an int
-- can count makes the request panic.
pub tail_crash :
    (b : OutputBuffer) (event : OutputEvent) (rest : List OutputEvent) (after : ℕ)
    → b.events ≡ event ∷ rest
    → 0 < after
    → event.sequence ≤ after
    → tail b after (pos (2 ^ 63 - 1)) ≡ err panics
tail_crash b event rest after e p h =
    (tail_panics b after (2 ^ 63 - 1)).1
      (omega arith, omega (arith, tail_start-pos b event rest after (2 ^ 63 - 1) e p h))
