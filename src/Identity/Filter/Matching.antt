-- ===== src/Identity/Filter/Matching.antt =====
-- Where a secret stands in a text that may go on.
use dovik.Prelude.{
  ℕ, zero, suc, ◌+◌, ◌-◌, ◌≤◌, ◌<◌, ◌≡◌, refl, ap, ◌∙◌, true, false, none, some, Option-cases,
  Bool-cases, inl, inr, [], ◌∷◌, ◌++◌, length, take, drop, arith,
}
use dovik.Identity.Filter.{Bytes, has_prefix, index_of, mark}

-- The reference: from left to right, a secret gives the mark and is passed over; `skip` counts the
-- bytes of the last secret that are still to be passed over.
unfoldable pub redact_from : Bytes → ℕ → Bytes → Bytes
unfolding has_prefix
redact_from secret skip [] = []
redact_from secret (suc skip) (x ∷ xs) = redact_from secret skip xs
redact_from secret zero (x ∷ xs) = elim (has_prefix secret (x ∷ xs)) [
  | true ↦ mark ++ redact_from secret (length secret - 1) xs
  | false ↦ x ∷ redact_from secret zero xs
]

pub has_prefix-append :
    (s p t : Bytes) → length s ≤ length p → has_prefix s (p ++ t) ≡ has_prefix s p
unfolding has_prefix
has_prefix-append [] p t h = refl
has_prefix-append (c ∷ s) [] t h = absurd (omega arith)
has_prefix-append (c ∷ s) (x ∷ p) t h = rw (has_prefix-append s p t (omega arith)) refl

pub has_prefix-length : (s p : Bytes) → has_prefix s p ≡ true → length s ≤ length p
unfolding has_prefix
has_prefix-length [] p h = omega arith
has_prefix-length (c ∷ s) [] h = absurd (cc h)
has_prefix-length (c ∷ s) (x ∷ p) h = ground (arith, h, has_prefix-length s p)

redact_from-skip : (s : Bytes) (k : ℕ) (t : Bytes) → redact_from s k t ≡ redact_from s 0 (drop k t)
unfolding redact_from
redact_from-skip s zero t = refl
redact_from-skip s (suc k) [] = refl
redact_from-skip s (suc k) (x ∷ t) = redact_from-skip s k t

drop-append : (n : ℕ) (p t : Bytes) → n ≤ length p → drop n (p ++ t) ≡ drop n p ++ t
drop-append zero p t h = refl
drop-append (suc n) [] t h = absurd (omega arith)
drop-append (suc n) (x ∷ p) t h = drop-append n p t (omega arith)

-- A match lies within the text.
pub index_of-length : (s p : Bytes) (m : ℕ) → index_of s p ≡ some m → m + length s ≤ length p
unfolding index_of
index_of-length s [] m i = elim (Bool-cases (has_prefix s [])) [
  | inl hit ↦ ground (arith, i, hit, has_prefix-length s [])
  | inr miss ↦ absurd (ground (arith, i, miss))
]
index_of-length s (x ∷ p) m i = elim (Bool-cases (has_prefix s (x ∷ p))) [
  | inl hit ↦ ground (arith, i, hit, has_prefix-length s (x ∷ p))
  | inr miss ↦ elim (Option-cases (index_of s p)) [
    | inl e ↦ absurd (ground (arith, i, miss, e))
    | inr (n, e) ↦ ground (arith, i, miss, e, index_of-length s p n e)
  ]
]

redact_from-hit :
    (c : ℕ) (s : Bytes) (x : ℕ) (p t : Bytes)
    → has_prefix (c ∷ s) (x ∷ p) ≡ true
    → redact_from (c ∷ s) 0 (x ∷ (p ++ t)) ≡ mark ++ redact_from (c ∷ s) 0 (drop (length s) p ++ t)
unfolding redact_from
redact_from-hit c s x p t hit =
    let long = has_prefix-length (c ∷ s) (x ∷ p) hit in
    let rest : suc (length s) - 1 ≡ length s = omega arith in
    rw (has_prefix-append (c ∷ s) (x ∷ p) t long, hit, rest, redact_from)
      (ap (◌++◌ mark) (
        redact_from-skip (c ∷ s) (length s) (p ++ t)
        ∙ ap (redact_from (c ∷ s) 0) (drop-append (length s) p t (omega arith))))

redact_from-copy :
    (s : Bytes) (x : ℕ) (p t : Bytes)
    → length s ≤ suc (length p)
    → has_prefix s (x ∷ p) ≡ false
    → redact_from s 0 (x ∷ (p ++ t)) ≡ x ∷ redact_from s 0 (p ++ t)
unfolding redact_from
redact_from-copy s x p t long miss =
    rw (has_prefix-append s (x ∷ p) t (omega arith), miss, redact_from) refl

-- Before its first match a text is copied, and the match gives the mark, whatever follows.
pub redact_from-match :
    (c : ℕ) (s p t : Bytes) (m : ℕ)
    → index_of (c ∷ s) p ≡ some m
    → redact_from (c ∷ s) 0 (p ++ t)
      ≡ take m p ++ (mark ++ redact_from (c ∷ s) 0 (drop (m + suc (length s)) p ++ t))
unfolding index_of
redact_from-match c s [] t m i = absurd (omega (arith, index_of-length (c ∷ s) [] m i))
redact_from-match c s (x ∷ p) t m i = elim (Bool-cases (has_prefix (c ∷ s) (x ∷ p))) [
  | inl hit ↦
      let first : m ≡ 0 = ground (arith, i, hit) in
      let here : 0 + suc (length s) ≡ suc (length s) = omega arith in
      rw (first, here) (redact_from-hit c s x p t hit)
  | inr miss ↦ elim (Option-cases (index_of (c ∷ s) p)) [
    | inl e ↦ absurd (ground (arith, i, miss, e))
    | inr (n, e) ↦
        let next : m ≡ suc n = ground (arith, i, miss, e) in
        let long = index_of-length (c ∷ s) p n e in
        let later : suc n + suc (length s) ≡ suc (n + suc (length s)) = omega arith in
        rw (next, later)
          (redact_from-copy (c ∷ s) x p t (omega arith) miss
            ∙ ap (◌∷◌ x) (redact_from-match c s p t n e))
  ]
]

-- A text without a match is copied up to where the secret might still begin.
pub redact_from-miss :
    (s p t : Bytes) (count : ℕ)
    → count + length s ≤ suc (length p)
    → 0 < length s
    → index_of s p ≡ none
    → redact_from s 0 (p ++ t) ≡ take count p ++ redact_from s 0 (drop count p ++ t)
unfolding index_of
redact_from-miss s p t zero h pos_s i = refl
redact_from-miss s [] t (suc count) h pos_s i = absurd (omega arith)
redact_from-miss s (x ∷ p) t (suc count) h pos_s i = elim (Bool-cases (has_prefix s (x ∷ p))) [
  | inl hit ↦ absurd (ground (arith, i, hit))
  | inr miss ↦
      redact_from-copy s x p t (omega arith) miss
      ∙ ap (◌∷◌ x) (redact_from-miss s p t count (omega arith) pos_s (ground (arith, i, miss)))
]

-- A text that is shorter than the secret is copied.
pub redact_from-short : (s p : Bytes) → length p < length s → redact_from s 0 p ≡ p
unfolding redact_from
redact_from-short s [] h = refl
redact_from-short s (x ∷ p) h = elim (Bool-cases (has_prefix s (x ∷ p))) [
  | inl hit ↦ absurd (omega (arith, has_prefix-length s (x ∷ p) hit))
  | inr miss ↦ rw (miss, redact_from) (ap (◌∷◌ x) (redact_from-short s p (omega arith)))
]
