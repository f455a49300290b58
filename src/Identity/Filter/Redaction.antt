-- ===== src/Identity/Filter/Redaction.antt =====
-- What comes out of the filter does not depend on how the text was cut, and has the secret redacted.
use mathlib.Core.List.{append-nil, append_assoc}
use dovik.Prelude.{
  ℕ, zero, suc, ◌+◌, ◌-◌, ◌≤◌, ◌<◌, ◌≡◌, refl, sym, ap, ◌∙◌, false, Option, none, some,
  Option-cases, Bool-cases, inl, inr, List, [], ◌∷◌, ◌++◌, length, take, drop, length-drop, ltb,
  arith,
}
use dovik.Identity.Filter.{
  Bytes, WriteError, index_of, mark, SecretFilter, new_secret_filter, put_before, filter_round,
  filter_loop, filter_write, copy_output, flush,
}
use dovik.Identity.Filter.Matching.{
  redact_from, index_of-length, redact_from-match, redact_from-miss, redact_from-short,
}

-- a writer that takes everything
abbrev pub collect : Bytes → Bytes → Bytes × Option WriteError
collect out p = (out ++ p, none)

-- the reference
abbrev pub redact : Bytes → Bytes → Bytes
redact secret text = redact_from secret 0 text

-- Two states of the filter that lead to the same output, whatever text follows.
record Leads (f f' : SecretFilter Bytes) : Type 0 where
  same : f'.secret ≡ f.secret
  output :
      (t : Bytes)
      → f.writer ++ redact f.secret (f.pending ++ t)
        ≡ f'.writer ++ redact f.secret (f'.pending ++ t)

Leads-trans : (f g h : SecretFilter Bytes) → Leads f g → Leads g h → Leads f h
Leads-trans f g h a b = record {
  same = b.same ∙ a.same;
  output = λ t. a.output t ∙ (let e = b.output t in rw a.same at e);
}

put_before-collect : (out p : Bytes) → put_before collect out p ≡ (out ++ p, none)
unfolding put_before
put_before-collect out [] = rw append-nil refl
put_before-collect out (x ∷ p) = refl

-- What a round leaves: more written, less pending, and the same output in the end.
abbrev Rounded : ℕ → Bytes → Bytes → Bytes → Type 0
Rounded c s out pending =
    (out' rest : Bytes) × (filter_round collect
        (record { writer = out; secret = c ∷ s; pending = pending })
      ≡ (record { writer = out'; secret = c ∷ s; pending = rest }, none))
    × (length rest < length pending)
    × Leads (record { writer = out; secret = c ∷ s; pending = pending })
        (record { writer = out'; secret = c ∷ s; pending = rest })

-- What the loop leaves on so much fuel: less pending than a secret.
abbrev Looped : ℕ → ℕ → Bytes → Bytes → Bytes → Type 0
Looped fuel c s out pending =
    (out' rest : Bytes) × (filter_loop collect fuel
        (record { writer = out; secret = c ∷ s; pending = pending })
      ≡ some (record { writer = out'; secret = c ∷ s; pending = rest }, none))
    × (length rest < length (c ∷ s))
    × Leads (record { writer = out; secret = c ∷ s; pending = pending })
        (record { writer = out'; secret = c ∷ s; pending = rest })

round_lem :
    (c : ℕ) (s out pending : Bytes) → length (c ∷ s) ≤ length pending → Rounded c s out pending
unfolding filter_round
round_lem c s out pending long = elim (Option-cases (index_of (c ∷ s) pending)) [
  | inr (m, e) ↦ (
    (out ++ take m pending) ++ mark,
    drop (m + length (c ∷ s)) pending,
    rw (e, put_before-collect, filter_round) (rw put_before-collect refl),
    omega (arith, index_of-length (c ∷ s) pending m e, length-drop (m + length (c ∷ s)) pending),
    record {
      same = refl;
      output = λ t. rw (redact_from-match c s pending t m e) (simp append_assoc);
    },
  )
  | inl e ↦
      let count = length pending - length (c ∷ s) + 1 in
      (
        out ++ take count pending,
        drop count pending,
        rw (e, filter_round) refl,
        omega (arith, length-drop count pending),
        record {
          same = refl;
          output = λ t.
              rw (redact_from-miss (c ∷ s) pending t count (omega arith) (omega arith) e)
                (simp append_assoc);
        },
      )
]

loop_step :
    (fuel c : ℕ) (s out pending : Bytes)
    → ltb (length pending) (length (c ∷ s)) ≡ false
    → (r : Rounded c s out pending) → Looped fuel c s r.0 r.1
    → Looped (suc fuel) c s out pending
unfolding filter_loop
loop_step fuel c s out pending long (out1, rest1, e1, less, leads1)
      (out2, rest2, e2, short, leads2) =
    (out2, rest2, rw (long, e1, filter_loop) (rw e1 e2), short, Leads-trans _ _ _ leads1 leads2)

-- With fuel above the length of what is pending the loop ends.
loop_lem :
    (fuel c : ℕ) (s out pending : Bytes) → length pending < fuel → Looped fuel c s out pending
unfolding filter_loop
loop_lem zero c s out pending h = absurd (omega arith)
loop_lem (suc fuel) c s out pending h = elim (Bool-cases (ltb (length pending) (length (c ∷ s)))) [
  | inl short ↦ (
    out,
    pending,
    rw (short, filter_loop) refl,
    ground (arith, short),
    record { same = refl; output = λ t. refl },
  )
  | inr long ↦
      let r = round_lem c s out pending (ground (arith, long)) in
      loop_step fuel c s out pending long r (loop_lem fuel c s r.0 r.1 (omega (arith, r.3)))
]

abbrev pub join : List Bytes → Bytes
join [] = []
join (p ∷ ps) = p ++ join ps

abbrev Filtered : ℕ → Bytes → Bytes → Bytes → List Bytes → Type 0
Filtered c s out pending ps =
    (out' rest : Bytes) × (copy_output collect
        (record { writer = out; secret = c ∷ s; pending = pending }) ps
      ≡ some (record { writer = out'; secret = c ∷ s; pending = rest }, none))
    × (out ++ redact (c ∷ s) (pending ++ join ps) ≡ out' ++ rest)

Filtered-cons :
    (c : ℕ) (s out pending p : Bytes) (ps : List Bytes)
    → (r : Looped (suc (length (pending ++ p))) c s out (pending ++ p)) → Filtered c s r.0 r.1 ps
    → Filtered c s out pending (p ∷ ps)
unfolding copy_output filter_write
Filtered-cons c s out pending p ps (out1, rest1, e1, short, leads) (out2, rest2, e2, same) = (
  out2,
  rest2,
  rw (e1, filter_write, copy_output) e2,
  ap (λ (t : Bytes). out ++ redact (c ∷ s) t) (sym (append_assoc pending p (join ps)))
      ∙ (leads.output (join ps) ∙ same),
)

copy_output-Filtered :
    (c : ℕ) (s out pending : Bytes) (ps : List Bytes)
    → length pending < length (c ∷ s)
    → Filtered c s out pending ps
unfolding copy_output
copy_output-Filtered c s out pending [] h =
    (out, pending, refl, rw (append-nil, redact_from-short (c ∷ s) pending h) refl)
copy_output-Filtered c s out pending (p ∷ ps) h =
    let r = loop_lem (suc (length (pending ++ p))) c s out (pending ++ p) (omega arith) in
    Filtered-cons c s out pending p ps r (copy_output-Filtered c s r.0 r.1 ps r.3)

-- For a secret that is not empty, whatever is written and however it is cut into writes, every write
-- returns, and after the flush the writer has, behind what it had before, exactly the whole text
-- with every secret, from left to right, replaced by the mark.
pub copy_output-redacts :
    (secret out : Bytes) (chunks : List Bytes)
    → 0 < length secret
    → (f : SecretFilter Bytes) × (copy_output collect (new_secret_filter collect out secret) chunks
        ≡ some (f, none))
      × ((flush collect f).0.writer ≡ out ++ redact secret (join chunks))
unfolding flush
copy_output-redacts [] out chunks h = absurd (omega arith)
copy_output-redacts (c ∷ s) out chunks h =
    let (out', rest, e, same) = copy_output-Filtered c s out [] chunks (omega arith) in
    (record { writer = out'; secret = c ∷ s; pending = rest }, e, sym same)
