-- ===== src/Operator/Limits.antt =====
-- The logs tool keeps the limit of a request to the daemon in range.
use dovik.Prelude.{
  ℕ, ℤ, pos, negsuc, ◌≤◌, ◌≡◌, refl, String, false, Option, some, Option-cases, Bool-cases, ◌⊎◌,
  inl, inr, arith,
}
use dovik.Operator.{
  Client, InputError, invalid, limit_out_of_range, validate_ids, asked_limit, is_bad_limit,
  logs_tool,
}

good_limit :
    (limit : ℤ) → is_bad_limit limit ≡ false → (n : ℕ) × (limit ≡ pos n) × (1 ≤ n) × (n ≤ 1000)
good_limit (pos n) h = (n, refl, ground (arith, h), ground (arith, h))
good_limit (negsuc n) h = absurd (cc h)

-- The logs tool refuses its input itself, or it returns what the daemon's client answers to a
-- request for between 1 and 1000 events.
pub logs_tool_lem :
    (client : Client) (project_id process_id : String) (after : ℕ) (limit : Option ℤ)
    → ((e : InputError) × ((logs_tool client project_id process_id after limit).1
          ≡ some (invalid e)))
      ⊎ ((n : ℕ) × (logs_tool client project_id process_id after limit
            ≡ client.logs project_id process_id after (pos n))
          × (1 ≤ n)
          × (n ≤ 1000))
unfolding logs_tool
logs_tool_lem client project_id process_id after limit =
    elim (Option-cases (validate_ids project_id process_id)) [
      | inr (e, p) ↦ inl (e, rw (p, logs_tool) refl)
      | inl p ↦ elim (Bool-cases (is_bad_limit (asked_limit limit))) [
        | inl bad ↦ inl (limit_out_of_range, rw (p, bad, logs_tool) refl)
        | inr good ↦
            let (n, same, low, high) = good_limit (asked_limit limit) good in
            inr (n, rw (p, good, logs_tool) (rw same refl), low, high)
      ]
    ]
