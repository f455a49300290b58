-- ===== src/Identity/Policy.antt =====
-- What a policy allows.
use text.Mathlib.TextEquality.{eq_iff}
use dovik.Prelude.{
  ◌≡◌, refl, String, true, some, Bool-cases, inl, inr, [], lookup, ◌==◌, string_eq, arith,
}
use dovik.Identity.Model.{Policy, contains, preset_allows, allows}

-- Without an exception for it, no policy lets an agent choose its persona.
pub allows_persona :
    (policy : Policy)
    → allows policy "persona" ≡ true
    → lookup "persona" policy.exceptions ≡ some true
unfolding allows preset_allows contains
allows_persona policy h = ground arith

-- The presets grow: without exceptions, what "read-only" allows "collaborate" allows too, and what
-- "collaborate" allows "maintain" allows too.
pub presets_grow :
    (operation : String)
    → (allows (record { preset = "read-only"; exceptions = [] }) operation ≡ true
        → allows (record { preset = "collaborate"; exceptions = [] }) operation ≡ true)
      × (allows (record { preset = "collaborate"; exceptions = [] }) operation ≡ true
          → allows (record { preset = "maintain"; exceptions = [] }) operation ≡ true)
unfolding allows preset_allows contains lookup
presets_grow operation = (
  λ h. elim (Bool-cases (operation == "read")) [
    | inl p ↦ rw ((eq_iff operation "read").0 p) refl
    | inr q ↦ absurd (ground (arith, h, q))
  ],
  λ h. elim (Bool-cases (operation == "persona")) [
    | inl p ↦ let h' = rw ((eq_iff operation "persona").0 p) at h in absurd (cc h')
    | inr q ↦ ground (arith, h, q)
  ],
)
