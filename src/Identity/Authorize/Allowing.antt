-- ===== src/Identity/Authorize/Allowing.antt =====
-- The arguments that the loop of `Authorize` in internal/identity/catalog.go lets pass.
use text.Mathlib.TextEquality.{eq_iff}
use mathlib.Core.List.{Memᴰ}
use dovik.Prelude.{
  ℕ, ◌≤◌, Option-cases, split_on, sym, String, ◌≡◌, ◌≢◌, ap, Bool, true, false, not, ◌&&◌, ◌||◌,
  Option, none, some, Bool-cases, inl, inr, ◌⊎◌, List, [], ◌∷◌, ◌++◌, lookup, insert, is_some, ltb,
  ◌==◌, string_eq, ◌⧺◌, arith, if◌then◌else◌,
}
use dovik.Identity.Model.{Persona, Project, contains}
use dovik.Identity.Catalog.{
  is_number, is_workflow_name, starts_with, Parsed, Step, denies, goes_on, wants_value,
  positional_step, is_value_flag, is_boolean_flag, take_value, flag_step, of_taken, argument_step,
  cut, trim_prefix, long_name, argument_loop, same_repository, is_limit, decimal, unsigned,
}
use dovik.Identity.Commands.{CommandSpec, short_flags}

-- A flag that stands in the list of a catalogue entry, or, of a command that reads, asks for JSON.
abbrev pub HasValue : CommandSpec → String → Type 0
HasValue spec flag =
    Memᴰ flag (split_on b',' spec.values)
    ⊎ ((spec.permission ≡ "read") × Memᴰ flag ("json" ∷ "jq" ∷ "template" ∷ []))

-- a number from 1 to 1000
abbrev pub InLimit : String → Type 0
InLimit value = (n : ℕ) × (decimal 0 (unsigned value) ≡ some n) × (1 ≤ n) × (n ≤ 1000)

-- The arguments that the catalogue allows between the two words of a command and its repository: a
-- number or, for a workflow, a name; the flags that the command's entry lists, and values for those
-- that have one. No flag names another repository, and a body is read from no file but the input.
pub data Allowed (project : Project) (persona : Persona) (name : String) (spec : CommandSpec)
    : List String → Type 0 where
  start : Allowed project persona name spec []
  word :
      (out : List String) (arg : String)
      → Allowed project persona name spec out
      → spec.positional ≡ true
      → (((starts_with name "workflow " ≡ true) × (is_workflow_name arg ≡ true))
          ⊎ (is_number arg ≡ true))
      → Allowed project persona name spec (out ++ arg ∷ [])
  boolean :
      (out : List String) (flag : String)
      → Allowed project persona name spec out
      → Memᴰ flag (split_on b',' spec.booleans)
      → flag ≢ ""
      → Allowed project persona name spec (out ++ ("--" ⧺ flag) ∷ [])
  valued :
      (out : List String) (flag value : String)
      → Allowed project persona name spec out
      → HasValue spec flag
      → flag ≢ "repo"
      → (flag ≡ "body-file" → value ≡ "-")
      → (flag ≡ "limit" → InLimit value)
      → Allowed project persona name spec (out ++ ("--" ⧺ flag) ∷ value ∷ [])

is_limit-InLimit : (value : String) → is_limit value ≡ true → InLimit value
unfolding is_limit
is_limit-InLimit value h = elim (Option-cases (decimal 0 (unsigned value))) [
  | inl e ↦ absurd (ground (arith, e, h))
  | inr (n, e) ↦ (n, e, ground (arith, e, h), ground (arith, e, h))
]

contains-Memᴰ : (xs : List String) (x : String) → contains xs x ≡ true → Memᴰ x xs
unfolding contains
contains-Memᴰ [] x h = absurd (cc h)
contains-Memᴰ (y ∷ ys) x h = elim (Bool-cases (y == x)) [
  | inl e ↦ Memᴰ.head (sym ((eq_iff y x).0 e))
  | inr e ↦ Memᴰ.tail (contains-Memᴰ ys x (ground (arith, e, h)))
]

module _ (project : Project) (persona : Persona) (name : String) (spec : CommandSpec)
    (a b : String) where
  -- The output so far: the two words, and allowed arguments.
  pub record Grown (st : Parsed) : Type 0 where
    pub middle : List String
    pub output : st.output ≡ a ∷ b ∷ middle
    pub allowed : Allowed project persona name spec middle

  abbrev StepOk : Step → Type 0
  StepOk denies = Unit
  StepOk (goes_on st) = Grown st
  StepOk (wants_value flag) = is_value_flag project persona name spec flag ≡ true

  abbrev pub TakenOk : Option Parsed → Type 0
  TakenOk none = Unit
  TakenOk (some st) = Grown st

  either_name :
      (arg : String)
      → (if starts_with name "workflow " then is_workflow_name arg else is_number arg) ≡ true
      → ((starts_with name "workflow " ≡ true) × (is_workflow_name arg ≡ true))
        ⊎ (is_number arg ≡ true)
  either_name arg h = elim (Bool-cases (starts_with name "workflow ")) [
    | inl e ↦ inl (e, ground (arith, e, h))
    | inr e ↦ inr (ground (arith, e, h))
  ]

  value_flag-HasValue :
      (flag : String)
      → is_value_flag project persona name spec flag ≡ true
      → (flag == "repo") ≡ false
      → HasValue spec flag
  unfolding is_value_flag
  value_flag-HasValue flag h other = elim (Bool-cases (contains (split_on b',' spec.values) flag)) [
    | inl e ↦ inl (contains-Memᴰ (split_on b',' spec.values) flag e)
    | inr e ↦ inr (
      (eq_iff spec.permission "read").0 (ground (arith, e, other, h)),
      contains-Memᴰ ("json" ∷ "jq" ∷ "template" ∷ []) flag (ground (arith, e, other, h)),
    )
  ]

  positional_step-Ok :
      (arg : String) (st : Parsed)
      → Grown st
      → StepOk (positional_step project persona name spec arg st)
  unfolding positional_step
  positional_step-Ok arg st grown = elim (Bool-cases (not spec.positional || ltb 0 st.positional)) [
    | inl e ↦ rw (e, positional_step) tt
    | inr e ↦
        elim (Bool-cases
          (if starts_with name "workflow " then is_workflow_name arg else is_number arg)) [
            | inr e1 ↦ rw (e, e1, positional_step) tt
            | inl e1 ↦
                rw (e, e1, positional_step)
                  (record {
                    middle = grown.middle ++ arg ∷ [];
                    output = ap (λ (o : List String). o ++ arg ∷ []) grown.output;
                    allowed =
                        word grown.middle arg grown.allowed (ground (arith, e))
                          (either_name arg e1);
                  })
          ]
  ]

  take_value-Ok :
      (flag value : String) (st : Parsed)
      → Grown st
      → is_value_flag project persona name spec flag ≡ true
      → TakenOk (take_value project persona name spec flag value st)
  unfolding take_value
  take_value-Ok flag value st grown h = elim (Bool-cases (flag == "repo")) [
    | inl e ↦ elim (Bool-cases (same_repository value project persona)) [
      | inl e1 ↦
          rw (e, e1, take_value)
            (record { middle = grown.middle; output = grown.output; allowed = grown.allowed })
      | inr e1 ↦ rw (e, e1, take_value) tt
    ]
    | inr e ↦ elim (Bool-cases (flag == "body-file" && not (value == "-"))) [
      | inl e1 ↦ rw (e, e1, take_value) tt
      | inr e1 ↦ elim (Bool-cases (flag == "limit" && not (is_limit value))) [
        | inl e2 ↦ rw (e, e1, e2, take_value) tt
        | inr e2 ↦
            rw (e, e1, e2, take_value)
              (record {
                middle = grown.middle ++ ("--" ⧺ flag) ∷ value ∷ [];
                output = ap (λ (o : List String). o ++ ("--" ⧺ flag) ∷ value ∷ []) grown.output;
                allowed =
                    valued grown.middle flag value grown.allowed (value_flag-HasValue flag h e)
                      (λ same. ground (arith, e, (eq_iff flag "repo").1 same))
                      (λ same.
                        ground (arith, e1, eq_iff value "-", (eq_iff flag "body-file").1 same))
                      (λ same.
                        is_limit-InLimit value (ground (arith, e2, (eq_iff flag "limit").1 same)));
              })
      ]
    ]
  ]

  of_taken-Ok :
      (taken : Option Parsed) → TakenOk taken → StepOk (of_taken project persona name spec taken)
  of_taken-Ok none h = tt
  of_taken-Ok (some st) h = h

  boolean_flag_lem :
      (flag : String)
      → is_boolean_flag project persona name spec flag ≡ true
      → (contains (split_on b',' spec.booleans) flag ≡ true) × (flag ≢ "")
  unfolding is_boolean_flag
  boolean_flag_lem flag h = (ground (arith, h), λ same. ground (arith, h, (eq_iff flag "").1 same))

  boolean_flag-Ok :
      (flag : String) (has_value : Bool) (st : Parsed)
      → Grown st
      → is_boolean_flag project persona name spec flag ≡ true
      → StepOk (
          if has_value
          then denies
          else goes_on (record st {
            values = insert flag "true" st.values;
            output = st.output ++ ("--" ⧺ flag) ∷ [];
          }))
  boolean_flag-Ok flag true st grown h = tt
  boolean_flag-Ok flag false st grown h = record {
    middle = grown.middle ++ ("--" ⧺ flag) ∷ [];
    output = ap (λ (o : List String). o ++ ("--" ⧺ flag) ∷ []) grown.output;
    allowed =
        boolean grown.middle flag grown.allowed
          (contains-Memᴰ (split_on b',' spec.booleans) flag (boolean_flag_lem flag h).0)
          (boolean_flag_lem flag h).1;
  }

  value_flag-Ok :
      (flag value : String) (has_value : Bool) (st : Parsed)
      → Grown st
      → is_value_flag project persona name spec flag ≡ true
      → StepOk (
          if not has_value
          then wants_value flag
          else of_taken project persona name spec
              (take_value project persona name spec flag value st))
  value_flag-Ok flag value false st grown h = h
  value_flag-Ok flag value true st grown h =
      of_taken-Ok (take_value project persona name spec flag value st)
        (take_value-Ok flag value st grown h)

  flag_step-Ok :
      (flag value : String) (has_value : Bool) (st : Parsed)
      → Grown st
      → StepOk (flag_step project persona name spec flag value has_value st)
  unfolding flag_step
  flag_step-Ok flag value has_value st grown = elim (Bool-cases (flag == "")) [
    | inl e ↦ rw (e, flag_step) tt
    | inr e ↦
        elim (Bool-cases (
          not (is_value_flag project persona name spec flag)
          && not (is_boolean_flag project persona name spec flag))) [
            | inl e1 ↦ rw (e1, e, flag_step) tt
            | inr e1 ↦
                elim (Bool-cases (is_some (lookup flag st.values) && not (flag == "raw-field"))) [
                  | inl e2 ↦ rw (e2, e1, e, flag_step) tt
                  | inr e2 ↦ elim (Bool-cases (is_boolean_flag project persona name spec flag)) [
                    | inl e3 ↦
                        rw (e2, e1, e3, e, flag_step) (boolean_flag-Ok flag has_value st grown e3)
                    | inr e3 ↦
                        rw (e2, e1, e3, e, flag_step)
                          (value_flag-Ok flag value has_value st grown (ground (arith, e1, e3)))
                  ]
                ]
          ]
  ]

  choose_ok : (test : Bool) (x y : Step) → StepOk x → StepOk y → StepOk (if test then x else y)
  choose_ok true x y hx hy = hx
  choose_ok false x y hx hy = hy

  argument_step-Ok :
      (arg : String) (st : Parsed)
      → Grown st
      → StepOk (argument_step project persona name spec arg st)
  unfolding argument_step
  argument_step-Ok arg st grown =
      let (flag, value, has_value) = cut b'=' (trim_prefix arg "--") in
      choose_ok (not (starts_with arg "-")) _ _ (positional_step-Ok arg st grown) (
        choose_ok (starts_with arg "--") _ _ (flag_step-Ok flag value has_value st grown) (
          flag_step-Ok
            (long_name project persona name spec (lookup (trim_prefix arg "-") short_flags)) value
            has_value st grown))

  last_ok :
      (step : Step)
      → StepOk step
      → TakenOk (elim step [ denies ↦ none | goes_on st ↦ some st | wants_value flag ↦ none ])
  last_ok denies h = tt
  last_ok (goes_on st) h = h
  last_ok (wants_value flag) h = tt

  taken_ok :
      (taken : Option Parsed) (next : Parsed → Option Parsed)
      → TakenOk taken
      → ((st : Parsed) → Grown st → TakenOk (next st))
      → TakenOk (elim taken [ none ↦ none | some st ↦ next st ])
  taken_ok none next h later = tt
  taken_ok (some st) next h later = later st h

  more_ok :
      (step : Step) (next : Parsed → Option Parsed) (take : String → Option Parsed)
      → StepOk step
      → ((st : Parsed) → Grown st → TakenOk (next st))
      → ((flag : String)
          → is_value_flag project persona name spec flag ≡ true
          → TakenOk (take flag))
      → TakenOk (elim step [ denies ↦ none | goes_on st ↦ next st | wants_value flag ↦ take flag ])
  more_ok denies next take h later taken = tt
  more_ok (goes_on st) next take h later taken = later st h
  more_ok (wants_value flag) next take h later taken = taken flag h

  pub argument_loop-Ok :
      (args : List String) (st : Parsed)
      → Grown st
      → TakenOk (argument_loop project persona name spec args st)
  unfolding argument_loop
  argument_loop-Ok [] st grown = grown
  argument_loop-Ok (arg ∷ []) st grown =
      last_ok (argument_step project persona name spec arg st) (argument_step-Ok arg st grown)
  argument_loop-Ok (arg ∷ next ∷ rest) st grown =
      more_ok (argument_step project persona name spec arg st)
        (argument_loop project persona name spec (next ∷ rest)) _ (argument_step-Ok arg st grown)
        (argument_loop-Ok (next ∷ rest))
        (λ flag h.
          taken_ok (take_value project persona name spec flag next st)
            (argument_loop project persona name spec rest) (take_value-Ok flag next st grown h)
            (argument_loop-Ok rest))
