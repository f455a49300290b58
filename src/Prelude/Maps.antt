-- ===== src/Prelude/Maps.antt =====
-- A Go map as an association list. Go leaves the order of an iteration open: a theorem about
-- every list is one about every order.
use mathlib.Core.Path.{◌≡◌, refl}
use mathlib.Core.Option.{Option, none, some}
use mathlib.Core.List.{List, [], ◌∷◌, Memᴰ}
use native.Mathlib.Omega.{arith}
use mathlib.Core.Logic.{inl, inr, ◌≢◌}
use dovik.Prelude.Lists.{All}
use dovik.Prelude.Tests.{Bool-cases, Eq, ◌==◌, if◌then◌else◌}

abbrev pub Map {ℓ} : Type ℓ → Type ℓ → Type ℓ
Map K V = List (K × V)

module _ {ℓ} {K V : Type ℓ} ⦃e : Eq K⦄ where
  -- m[k], with whether the key is there
  unfoldable pub lookup : K → Map K V → Option V
  lookup k [] = none
  lookup k ((j, v) ∷ m) = if j == k then some v else lookup k m

  -- m[k] = v
  unfoldable pub insert : K → V → Map K V → Map K V
  insert k v [] = (k, v) ∷ []
  insert k v ((j, w) ∷ m) = if j == k then (k, v) ∷ m else (j, w) ∷ insert k v m

  -- delete(m, k)
  unfoldable pub delete : K → Map K V → Map K V
  delete k [] = []
  delete k ((j, v) ∷ m) = let rest = delete k m in if j == k then rest else (j, v) ∷ rest

  pub lookup-insert :
      (at k : K) (new : V) (m : Map K V)
      → lookup k (insert at new m) ≡ (if at == k then some new else lookup k m)
  unfolding lookup insert
  lookup-insert at k new [] = refl
  lookup-insert at k new ((i, w) ∷ rest) =
      ground (arith, lookup-insert at k new rest, e.beq_iff at k, e.beq_iff i at, e.beq_iff i k)

  pub lookup-delete :
      (k j : K) (m : Map K V) → lookup j (delete k m) ≡ (if k == j then none else lookup j m)
  unfolding lookup delete
  lookup-delete k j [] = ground arith
  lookup-delete k j ((i, v) ∷ m) =
      ground (arith, e.beq_iff k j, e.beq_iff i k, e.beq_iff i j, lookup-delete k j m)

  pub lookup-empty : (k : K) → lookup k [] ≡ none
  unfolding lookup
  lookup-empty k = refl

module _ {ℓ κ} {K V : Type ℓ} ⦃e : Eq K⦄ (P : K × V → Type κ) where
  pub All-insert : (k : K) (v : V) (m : Map K V) → P (k, v) → All P m → All P (insert k v m)
  unfolding insert
  All-insert k v [] h hs = (h, tt)
  All-insert k v ((j, w) ∷ m) h hs = elim (Bool-cases (j == k)) [
    | inl at ↦ rw (at, insert) (h, hs.1)
    | inr at ↦ rw (at, insert) (hs.0, All-insert k v m h hs.1)
  ]

-- Every key stands once, as in a Go map.
module _ {ℓ} {K V : Type ℓ} ⦃e : Eq K⦄ where
  abbrev pub Distinct : Map K V → Type ℓ
  Distinct [] = Unit
  Distinct ((k, v) ∷ m) = (lookup k m ≡ none) × Distinct m

  pub lookup-Memᴰ : (k : K) (v : V) (m : Map K V) → Distinct m → Memᴰ (k, v) m → lookup k m ≡ some v
  unfolding lookup
  lookup-Memᴰ k v [] d t = elim t [ ]
  lookup-Memᴰ k v ((j, w) ∷ m) d (Memᴰ.head p) = ground (arith, e.beq_iff j k)
  lookup-Memᴰ k v ((j, w) ∷ m) d (Memᴰ.tail t) =
      ground (arith, e.beq_iff j k, lookup-Memᴰ k v m d.1 t)

  pub Distinct-delete : (k : K) (m : Map K V) → Distinct m → Distinct (delete k m)
  unfolding delete
  Distinct-delete k [] d = tt
  Distinct-delete k ((j, v) ∷ m) d = elim (Bool-cases (j == k)) [
    | inl hit ↦ rw hit (Distinct-delete k m d.1)
    | inr miss ↦ rw miss (ground (arith, lookup-delete k j m, d.0), Distinct-delete k m d.1)
  ]

-- for key := range m
abbrev pub keys {ℓ} : {K V : Type ℓ} → Map K V → List K
keys [] = []
keys ((k, v) ∷ m) = k ∷ keys m

-- A map of pointers: `m[k]` is nil where the key is missing or its value is nil.
abbrev pub deref {ℓ} : {V : Type ℓ} → Option (Option V) → Option V
deref none = none
deref (some p) = p

abbrev pub find {ℓ} : {K V : Type ℓ} ⦃e : Eq K⦄ → K → Map K (Option V) → Option V
find ⦃e⦄ k m = deref (lookup ⦃e = e⦄ k m)

-- The laws at the key of the change, and at another.
module _ {ℓ} {K V : Type ℓ} ⦃e : Eq K⦄ where
  pub lookup-cons :
      (j k : K) (v : V) (m : Map K V)
      → lookup k ((j, v) ∷ m) ≡ (if j == k then some v else lookup k m)
  unfolding lookup
  lookup-cons j k v m = refl

  pub lookup-insert_self : (k : K) (v : V) (m : Map K V) → lookup k (insert k v m) ≡ some v
  lookup-insert_self k v m = rw (lookup-insert, (e.beq_iff k k).1 refl)

  pub lookup-insert_ne :
      (k j : K) (v : V) (m : Map K V) → k ≢ j → lookup j (insert k v m) ≡ lookup j m
  lookup-insert_ne k j v m h = ground (arith, lookup-insert k j v m, e.beq_iff k j)

  pub lookup-delete_self : (k : K) (m : Map K V) → lookup k (delete k m) ≡ none
  lookup-delete_self k m = rw (lookup-delete, (e.beq_iff k k).1 refl)

  pub lookup-delete_ne : (k j : K) (m : Map K V) → k ≢ j → lookup j (delete k m) ≡ lookup j m
  lookup-delete_ne k j m h = ground (arith, lookup-delete k j m, e.beq_iff k j)

pub ruleset map_laws = (lookup-insert, lookup-delete, lookup-empty)
