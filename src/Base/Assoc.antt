-- ===== src/Base/Assoc.antt =====
-- Go's `map[string]V` as an association list. Iteration order is not fixed in Go; where the code
-- sorts the keys the model does so too.
use mathlib.Core.Path.{◌≡◌, refl}
use mathlib.Core.Logic.{inl, inr}
use mathlib.Core.Bool.{true}
use mathlib.Core.Option.{Option, none, some}
use mathlib.Core.List.{List, [], ◌∷◌}
use native.Mathlib.Omega.{arith}
use medb.Base.Lists.{All, All-map, any_of}
use medb.Base.Tests.{Bool-cases, if◌then◌else◌}
use medb.Base.Text.{Bytes, bytes_eq, bytes_eq_iff, bytes_eq_refl}

abbrev pub Map {ℓ} : Type ℓ → Type ℓ
Map V = List (Bytes × V)

module _ {ℓ} {V : Type ℓ} where
  -- m[k], with the second result of the comma-ok form
  unfoldable pub lookup : Bytes → Map V → Option V
  lookup k [] = none
  lookup k ((j, v) ∷ m) = if bytes_eq j k then some v else lookup k m

  -- m[k] = v
  unfoldable pub insert : Bytes → V → Map V → Map V
  insert k v [] = (k, v) ∷ []
  insert k v ((j, w) ∷ m) = if bytes_eq j k then (k, v) ∷ m else (j, w) ∷ insert k v m

  -- delete(m, k)
  unfoldable pub erase : Bytes → Map V → Map V
  erase k [] = []
  erase k ((j, w) ∷ m) = let rest = erase k m in if bytes_eq j k then rest else (j, w) ∷ rest

  pub lookup-nil : (k : Bytes) → lookup k [] ≡ none
  unfolding lookup
  lookup-nil k = refl

  pub lookup-insert :
      (k j : Bytes) (v : V) (m : Map V)
      → lookup j (insert k v m) ≡ (if bytes_eq k j then some v else lookup j m)
  unfolding lookup insert
  lookup-insert k j v [] = refl
  lookup-insert k j v ((i, w) ∷ m) =
      ground (arith, bytes_eq_iff k j, bytes_eq_iff i k, bytes_eq_iff i j, lookup-insert k j v m)

  pub lookup-erase :
      (k j : Bytes) (m : Map V) → lookup j (erase k m) ≡ (if bytes_eq k j then none else lookup j m)
  unfolding lookup erase
  lookup-erase k j [] = ground arith
  lookup-erase k j ((i, w) ∷ m) =
      ground (arith, bytes_eq_iff k j, bytes_eq_iff i k, bytes_eq_iff i j, lookup-erase k j m)

  pub lookup-insert_self : (k : Bytes) (v : V) (m : Map V) → lookup k (insert k v m) ≡ some v
  lookup-insert_self k v m = rw (lookup-insert k k v m, bytes_eq_refl k)

  pub lookup-erase_self : (k : Bytes) (m : Map V) → lookup k (erase k m) ≡ none
  lookup-erase_self k m = rw (lookup-erase k k m, bytes_eq_refl k)

module _ {ℓ} {V : Type ℓ} where
  abbrev pub keys : Map V → List Bytes
  keys [] = []
  keys ((k, v) ∷ m) = k ∷ keys m

  abbrev pub Found : Map V → Bytes → Type ℓ
  Found m k = (v : V) × (lookup k m ≡ some v)

  Found-cons : (j : Bytes) (w : V) (m : Map V) (k : Bytes) → Found m k → Found ((j, w) ∷ m) k
  Found-cons j w m k (v, e) = elim (Bool-cases (bytes_eq j k)) [
    | inl same ↦ (w, unfold lookup in rw same)
    | inr ne ↦ (v, unfold lookup in rw ne e)
  ]

  -- Every key of a map is found.
  pub keys-Found : (m : Map V) → All (Found m) (keys m)
  keys-Found [] = tt
  keys-Found ((j, w) ∷ m) = (
    (w, unfold lookup in rw (bytes_eq_refl j)),
    All-map (keys m) (Found-cons j w m) (keys-Found m),
  )

  -- A key that is found is among the keys.
  pub any_of-keys :
      (m : Map V) (k : Bytes) (v : V)
      → lookup k m ≡ some v
      → any_of (λ j. bytes_eq j k) (keys m) ≡ true
  unfolding lookup
  any_of-keys [] k v h = cc
  any_of-keys ((j, w) ∷ m) k v h = ground (arith, any_of-keys m k v)
