-- ===== src/Prelude/Assoc.antt =====
-- Go maps with string keys, as association lists: a key is stored once, `insert` replaces.
use mathlib.Core.Path.{◌≡◌, refl}
use mathlib.Core.Bool.{Bool}
use mathlib.Core.List.{List, [], ◌∷◌}
use mathlib.Core.Logic.{◌⊎◌, inl, inr}
use mathlib.Core.Option
use mathlib.Core.Option.{Option, none, some}
use native.Mathlib.Omega.{arith}
use multi_protocol_proxy.Prelude.Tests.{if◌then◌else◌, Bool-cases, some_inj}
use multi_protocol_proxy.Prelude.Text.{Bytes, str_eq, str_eq_iff, str_eq_refl}

abbrev pub Map {ℓ} : Type ℓ → Type ℓ
Map V = List (Bytes × V)

module _ {ℓ} {V : Type ℓ} where
  unfoldable pub lookup : Bytes → Map V → Option V
  lookup k [] = none
  lookup k ((j, v) ∷ m) = if str_eq j k then some v else lookup k m

  unfoldable pub insert : Bytes → V → Map V → Map V
  insert k v [] = (k, v) ∷ []
  insert k v ((j, w) ∷ m) = if str_eq j k then (k, v) ∷ m else (j, w) ∷ insert k v m

  -- `delete(m, key)` at each key that passes the test, in a `range` loop over `m`.
  unfoldable pub delete_if : (Bytes → Bool) → Map V → Map V
  delete_if p [] = []
  delete_if p ((j, v) ∷ m) = let rest = delete_if p m in if p j then rest else (j, v) ∷ rest

  pub lookup-insert :
      (k j : Bytes) (v : V) (m : Map V)
      → lookup j (insert k v m) ≡ (if str_eq k j then some v else lookup j m)
  unfolding lookup insert
  lookup-insert k j v [] = refl
  lookup-insert k j v ((i, w) ∷ m) =
      ground (arith, str_eq_iff k j, str_eq_iff i k, str_eq_iff i j, lookup-insert k j v m)

  pub lookup-insert_self : (k : Bytes) (v : V) (m : Map V) → lookup k (insert k v m) ≡ some v
  lookup-insert_self k v m = simp (lookup-insert, str_eq_refl)

  pub lookup-delete_if :
      (p : Bytes → Bool) (k : Bytes) (m : Map V)
      → lookup k (delete_if p m) ≡ (if p k then none else lookup k m)
  unfolding lookup delete_if
  lookup-delete_if p k [] = ground arith
  lookup-delete_if p k ((j, v) ∷ m) = ground (arith, str_eq_iff j k, lookup-delete_if p k m)

  pub lookup-insert_cases :
      (k j : Bytes) (v w : V) (m : Map V)
      → lookup j (insert k v m) ≡ some w
      → ((k ≡ j) × (v ≡ w)) ⊎ (lookup j m ≡ some w)
  lookup-insert_cases k j v w m e = elim (Bool-cases (str_eq k j)) [
    | inl same ↦ inl ((str_eq_iff k j).0 same, some_inj (rw (lookup-insert, same) at e))
    | inr other ↦ inr (rw (lookup-insert, other) at e)
  ]

module _ {ℓ κ} {V : Type ℓ} {W : Type κ} where
  -- A loop that writes every value of a map.
  unfoldable pub map_values : (V → W) → Map V → Map W
  map_values f [] = []
  map_values f ((j, v) ∷ m) = (j, f v) ∷ map_values f m

  pub lookup-map_values :
      (f : V → W) (k : Bytes) (m : Map V) → lookup k (map_values f m) ≡ Option.map f (lookup k m)
  unfolding lookup map_values
  lookup-map_values f k [] = refl
  lookup-map_values f k ((j, v) ∷ m) = ground (arith, lookup-map_values f k m)
