-- ===== src/Prelude/Maps.antt =====
-- `map[string]V` as an association list, with what Go does on a missing key written out.
use mathlib.Core.Path.{◌≡◌, refl}
use mathlib.Core.Bool.{Bool}
use mathlib.Core.Option.{Option, none, some}
use mathlib.Core.List.{List, [], ◌∷◌}
use native.Mathlib.Omega.{arith}
use db_query_operator.Prelude.Tests.{if◌then◌else◌}
use db_query_operator.Prelude.Text.{Text, text_eq, text_eq_iff}

abbrev pub Map {ℓ} : Type ℓ → Type ℓ
Map V = List (Text × V)

module _ {ℓ} {V : Type ℓ} where
  unfoldable pub lookup : Text → Map V → Option V
  lookup k [] = none
  lookup k ((j, v) ∷ m) = if text_eq j k then some v else lookup k m

  unfoldable pub insert : Text → V → Map V → Map V
  insert k v [] = (k, v) ∷ []
  insert k v ((j, w) ∷ m) = if text_eq j k then (k, v) ∷ m else (j, w) ∷ insert k v m

  -- The built-in `delete`.
  unfoldable pub delete : Text → Map V → Map V
  delete k [] = []
  delete k ((j, v) ∷ m) = let rest = delete k m in if text_eq j k then rest else (j, v) ∷ rest

  -- The entries whose key passes a test.
  unfoldable pub keep_keys : (Text → Bool) → Map V → Map V
  keep_keys p [] = []
  keep_keys p ((j, v) ∷ m) = let rest = keep_keys p m in if p j then (j, v) ∷ rest else rest

  pub lookup-insert :
      (k j : Text) (v : V) (m : Map V)
      → lookup j (insert k v m) ≡ (if text_eq k j then some v else lookup j m)
  unfolding lookup insert
  lookup-insert k j v [] = refl
  lookup-insert k j v ((i, w) ∷ m) =
      ground (arith, text_eq_iff k j, text_eq_iff i k, text_eq_iff i j, lookup-insert k j v m)

  pub lookup-delete :
      (k j : Text) (m : Map V) → lookup j (delete k m) ≡ (if text_eq k j then none else lookup j m)
  unfolding lookup delete
  lookup-delete k j [] = ground arith
  lookup-delete k j ((i, w) ∷ m) =
      ground (arith, text_eq_iff k j, text_eq_iff i k, text_eq_iff i j, lookup-delete k j m)

  pub lookup-keep_keys :
      (p : Text → Bool) (j : Text) (m : Map V)
      → lookup j (keep_keys p m) ≡ (if p j then lookup j m else none)
  unfolding lookup keep_keys
  lookup-keep_keys p j [] = ground arith
  lookup-keep_keys p j ((i, w) ∷ m) = ground (arith, text_eq_iff i j, lookup-keep_keys p j m)

-- `m[k]` of a string map: the empty string where the key is missing.
abbrev pub index_text : Text → Map Text → Text
index_text k m = elim (lookup k m) [ none ↦ [] | some v ↦ v ]
