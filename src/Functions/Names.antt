-- ===== src/Functions/Names.antt =====
-- Which function a template gets by a name.
use db_query_operator.Prelude.{
  false, ◌≡◌, refl, ap, ◌∙◌, Option, none, some, List, [], ◌∷◌, arith, if◌then◌else◌,
}
use db_query_operator.Prelude.Lists.{any}
use db_query_operator.Prelude.Text.{Text, codes, text_eq, text_eq_iff}
use db_query_operator.Prelude.Maps.{Map, lookup, insert, lookup-insert}
use db_query_operator.Functions.{
  Formats, Function, value_to_text, value_to_rendered, text_to_map, text_to_array, to_toml,
  from_toml, to_yaml, must_to_yaml, to_yaml_pretty, from_yaml, from_yaml_array, to_json,
  must_to_json, from_json, from_json_array, copy_map, extra, func_map,
}

module _ {A : Type 0} where
  -- The last entry of a name counts.
  abbrev last_entry : Text → Map A → Option A → Option A
  last_entry k [] old = old
  last_entry k ((j, v) ∷ src) old = last_entry k src (if text_eq j k then some v else old)

  lookup-copy_map :
      (dst src : Map A) (k : Text) → lookup k (copy_map dst src) ≡ last_entry k src (lookup k dst)
  unfolding copy_map
  lookup-copy_map dst [] k = refl
  lookup-copy_map dst ((j, v) ∷ src) k =
      lookup-copy_map (insert j v dst) src k ∙ ap (last_entry k src) (lookup-insert j k v dst)

  -- The first entry of a name, or else what another map has.
  abbrev pub first_entry : Option A → Option A → Option A
  first_entry none old = old
  first_entry (some v) old = some v

  abbrev pub HasDistinctKeys : Map A → Type 0
  HasDistinctKeys [] = Unit
  HasDistinctKeys ((k, v) ∷ m) = (lookup k m ≡ none) × HasDistinctKeys m

  last_entry-first :
      (src : Map A) (k : Text) (old : Option A)
      → HasDistinctKeys src
      → last_entry k src old ≡ first_entry (lookup k src) old
  unfolding lookup
  last_entry-first [] k old h = refl
  last_entry-first ((j, v) ∷ src) k old h =
      ground (
        arith,
        last_entry-first src k old h.1,
        last_entry-first src k (some v) h.1,
        text_eq_iff j k,
      )

extra-HasDistinctKeys : {V : Type 0} (formats : Formats V) → HasDistinctKeys (extra formats)
unfolding lookup text_eq
extra-HasDistinctKeys formats =
    (refl, (refl, (refl, (refl, (refl, (refl, (refl, (refl, (refl, (refl, (refl, tt)))))))))))

-- The names of the operator's functions.
abbrev pub names : List Text
names =
    codes "toToml"
    ∷ codes "fromToml"
    ∷ codes "toYaml"
    ∷ codes "mustToYaml"
    ∷ codes "toYamlPretty"
    ∷ codes "fromYaml"
    ∷ codes "fromYamlArray"
    ∷ codes "toJson"
    ∷ codes "mustToJson"
    ∷ codes "fromJson"
    ∷ codes "fromJsonArray"
    ∷ []

module _ {V : Type 0} (formats : Formats V) where
  lookup-func_map :
      (sprig : Map (Function V)) (k : Text)
      → lookup k (func_map formats sprig) ≡ first_entry (lookup k (extra formats)) (lookup k sprig)
  unfolding func_map
  lookup-func_map sprig k =
      lookup-copy_map sprig (extra formats) k
      ∙ last_entry-first (extra formats) k (lookup k sprig) (extra-HasDistinctKeys formats)

  extra-other : (k : Text) → any (λ n. text_eq n k) names ≡ false → lookup k (extra formats) ≡ none
  unfolding lookup
  extra-other k h = ground arith

  -- By each of its eleven names a template gets the operator's function of that name, whatever
  -- sprig has under it, and by any other name that of sprig.
  pub func_map_lem :
      (sprig : Map (Function V))
      → let table = func_map formats sprig in
        (lookup (codes "toToml") table ≡ some (value_to_text (to_toml formats)))
        × (lookup (codes "fromToml") table ≡ some (text_to_map (from_toml formats)))
        × (lookup (codes "toYaml") table ≡ some (value_to_text (to_yaml formats)))
        × (lookup (codes "mustToYaml") table ≡ some (value_to_rendered (must_to_yaml formats)))
        × (lookup (codes "toYamlPretty") table ≡ some (value_to_text (to_yaml_pretty formats)))
        × (lookup (codes "fromYaml") table ≡ some (text_to_map (from_yaml formats)))
        × (lookup (codes "fromYamlArray") table ≡ some (text_to_array (from_yaml_array formats)))
        × (lookup (codes "toJson") table ≡ some (value_to_text (to_json formats)))
        × (lookup (codes "mustToJson") table ≡ some (value_to_rendered (must_to_json formats)))
        × (lookup (codes "fromJson") table ≡ some (text_to_map (from_json formats)))
        × (lookup (codes "fromJsonArray") table ≡ some (text_to_array (from_json_array formats)))
        × ((k : Text) → any (λ n. text_eq n k) names ≡ false → lookup k table ≡ lookup k sprig)
  unfolding lookup text_eq
  func_map_lem sprig = (
    lookup-func_map sprig _,
    lookup-func_map sprig _,
    lookup-func_map sprig _,
    lookup-func_map sprig _,
    lookup-func_map sprig _,
    lookup-func_map sprig _,
    lookup-func_map sprig _,
    lookup-func_map sprig _,
    lookup-func_map sprig _,
    lookup-func_map sprig _,
    lookup-func_map sprig _,
    λ k h. lookup-func_map sprig k ∙ ap (λ e. first_entry e (lookup k sprig)) (extra-other k h),
  )
