-- ===== src/Functions.antt =====
-- internal/controller/funcs.go: the functions that the templates may call. The libraries for YAML,
-- TOML and JSON and the functions of sprig are parameters. `V` stands for a decoded value, and a
-- document decodes into a map of them or a list of them.
pub mod Codecs
pub mod Names
use db_query_operator.Prelude.{Bool, Option, none, some, List, [], ◌∷◌, ◌==◌, if◌then◌else◌}
use db_query_operator.Prelude.Text.{Text, codes, empty_text}
use db_query_operator.Prelude.Maps.{Map, insert}
use db_query_operator.Cluster.{Reply, ok, err}

-- `strings.TrimSuffix(s, "\n")`
unfoldable pub trim_newline : Text → Text
trim_newline [] = []
trim_newline (c ∷ []) = if c == 10 then [] else c ∷ []
trim_newline (c ∷ d ∷ t) = c ∷ trim_newline (d ∷ t)

-- What a decoder leaves in the map, or in the list, that it is given, and its error. A decoder that
-- fails may have filled a part.
pub record Decoded (A : Type 0) : Type 0 where
  pub filled : A
  pub error : Option Text

pub record Format (V : Type 0) : Type 0 where
  pub marshal : V → Reply Text Text
  pub unmarshal_map : Text → Decoded (Map V)
  pub unmarshal_array : Text → Decoded (List V)

-- YAML with the indentation of two spaces comes from another library.
pub record Formats (V : Type 0) : Type 0 where
  pub yaml : Format V
  pub toml : Format V
  pub json : Format V
  pub encode_yaml_pretty : V → Reply Text Text
  -- a string as a value
  pub of_text : Text → V

-- A function that panics stops the template's execution with an error.
pub data Rendered : Type 0 where
  text : Text → Rendered
  panicked : Text → Rendered

-- The functions by their types, as the template library tells them apart. Those of sprig are known
-- by a name here.
pub data Function (V : Type 0) : Type 0 where
  of_sprig : Text → Function V
  value_to_text : (V → Text) → Function V
  value_to_rendered : (V → Rendered) → Function V
  text_to_map : (Text → Map V) → Function V
  text_to_array : (Text → List V) → Function V

text_or_empty : Reply Text Text → Text
text_or_empty (ok t) = t
text_or_empty (err e) = []

text_or_error : Reply Text Text → Text
text_or_error (ok t) = t
text_or_error (err e) = e

text_or_panic : (Text → Text) → Reply Text Text → Rendered
text_or_panic f (ok t) = text (f t)
text_or_panic f (err e) = panicked e

trimmed_or_empty : Reply Text Text → Text
unfolding trim_newline
trimmed_or_empty (ok t) = trim_newline t
trimmed_or_empty (err e) = []

abbrev pub error_key : Text
error_key = codes "Error"

-- `maps.Copy`
unfoldable pub copy_map : {A : Type 0} → Map A → Map A → Map A
copy_map dst [] = dst
copy_map dst ((k, v) ∷ src) = copy_map (insert k v dst) src

module _ {V : Type 0} (formats : Formats V) where
  map_or_error : Map V → Option Text → Map V
  map_or_error m none = m
  map_or_error m (some e) = insert error_key (formats.of_text e) m

  array_or_error : List V → Option Text → List V
  array_or_error a none = a
  array_or_error a (some e) = formats.of_text e ∷ []

  unfoldable pub to_yaml : V → Text
  unfolding trimmed_or_empty
  to_yaml v = trimmed_or_empty (formats.yaml.marshal v)

  unfoldable pub must_to_yaml : V → Rendered
  unfolding text_or_panic trim_newline
  must_to_yaml v = text_or_panic trim_newline (formats.yaml.marshal v)

  unfoldable pub to_yaml_pretty : V → Text
  unfolding trimmed_or_empty
  to_yaml_pretty v = trimmed_or_empty (formats.encode_yaml_pretty v)

  unfoldable pub from_yaml : Text → Map V
  unfolding map_or_error
  from_yaml str = let d = formats.yaml.unmarshal_map str in map_or_error d.filled d.error

  unfoldable pub from_yaml_array : Text → List V
  unfolding array_or_error
  from_yaml_array str = let d = formats.yaml.unmarshal_array str in array_or_error d.filled d.error

  unfoldable pub to_toml : V → Text
  unfolding text_or_error
  to_toml v = text_or_error (formats.toml.marshal v)

  unfoldable pub from_toml : Text → Map V
  unfolding map_or_error
  from_toml str = let d = formats.toml.unmarshal_map str in map_or_error d.filled d.error

  unfoldable pub to_json : V → Text
  unfolding text_or_empty
  to_json v = text_or_empty (formats.json.marshal v)

  unfoldable pub must_to_json : V → Rendered
  unfolding text_or_panic
  must_to_json v = text_or_panic (λ t. t) (formats.json.marshal v)

  unfoldable pub from_json : Text → Map V
  unfolding map_or_error
  from_json str = let d = formats.json.unmarshal_map str in map_or_error d.filled d.error

  unfoldable pub from_json_array : Text → List V
  unfolding array_or_error
  from_json_array str = let d = formats.json.unmarshal_array str in array_or_error d.filled d.error

  abbrev pub extra : Map (Function V)
  extra =
      (codes "toToml", value_to_text to_toml)
      ∷ (codes "fromToml", text_to_map from_toml)
      ∷ (codes "toYaml", value_to_text to_yaml)
      ∷ (codes "mustToYaml", value_to_rendered must_to_yaml)
      ∷ (codes "toYamlPretty", value_to_text to_yaml_pretty)
      ∷ (codes "fromYaml", text_to_map from_yaml)
      ∷ (codes "fromYamlArray", text_to_array from_yaml_array)
      ∷ (codes "toJson", value_to_text to_json)
      ∷ (codes "mustToJson", value_to_rendered must_to_json)
      ∷ (codes "fromJson", text_to_map from_json)
      ∷ (codes "fromJsonArray", text_to_array from_json_array)
      ∷ []

  -- `f` is `sprig.TxtFuncMap()`.
  unfoldable pub func_map : Map (Function V) → Map (Function V)
  unfolding copy_map
  func_map f = copy_map f extra
