-- ===== src/Functions/Codecs.antt =====
-- What the decoding functions of the templates return.
use db_query_operator.Prelude.{◌≡◌, refl, Option, none, some, if◌then◌else◌}
use db_query_operator.Prelude.Text.{Text, text_eq}
use db_query_operator.Prelude.Maps.{Map, lookup, lookup-insert}
use db_query_operator.Functions.{
  Formats, Decoded, map_or_error, error_key, from_yaml, from_toml, from_json,
}

module _ {V : Type 0} (formats : Formats V) where
  -- Without an error the entries decoded, and with one the same entries and the error's text under
  -- the key of errors.
  abbrev pub Reports : Decoded (Map V) → Map V → Type 0
  Reports d m =
      (k : Text)
      → lookup k m ≡ elim d.error [
        | none ↦ lookup k d.filled
        | some e ↦ if text_eq error_key k then some (formats.of_text e) else lookup k d.filled
      ]

  map_or_error-Reports :
      (m : Map V) (e : Option Text)
      → Reports (record { filled = m; error = e }) (map_or_error formats m e)
  unfolding map_or_error
  map_or_error-Reports m none k = refl
  map_or_error-Reports m (some e) k = lookup-insert error_key k (formats.of_text e) m

  -- No decoding function of maps fails: each returns the entries that its decoder has filled, and
  -- reports an error of the decoder under the key "Error", over an entry of that name.
  pub from_lem :
      (str : Text)
      → Reports (formats.yaml.unmarshal_map str) (from_yaml formats str)
        × Reports (formats.toml.unmarshal_map str) (from_toml formats str)
        × Reports (formats.json.unmarshal_map str) (from_json formats str)
  unfolding from_yaml from_toml from_json
  from_lem str = (
    map_or_error-Reports _ (formats.yaml.unmarshal_map str).error,
    map_or_error-Reports _ (formats.toml.unmarshal_map str).error,
    map_or_error-Reports _ (formats.json.unmarshal_map str).error,
  )
