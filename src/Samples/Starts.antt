-- ===== src/Samples/Starts.antt =====
-- Witnesses for the theorems on the start and on the template functions.
use db_query_operator.Prelude.{Bool, false, ◌≡◌, refl, if◌then◌else◌, none, some, List, [], ◌∷◌}
use db_query_operator.Prelude.Lists.{any}
use db_query_operator.Prelude.Text.{
  Text, codes, text_eq, split, trim_space, trim_right, trim_left, is_space,
}
use db_query_operator.Prelude.Maps.{Map, lookup}
use db_query_operator.Cluster.{ok}
use db_query_operator.Gvk.{
  GroupVersionKind, parse_gvks, some_gvks, add_entries, add_entry, add_gvk, of_parts,
}
use db_query_operator.Samples.Watches.{library}
use db_query_operator.Functions.{
  Format, Formats, Function, of_sprig, value_to_text, value_to_rendered, text_to_map, text_to_array,
  to_toml, from_toml, to_yaml, must_to_yaml, to_yaml_pretty, from_yaml, from_yaml_array, to_json,
  must_to_json, from_json, from_json_array, func_map,
}
use db_query_operator.Functions.Names
use db_query_operator.Functions.Names.{names}
use db_query_operator.Start.{
  Runtime, returned, flags, default_flags, with_logger, manager_options, or_exit, run_manager, main,
}
use db_query_operator.Start.Watched
use db_query_operator.Start.Watched.{Ran}

abbrev runtime : Runtime (List Text) Unit
runtime = record {
  getenv = λ name. if text_eq name (codes "GVK_PATTERN") then codes "v1/Service" else [];
  parse_flags = λ f. f;
  log_flags = record { development = Bool.true; level = none };
  predicates = library;
  primary = record {
    group = codes "konnektr.io";
    version = codes "v1alpha1";
    kind = codes "DatabaseQueryResource";
  };
  set_logger = λ w opts. codes "logger" ∷ w;
  new_manager = λ w opts. (ok tt, codes "manager" ∷ w);
  complete = λ w m watches. (ok tt, codes "controller" ∷ w);
  setup_webhook = λ w m. (ok tt, codes "webhook" ∷ w);
  add_healthz_check = λ w m name. (ok tt, name ∷ w);
  add_readyz_check = λ w m name. (ok tt, name ∷ w);
  start = λ w m. (ok tt, codes "stopped" ∷ w);
}

main_returns : (main runtime []).0 ≡ returned
unfolding main or_exit run_manager flags default_flags parse_gvks some_gvks add_entries add_entry
    add_gvk of_parts split text_eq trim_space trim_right trim_left is_space
main_returns = refl

main-Ran_example :
    (gvks : List GroupVersionKind) × (mgr : Unit {0}) × (parse_gvks (flags runtime).gvk_pattern
      ≡ ok gvks)
    × ((runtime.new_manager (with_logger runtime []) (manager_options (flags runtime))).0 ≡ ok mgr)
    × Ran runtime gvks mgr
        (runtime.new_manager (with_logger runtime []) (manager_options (flags runtime))).1
        (main runtime []).1
main-Ran_example = Watched.main-Ran runtime [] main_returns

abbrev plain : Format Text
plain = record {
  marshal = λ v. ok v;
  unmarshal_map = λ t. record { filled = []; error = some t };
  unmarshal_array = λ t. record { filled = t ∷ []; error = none };
}

abbrev formats : Formats Text
formats = record {
  yaml = plain;
  toml = plain;
  json = plain;
  encode_yaml_pretty = λ v. ok v;
  of_text = λ t. t;
}

abbrev sprig : Map (Function Text)
sprig = (codes "toJson", of_sprig (codes "toJson")) ∷ (codes "upper", of_sprig (codes "upper")) ∷ []

func_map_example :
    let table = func_map formats sprig in
    (lookup (codes "toToml") table ≡ some (value_to_text (to_toml formats)))
    × (lookup (codes "fromToml") table ≡ some (text_to_map (from_toml formats)))
    × (lookup (codes "toYaml") table ≡ some (value_to_text (to_yaml formats)))
    × (lookup (codes "mustToYaml") table ≡ some (value_to_rendered (must_to_yaml formats)))
    × (lookup (codes "toYamlPretty") table ≡ some (value_to_text (to_yaml_pretty formats)))
    × (lookup (codes "fromYaml") table ≡ some (text_to_map (from_yaml formats)))
    × (lookup (codes "fromYamlArray") table ≡ some (text_to_array (from_yaml_array formats)))
    × (lookup (codes "toJson") table ≡ some (value_to_text (to_json formats)))
    × (lookup (codes "mustToJson") table ≡ some (value_to_rendered (must_to_json formats)))
    × (lookup (codes "fromJson") table ≡ some (text_to_map (from_json formats)))
    × (lookup (codes "fromJsonArray") table ≡ some (text_to_array (from_json_array formats)))
    × ((k : Text) → any (λ n. text_eq n k) names ≡ false → lookup k table ≡ lookup k sprig)
func_map_example = Names.func_map_lem formats sprig
