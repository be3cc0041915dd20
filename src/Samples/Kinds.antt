-- ===== src/Samples/Kinds.antt =====
-- Witnesses for the theorems on the watched kinds.
use db_query_operator.Prelude.{[], ◌∷◌, ◌≡◌, refl}
use db_query_operator.Prelude.Text.{codes, contains, trim_space, trim_left, trim_right, is_space}
use db_query_operator.Cluster.{ok}
use db_query_operator.Gvk.{GroupVersionKind, parse_gvks}
use db_query_operator.Gvk.Printing
use db_query_operator.Gvk.Printing.{IsPrintable, print_gvk}

abbrev deployment : GroupVersionKind
deployment = record { group = codes "apps"; version = codes "v1"; kind = codes "Deployment" }

deployment-IsPrintable : IsPrintable deployment
unfolding contains trim_space trim_left trim_right is_space
deployment-IsPrintable = record {
  group_slash = refl;
  version_slash = refl;
  kind_slash = refl;
  semicolon = refl;
  trimmed = refl;
  complete = refl;
}

parse_gvks-print_gvk_example : parse_gvks (print_gvk deployment) ≡ ok (deployment ∷ [])
parse_gvks-print_gvk_example = Printing.parse_gvks-print_gvk deployment deployment-IsPrintable
