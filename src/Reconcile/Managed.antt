-- ===== src/Reconcile/Managed.antt =====
-- internal/controller/databasequeryresource_controller.go: the list of managed resources that a
-- pass leaves in the status, sorted by `sort.Strings`.
pub mod Sorted
use db_query_operator.Prelude.{Bool, true, false, Option, none, some, List, [], ◌∷◌, if◌then◌else◌}
use db_query_operator.Prelude.Text.{Text, text_le}
use db_query_operator.Prelude.Maps.{Map, lookup, keep_keys}
use db_query_operator.Api.{DatabaseQueryResourceStatus}

unfoldable pub keys_of : Map Bool → List Text
keys_of [] = []
keys_of ((k, b) ∷ m) = k ∷ keys_of m

unfoldable pub insert_sorted : Text → List Text → List Text
insert_sorted k [] = k ∷ []
insert_sorted k (j ∷ js) = if text_le k j then k ∷ j ∷ js else j ∷ insert_sorted k js

unfoldable pub sort_strings : List Text → List Text
sort_strings [] = []
sort_strings (k ∷ ks) = insert_sorted k (sort_strings ks)

abbrev pub is_managed : Map Bool → Text → Bool
is_managed keys k = elim (lookup k keys) [ none ↦ false | some b ↦ true ]

-- The versions of resources that are no longer managed are dropped.
keep_managed : Map Bool → Option (Map Text) → Option (Map Text)
keep_managed keys none = none
keep_managed keys (some m) = some (keep_keys (is_managed keys) m)

unfoldable pub record_managed : Map Bool → DatabaseQueryResourceStatus → DatabaseQueryResourceStatus
unfolding keep_managed
record_managed keys st = record st {
  managed_resources = sort_strings (keys_of keys);
  resource_versions = keep_managed keys st.resource_versions;
}
