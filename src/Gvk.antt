-- ===== src/Gvk.antt =====
-- internal/util/gvk.go: `ParseGVKs`, the kinds that the operator watches.
pub mod Parts
pub mod Printing
use db_query_operator.Prelude.{Bool, ◌||◌, List, [], ◌∷◌, ◌++◌, if◌then◌else◌}
use db_query_operator.Prelude.Text.{Text, codes, split, empty_text, trim_space}
use db_query_operator.Cluster.{Reply, ok, err}

-- `schema.GroupVersionKind`.
pub record GroupVersionKind : Type 0 where
  pub group : Text
  pub version : Text
  pub kind : Text

-- The group, version and kind by the number of parts; they stay empty for any other number.
unfoldable pub of_parts : List Text → GroupVersionKind
of_parts (v ∷ k ∷ []) = record { group = []; version = v; kind = k }
of_parts (g ∷ v ∷ k ∷ []) = record { group = g; version = v; kind = k }
of_parts _ = record { group = []; version = []; kind = [] }

-- The list that an entry adds to.
unfoldable pub add_gvk : GroupVersionKind → List GroupVersionKind → List GroupVersionKind
add_gvk gvk gvks = if empty_text gvk.version || empty_text gvk.kind then gvks else gvks ++ gvk ∷ []

-- One round of the loop.
unfoldable pub add_entry : Text → List GroupVersionKind → List GroupVersionKind
add_entry entry gvks =
    let trimmed = trim_space entry in
    if empty_text trimmed then gvks else add_gvk (of_parts (split b'/' trimmed)) gvks

unfoldable pub add_entries : List Text → List GroupVersionKind → List GroupVersionKind
add_entries [] gvks = gvks
add_entries (entry ∷ entries) gvks = add_entries entries (add_entry entry gvks)

unfoldable pub some_gvks : List GroupVersionKind → Reply Text (List GroupVersionKind)
some_gvks [] = err (codes "no valid watched GVKs specified")
some_gvks (g ∷ gs) = ok (g ∷ gs)

unfoldable pub parse_gvks : Text → Reply Text (List GroupVersionKind)
parse_gvks pattern = some_gvks (add_entries (split b';' pattern) [])
