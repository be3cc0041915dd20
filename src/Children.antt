-- ===== src/Children.antt =====
-- internal/controller/databasequeryresource_controller.go: the keys under which the children of a
-- custom resource are remembered, their collection, and the deletion of the stale ones.
pub mod Keys
pub mod Prune
pub mod Collect
pub mod Polls
pub mod Removal
use db_query_operator.Prelude.{
  Bool, true, false, not, ◌||◌, Option, none, some, List, [], ◌∷◌, ◌++◌, if◌then◌else◌,
}
use db_query_operator.Prelude.Text.{Text, codes, split, join, empty_text}
use db_query_operator.Prelude.Maps.{Map, lookup, delete as map_delete}
use db_query_operator.Api.{DatabaseQueryResourceStatus}
use db_query_operator.Cluster.{
  Object, ResourceId, ApiError, is_not_found, Reply, ok, err, Env, Pass, pure, gets, set_status,
  get, delete, ◌>>=◌, ◌>>◌,
}

abbrev pub slash : Text
slash = codes "/"

abbrev pub print_id : ResourceId → Text
print_id r = join slash (r.group ∷ r.version ∷ r.kind ∷ r.namespace ∷ r.name ∷ [])

module _ {V : Type 0} where
  -- `client.ObjectKeyFromObject` with the object's `GroupVersionKind`.
  abbrev pub object_id : Object V → ResourceId
  object_id o = record {
    group = o.group;
    version = o.version;
    kind = o.kind;
    namespace = o.namespace;
    name = o.name;
  }

  unfoldable pub get_object_key : Object V → Text
  unfolding join
  get_object_key o = print_id (object_id o)

  -- The key of a child is missing from those of the pass.
  unfoldable pub is_stale : Map Bool → Object V → Bool
  is_stale keys o = elim (lookup (get_object_key o) keys) [ none ↦ true | some b ↦ false ]

-- The test `len(parts) == 5` and the two tests on empty parts.
exact_id : List Text → Option ResourceId
exact_id (g ∷ v ∷ k ∷ ns ∷ n ∷ []) =
    if empty_text k || empty_text n
    then none
    else some (record { group = g; version = v; kind = k; namespace = ns; name = n })
exact_id _ = none

-- The key of a managed resource, as `collectAllChildResources` reads it.
unfoldable pub collect_id : Text → Option ResourceId
unfolding exact_id split
collect_id key = exact_id (split b'/' key)

-- The test `len(parts) < 5`: more parts are ignored.
first_id : List Text → Option ResourceId
first_id (g ∷ v ∷ k ∷ ns ∷ n ∷ more) =
    some (record { group = g; version = v; kind = k; namespace = ns; name = n })
first_id _ = none

-- The key of a managed resource, as `Reconcile` reads it for status updates.
unfoldable pub status_id : Text → Option ResourceId
unfolding first_id split
status_id key = first_id (split b'/' key)

-- `delete` on the map of resource versions, where there is one.
unfoldable pub forget : Text → Option (Map Text) → Option (Map Text)
forget key none = none
forget key (some m) = some (map_delete key m)

abbrev pub forget_version : Text → DatabaseQueryResourceStatus → DatabaseQueryResourceStatus
forget_version key st = record st { resource_versions = forget key st.resource_versions }

module _ {W V D R : Type 0} (env : Env W V D R) where
  -- The common body of the loops over `Status.ManagedResources`: an entry that does not parse
  -- and an object that is not got are passed over.
  found : Reply ApiError (Object V) → List (Object V)
  found (ok o) = o ∷ []
  found (err e) = []

  unfoldable pub get_one : Option ResourceId → Pass W V (List (Object V))
  unfolding found
  get_one none = pure []
  get_one (some id) = do r ← get env id; pure (found r)

  unfoldable pub get_each : (Text → Option ResourceId) → List Text → Pass W V (List (Object V))
  get_each parse [] = pure []
  get_each parse (key ∷ keys) = do
    here ← get_one (parse key)
    rest ← get_each parse keys
    pure (here ++ rest)

  -- The code's error result is always nil.
  unfoldable pub collect_all_child_resources : Pass W V (List (Object V))
  collect_all_child_resources = do
    keys ← gets (λ s. s.cr.status.managed_resources)
    get_each collect_id keys

  unfoldable pub collect_managed_children : Pass W V (List (Object V))
  collect_managed_children = do
    keys ← gets (λ s. s.cr.status.managed_resources)
    get_each status_id keys

  -- What follows a deletion: the errors to report.
  after_delete : Text → Reply ApiError (Unit {0}) → Pass W V (List Text)
  after_delete key (ok u) = do set_status (forget_version key); pure []
  after_delete key (err e) =
      if is_not_found e
      then (do set_status (forget_version key); pure [])
      else pure ((codes "delete " ++ (key ++ (codes ": " ++ e.message))) ∷ [])

  -- One round of the loop over the children.
  unfoldable pub prune_one : Map Bool → Object V → Pass W V (List Text)
  unfolding after_delete
  prune_one keys item = elim (is_stale keys item) [
    | false ↦ pure []
    | true ↦ do r ← delete env item; after_delete (get_object_key item) r
  ]

  unfoldable pub prune_stale_resources : Map Bool → List (Object V) → Pass W V (List Text)
  prune_stale_resources keys [] = pure []
  prune_stale_resources keys (item ∷ items) = do
    errors ← prune_one keys item
    rest ← prune_stale_resources keys items
    pure (errors ++ rest)
