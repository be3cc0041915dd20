-- ===== src/Reconcile/Rows.antt =====
-- internal/controller/databasequeryresource_controller.go: the loop of `Reconcile` over the rows
-- of the query result, one child for each row.
pub mod Grown
use db_query_operator.Prelude.{Bool, true, false, ◌&&◌, some, List, [], ◌∷◌, ◌++◌, if◌then◌else◌}
use db_query_operator.Prelude.Text.{Text, codes, text_eq, empty_text}
use db_query_operator.Prelude.Maps.{Map, insert}
use db_query_operator.Api.{DatabaseQueryResource}
use db_query_operator.Cluster.{
  Object, ApiError, is_not_found, Reply, ok, err, Scope, namespaced, cluster_scoped, Env, Pass,
  pure, get, apply, ◌>>=◌,
}
use db_query_operator.Children.{slash, object_id, get_object_key}
use db_query_operator.Applied.{
  entries, set_last_applied_config, apply_desired_state, should_update_resource,
  update_with_conflict_retry,
}

abbrev pub managed_by_label : Text
managed_by_label = codes "konnektr.io/managed-by"

abbrev pub is_namespaced : Scope → Bool
is_namespaced namespaced = true
is_namespaced cluster_scoped = false

module _ {V : Type 0} where
  -- `fmt.Sprintf("<what> error for %s/%s: %v", ...)`
  abbrev pub child_error : Text → Object V → Text → Text
  child_error what o e =
      what ++ (codes " error for " ++ (o.namespace ++ (slash ++ (o.name ++ (codes ": " ++ e)))))

  -- The default namespace and the managed-by label.
  unfoldable pub prepare : DatabaseQueryResource → Scope → Object V → Object V
  prepare cr scope o = record o {
    namespace = if is_namespaced scope && empty_text o.namespace then cr.namespace else o.namespace;
    labels = some (insert managed_by_label cr.name (entries o.labels));
  }

module _ {W V D R : Type 0} (env : Env W V D R) where
  -- Only a namespaced child in the namespace of its parent gets an owner reference.
  unfoldable pub own : DatabaseQueryResource → Scope → Object V → Reply Text (Object V)
  own cr scope o =
      if is_namespaced scope && text_eq o.namespace cr.namespace
      then env.set_controller_reference cr o
      else ok o

  owned : DatabaseQueryResource → Object V → Reply Text (Object V) → Reply Text (Object V)
  owned cr o (ok p) = ok p
  owned cr o (err e) = err (child_error (codes "owner ref") o e)

  scoped : DatabaseQueryResource → Object V → Reply Text Scope → Reply Text (Object V)
  unfolding prepare own owned
  scoped cr o (ok scope) = owned cr (prepare cr scope o) (own cr scope (prepare cr scope o))
  scoped cr o (err e) = err (
      codes "RESTMapping error for "
      ++ (o.group ++ (slash ++ (o.version ++ (codes ", Kind=" ++ (o.kind ++ (codes ": " ++ e)))))))

  decoded : DatabaseQueryResource → Text → Reply Text (Object V) → Reply Text (Object V)
  unfolding scoped
  decoded cr out (ok o) = scoped cr o (env.rest_mapping o)
  decoded cr out (err e) =
      err (codes "decode error for template output '" ++ (out ++ (codes "': " ++ e)))

  rendered : DatabaseQueryResource → R → Reply Text Text → Reply Text (Object V)
  unfolding decoded
  rendered cr row (ok out) = decoded cr out (env.decode_object out)
  rendered cr row (err e) =
      err (codes "template render error for row data " ++ (env.print_row row ++ (codes ": " ++ e)))

  -- The child that a row asks for, or the error that makes the loop skip the row.
  unfoldable pub desired_child : DatabaseQueryResource → R → Reply Text (Object V)
  unfolding rendered
  desired_child cr row = rendered cr row (env.render_row cr.spec.template row)

  -- The results of the writes, as the object whose key is recorded or the error.
  applied_child : Object V → Reply ApiError (Object V) → Reply Text (Object V)
  applied_child o (ok stored) = ok stored
  applied_child o (err e) = err (child_error (codes "create") o e.message)

  create_child : Object V → Reply Text (Object V) → Pass W V (Reply Text (Object V))
  unfolding applied_child
  create_child o (err e) = pure (err (child_error (codes "last applied config") o e))
  create_child o (ok p) = do r ← apply env p; pure (applied_child p r)

  updated_child : Object V → Reply Text (Unit {0}) → Reply Text (Object V)
  updated_child o (ok u) = ok o
  updated_child o (err e) = err (child_error (codes "update") o e)

  write_child : Object V → Reply ApiError (Object V) → Pass W V (Reply Text (Object V))
  unfolding create_child updated_child
  write_child o (ok existing) = do
    r ← update_with_conflict_retry env (apply_desired_state env.codec existing o) o
    pure (updated_child o r)
  write_child o (err e) = elim (is_not_found e) [
    | true ↦ create_child o (set_last_applied_config env.codec o)
    | false ↦ pure (err (child_error (codes "get") o e.message))
  ]

  write_if : Object V → Reply Text Bool → Pass W V (Reply Text (Object V))
  unfolding write_child
  write_if o (err e) = pure (err (child_error (codes "update check") o e))
  write_if o (ok false) = pure (ok o)
  write_if o (ok true) = do r ← get env (object_id o); write_child o r

  unfoldable pub sync_child : Reply Text (Object V) → Pass W V (Reply Text (Object V))
  unfolding write_if
  sync_child (err e) = pure (err e)
  sync_child (ok o) = do needed ← should_update_resource env o; write_if o needed

  unfoldable pub process_row : R → Pass W V (Reply Text (Object V))
  process_row row s = sync_child (desired_child s.cr row) s

  unfoldable pub process_rows : List R → Pass W V (List (Reply Text (Object V)))
  process_rows [] = pure []
  process_rows (row ∷ rows) = do r ← process_row row; rest ← process_rows rows; pure (r ∷ rest)

module _ {V : Type 0} where
  -- `managedResourceKeys[resourceKey] = true` for each row that was not skipped.
  unfoldable pub managed_keys : Map Bool → List (Reply Text (Object V)) → Map Bool
  managed_keys keys [] = keys
  managed_keys keys (ok o ∷ rest) = managed_keys (insert (get_object_key o) true keys) rest
  managed_keys keys (err e ∷ rest) = managed_keys keys rest

  unfoldable pub row_errors : List (Reply Text (Object V)) → List Text
  row_errors [] = []
  row_errors (ok o ∷ rest) = row_errors rest
  row_errors (err e ∷ rest) = e ∷ row_errors rest
