-- ===== src/Reconcile/Cleanup.antt =====
-- internal/controller/databasequeryresource_controller.go: the deletion of a custom resource that
-- carries the finalizer.
pub mod Complete
pub mod Unread
use db_query_operator.Prelude.{Bool, true, false, Option, none, some, List, [], ◌∷◌}
use db_query_operator.Prelude.Lists.{any}
use db_query_operator.Prelude.Text.{Text, codes, text_eq}
use db_query_operator.Api.{DatabaseQueryResource}
use db_query_operator.Cluster.{
  Object, ApiError, is_not_found, Reply, ok, err, Env, Pass, pure, gets, set_cr, delete, update_cr,
  ◌>>=◌, ◌>>◌,
}
use db_query_operator.Children.{collect_all_child_resources}
use db_query_operator.Reconcile.Full.{Result, done, failed}

abbrev pub database_query_finalizer : Text
database_query_finalizer = codes "konnektr.io/databasequeryresource-finalizer"

unfoldable pub has_finalizer : List Text → Bool
has_finalizer = any (λ f. text_eq f database_query_finalizer)

module _ {W V D R : Type 0} (env : Env W V D R) where
  -- The error that ends the loop, if any: a child that is gone already is none.
  unfoldable pub delete_failure : Reply ApiError (Unit {0}) → Option ApiError
  delete_failure (ok u) = none
  delete_failure (err e) = elim (is_not_found e) [ true ↦ none | false ↦ some e ]

  unless_failed : Pass W V (Option ApiError) → Option ApiError → Pass W V (Option ApiError)
  unless_failed rest (some e) = pure (some e)
  unless_failed rest none = rest

  unfoldable pub delete_all : List (Object V) → Pass W V (Option ApiError)
  unfolding unless_failed
  delete_all [] = pure none
  delete_all (o ∷ os) = do r ← delete env o; unless_failed (delete_all os) (delete_failure r)

  updated_result : Reply ApiError DatabaseQueryResource → Result
  updated_result (ok cr) = done
  updated_result (err e) = failed e

  unfoldable pub after_deletes : Option ApiError → Pass W V Result
  unfolding updated_result
  after_deletes (some e) = pure (failed e)
  after_deletes none = do
    cr ← gets (λ s. s.cr)
    set_cr (env.remove_finalizer cr database_query_finalizer)
    r ← update_cr env
    pure (updated_result r)

  -- The body of `if !dbqr.ObjectMeta.DeletionTimestamp.IsZero()`.
  unfoldable pub clean_up : Pass W V Result
  clean_up s = elim (has_finalizer s.cr.finalizers) [
    | false ↦ (done, s)
    | true ↦
        let (children, t) = collect_all_child_resources env s in
        let (e, u) = delete_all children t in after_deletes e u
  ]
