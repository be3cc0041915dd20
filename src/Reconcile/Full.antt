-- ===== src/Reconcile/Full.antt =====
-- internal/controller/databasequeryresource_controller.go: a full reconciliation, from the
-- connection details to the final condition.
pub mod Outage
pub mod Pruned
pub mod Outcome
pub mod Synced
pub mod Dropped
use db_query_operator.Prelude.{ℕ, ◌*◌, Bool, true, false, Option, none, some, List, [], ◌∷◌, ◌++◌}
use db_query_operator.Prelude.Int.{ℤ, pos, int_min}
use db_query_operator.Prelude.Text.{Text, codes, join}
use db_query_operator.Prelude.Maps.{Map}
use db_query_operator.Api.{get_prune, condition_true, condition_false}
use db_query_operator.Cluster.{
  Object, ApiError, Reply, ok, err, Env, Pass, pure, gets, set_status, now, query_read, close,
  ◌>>=◌, ◌>>◌,
}
use db_query_operator.Children.{
  collect_all_child_resources, collect_managed_children, prune_stale_resources,
}
use db_query_operator.ChildStatus.{update_status_for_child_resources}
use db_query_operator.Conditions.{
  condition_reconciled, condition_db_connected, set_condition, encode, truncate_error,
}
use db_query_operator.Database.{get_or_create_db_client}
use db_query_operator.Schedule.{second, next_requeue_interval}
use db_query_operator.Secret.{get_db_config}
use db_query_operator.Reconcile.Rows.{process_rows, managed_keys, row_errors}
use db_query_operator.Reconcile.Managed.{record_managed}

-- `ctrl.Result` with its error. `done` is the empty result, with no requeue.
pub data Result : Type 0 where
  done : Result
  requeue_after : ℤ → Result
  failed : ApiError → Result

abbrev pub retry_interval : ℤ → ℤ
retry_interval poll = int_min poll (pos (30 * second))

module _ {W V D R : Type 0} (env : Env W V D R) where
  unfoldable pub prune_phase : Map Bool → Pass W V (List Text)
  prune_phase keys s = elim (get_prune s.cr.spec) [
    | true ↦
        let (children, t) = collect_all_child_resources env s in
        prune_stale_resources env keys children t
    | false ↦ ([], s)
  ]

  -- The condition and the times that the pass ends with.
  unfoldable pub conclude : ℤ → List Text → Pass W V Result
  conclude poll (e ∷ es) = do
    let message = truncate_error (encode (join (codes "; ") (e ∷ es))) 1024
    set_condition env condition_reconciled condition_false (codes "ProcessingError") message
    cr ← gets (λ s. s.cr)
    pure (requeue_after (next_requeue_interval env cr poll))
  conclude poll [] = do
    t ← now env
    set_status (λ st. record st { last_poll_time = some t; last_reconcile_time = some t })
    set_condition env condition_reconciled condition_true (codes "Success")
        (codes "Successfully queried DB and reconciled resources")
    cr ← gets (λ s. s.cr)
    pure (requeue_after (next_requeue_interval env cr poll))

  -- What follows the loop over the rows.
  unfoldable pub finish : ℤ → Map Text → List (Reply Text (Object V)) → Pass W V Result
  finish poll config outcomes = do
    let keys = managed_keys [] outcomes
    prune_errors ← prune_phase keys
    children ← collect_managed_children env
    n ← update_status_for_child_resources env config children
    set_status (record_managed keys)
    conclude poll (row_errors outcomes ++ prune_errors)

  unfoldable pub with_template : ℤ → Map Text → List R → Reply Text (Unit {0}) → Pass W V Result
  with_template poll config rows (err e) = do
    set_condition env condition_reconciled condition_false (codes "TemplateError")
        (codes "Invalid template: " ++ e)
    pure done
  with_template poll config rows (ok u) = do
    outcomes ← process_rows env rows
    finish poll config outcomes

  unfoldable pub with_rows : ℤ → Map Text → Reply Text (List R) → Pass W V Result
  with_rows poll config (err e) = do
    set_condition env condition_reconciled condition_false (codes "QueryFailed")
        (codes "Failed to execute query: " ++ e)
    pure (requeue_after poll)
  with_rows poll config (ok rows) = do
    template ← gets (λ s. s.cr.spec.template)
    with_template poll config rows (env.parse_template template)

  unfoldable pub with_client : ℤ → Map Text → Reply Text D → Pass W V Result
  with_client poll config (err e) = do
    set_condition env condition_db_connected condition_false (codes "DBClientError") e
    set_condition env condition_reconciled condition_false (codes "DBConnectionFailed")
        (codes "Failed to create/connect DB client")
    pure (requeue_after (retry_interval poll))
  with_client poll config (ok db) = do
    set_condition env condition_db_connected condition_true (codes "Connected")
        (codes "Successfully connected to the database")
    query ← gets (λ s. s.cr.spec.query)
    rows ← query_read env db query
    result ← with_rows poll config rows
    close env db
    pure result

  unfoldable pub with_config : ℤ → Reply Text (Map Text) → Pass W V Result
  with_config poll (err e) = do
    set_condition env condition_db_connected condition_false (codes "SecretError") e
    set_condition env condition_reconciled condition_false (codes "DBConnectionFailed")
        (codes "Failed to get DB configuration")
    pure (requeue_after (retry_interval poll))
  with_config poll (ok config) = do
    db ← get_or_create_db_client env config
    with_client poll config db

  unfoldable pub full_reconcile : ℤ → Pass W V Result
  full_reconcile poll = do config ← get_db_config env; with_config poll config
