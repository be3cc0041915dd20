-- ===== src/ChildStatus.antt =====
-- internal/controller/databasequeryresource_controller.go: `updateStatusForChildResources`, which
-- runs the status update query for each child whose resource version has not been processed yet.
pub mod Skips
pub mod Quiet
pub mod Polls
use db_query_operator.Prelude.{ℕ, ◌+◌, Bool, true, false, Option, none, some, List, [], ◌∷◌, ◌++◌}
use db_query_operator.Prelude.Text.{Text, codes, text_eq, empty_text}
use db_query_operator.Prelude.Maps.{Map, lookup, insert}
use db_query_operator.Api.{condition_true}
use db_query_operator.Cluster.{
  Object, Reply, ok, err, Env, Pass, pure, gets, set_status, exec, close, ◌>>=◌, ◌>>◌,
}
use db_query_operator.Children.{get_object_key}
use db_query_operator.Conditions.{condition_reconciled, set_condition}
use db_query_operator.Database.{get_or_create_db_client}

abbrev pub versions_or_empty : Option (Map Text) → Map Text
versions_or_empty none = []
versions_or_empty (some m) = m

module _ {V : Type 0} where
  -- `exists && lastSeenVersion == currentVersion`
  unfoldable pub is_seen : Object V → Option (Map Text) → Bool
  is_seen o versions = elim (lookup (get_object_key o) (versions_or_empty versions)) [
    | none ↦ false
    | some last ↦ text_eq last o.resource_version
  ]

module _ {W V D R : Type 0} (env : Env W V D R) where
  -- The number of children updated, and the clients that the deferred calls will close.
  abbrev pub Round : Type 0
  Round = ℕ × List D

  record_version : Object V → Pass W V (Unit {0})
  record_version o = set_status (λ st. record st {
    resource_versions =
        some
          (insert (get_object_key o) o.resource_version (versions_or_empty st.resource_versions));
  })

  after_exec : Object V → Reply Text (Unit {0}) → Pass W V ℕ
  unfolding record_version
  after_exec o (err e) = pure 0
  after_exec o (ok u) = do
    record_version o
    set_condition env condition_reconciled condition_true (codes "ChildResourceChanged")
        (codes "Status updated due to child resource event")
    pure 1

  exec_rendered : Object V → D → Reply Text Text → Pass W V ℕ
  unfolding after_exec
  exec_rendered o db (err e) = pure 0
  exec_rendered o db (ok query) = do r ← exec env db query; after_exec o r

  render_and_exec : Object V → D → Text → Reply Text (Unit {0}) → Pass W V ℕ
  unfolding exec_rendered
  render_and_exec o db template (err e) = pure 0
  render_and_exec o db template (ok u) = exec_rendered o db (env.render_resource template o)

  with_client : Object V → Reply Text D → Pass W V Round
  unfolding render_and_exec
  with_client o (err e) = pure (0, [])
  with_client o (ok db) = do
    template ← gets (λ s. s.cr.spec.status_update_query_template)
    n ← render_and_exec o db template (env.parse_template template)
    pure (n, db ∷ [])

  unfoldable pub process : Map Text → Object V → Pass W V Round
  unfolding with_client
  process config o = do r ← get_or_create_db_client env config; with_client o r

  -- One round of the loop over the children.
  unfoldable pub update_one : Map Text → Object V → Pass W V Round
  update_one config o s = elim (is_seen o s.cr.status.resource_versions) [
    | true ↦ ((0, []), s)
    | false ↦ process config o s
  ]

  unfoldable pub update_each : Map Text → List (Object V) → Pass W V Round
  update_each config [] = pure (0, [])
  update_each config (o ∷ os) = do
    here ← update_one config o
    rest ← update_each config os
    pure (here.0 + rest.0, here.1 ++ rest.1)

  -- Deferred calls run last first.
  close_all : List D → Pass W V (Unit {0})
  close_all [] = pure tt
  close_all (db ∷ dbs) = do close_all dbs; close env db

  run_updates : Map Text → List (Object V) → Pass W V ℕ
  unfolding close_all
  run_updates config children = do
    set_status
        (λ st. record st { resource_versions = some (versions_or_empty st.resource_versions) })
    r ← update_each config children
    close_all r.1
    pure r.0

  unfoldable pub update_status_for_child_resources : Map Text → List (Object V) → Pass W V ℕ
  unfolding run_updates
  update_status_for_child_resources config children s =
      elim (empty_text s.cr.spec.status_update_query_template) [
        | true ↦ (0, s)
        | false ↦ run_updates config children s
      ]
