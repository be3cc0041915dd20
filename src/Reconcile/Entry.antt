-- ===== src/Reconcile/Entry.antt =====
-- internal/controller/databasequeryresource_controller.go: the whole of `Reconcile`: the read of
-- the custom resource, its deletion, the pass that only looks at the children, and the deferred
-- write of the status.
pub mod Deferred
use db_query_operator.Prelude.{ℕ, zero, suc, Bool, true, false, none, some, List, [], ◌∷◌, ◌++◌}
use db_query_operator.Prelude.Int.{ℤ}
use db_query_operator.Prelude.Text.{Text, codes}
use db_query_operator.Prelude.Maps.{Map}
use db_query_operator.Api.{DatabaseQueryResource, DatabaseQueryResourceStatus, condition_false}
use db_query_operator.Cluster.{
  Object, ApiError, is_not_found, is_conflict, Reply, ok, err, Env, Pass, cr_status_updated, pure,
  gets, set_cr, set_status, now, get_cr, update_cr_status, ◌>>=◌, ◌>>◌,
}
use db_query_operator.Children.{collect_managed_children}
use db_query_operator.ChildStatus.{update_status_for_child_resources}
use db_query_operator.Conditions.{condition_reconciled, set_condition, conditions_or_empty}
use db_query_operator.Schedule.{should_reconcile}
use db_query_operator.Secret.{get_db_config}
use db_query_operator.Reconcile.Full.{Result, done, requeue_after, failed, full_reconcile}
use db_query_operator.Reconcile.Cleanup.{clean_up}

abbrev pub max_status_retries : ℕ
max_status_retries = 3

module _ {W V D R : Type 0} (env : Env W V D R) where
  -- The write of another copy of the custom resource than the one in memory.
  unfoldable pub write_status :
      DatabaseQueryResource → Pass W V (Reply ApiError DatabaseQueryResource)
  write_status d s =
      let (r, w) = env.update_cr_status s.world d in
      (r, record s { world = w; calls = s.calls ++ cr_status_updated d ∷ [] })

  abbrev Rest : Type 0
  Rest = DatabaseQueryResource → Pass W V (Unit {0})

  after_refetch : Rest → Reply ApiError DatabaseQueryResource → Pass W V (Unit {0})
  after_refetch rest (err e) = pure tt
  after_refetch rest (ok latest) = rest latest

  after_status_write :
      Rest → Text → Text → Reply ApiError DatabaseQueryResource → Pass W V (Unit {0})
  unfolding after_refetch
  after_status_write rest ns name (ok d) = pure tt
  after_status_write rest ns name (err e) = elim (is_conflict e) [
    | true ↦ do r ← get_cr env ns name; after_refetch rest r
    | false ↦ pure tt
  ]

  unfoldable pub status_retry :
      ℕ → Text → Text → DatabaseQueryResourceStatus → DatabaseQueryResource → Pass W V (Unit {0})
  unfolding after_status_write
  status_retry zero ns name desired latest = pure tt
  status_retry (suc n) ns name desired latest = do
    r ← write_status (record latest { status = desired })
    after_status_write (status_retry n ns name desired) ns name r

  compare_status : Text → Text → Reply ApiError DatabaseQueryResource → Pass W V (Unit {0})
  unfolding status_retry
  compare_status ns name (err e) s = (tt, s)
  compare_status ns name (ok latest) s =
      let desired = record s.cr.status { observed_generation = s.cr.generation } in
      elim (env.status_deep_equal latest.status desired) [
        | true ↦ (tt, s)
        | false ↦ status_retry max_status_retries ns name desired latest s
      ]

  -- The deferred function.
  unfoldable pub write_back : Text → Text → Pass W V (Unit {0})
  unfolding compare_status
  write_back ns name = do r ← get_cr env ns name; compare_status ns name r

  after_child_updates : ℕ → Pass W V (Unit {0})
  after_child_updates zero = pure tt
  after_child_updates (suc n) = do
    t ← now env
    set_status (λ st. record st { last_reconcile_time = some t })
    update_cr_status env
    pure tt

  with_config : List (Object V) → Reply Text (Map Text) → Pass W V (Unit {0})
  unfolding after_child_updates
  with_config children (err e) = pure tt
  with_config children (ok config) = do
    updated ← update_status_for_child_resources env config children
    after_child_updates updated

  check_found : List (Object V) → Pass W V (Unit {0})
  unfolding with_config
  check_found [] = pure tt
  check_found (o ∷ os) = do config ← get_db_config env; with_config (o ∷ os) config

  -- The pass that skips the full reconciliation.
  unfoldable pub check_children : Pass W V (Unit {0})
  unfolding check_found
  check_children = do children ← collect_managed_children env; check_found children

  run : ℤ → Bool × ℤ → Pass W V Result
  run poll (true, next) = full_reconcile env poll
  run poll (false, next) = do check_children; pure (requeue_after next)

  scheduled : Reply Text ℤ → Pass W V Result
  unfolding run
  scheduled (err e) = do
    set_condition env condition_reconciled condition_false (codes "InvalidSpec")
        (codes "Invalid pollInterval: " ++ e)
    pure done
  scheduled (ok poll) = do decision ← should_reconcile env poll; run poll decision

  -- A live custom resource, with the deferred write of its status.
  unfoldable pub reconcile_live : Text → Text → Pass W V Result
  unfolding scheduled
  reconcile_live ns name = do
    set_status (λ st. record st { conditions = some (conditions_or_empty st.conditions) })
    interval ← gets (λ s. s.cr.spec.poll_interval)
    result ← scheduled (env.parse_duration interval)
    write_back ns name
    pure result

  got : Text → Text → Reply ApiError DatabaseQueryResource → Pass W V Result
  got ns name (err e) = elim (is_not_found e) [ true ↦ pure done | false ↦ pure (failed e) ]
  got ns name (ok cr) = elim cr.deletion_timestamp [
    | some t ↦ do set_cr cr; clean_up env
    | none ↦ do set_cr cr; reconcile_live ns name
  ]

  unfoldable pub reconcile : Text → Text → Pass W V Result
  unfolding got
  reconcile ns name = do r ← get_cr env ns name; got ns name r
