-- ===== src/Schedule.antt =====
-- internal/controller/databasequeryresource_controller.go: when a full reconciliation runs, the
-- change detection query, and the delay until the next pass. Durations are in nanoseconds.
pub mod Forced
pub mod Intervals
use db_query_operator.Prelude.{
  ℕ, ◌*◌, ◌^◌, Bool, true, false, not, Option, none, some, List, [], ◌∷◌, ◌++◌, ltb, ◌&&◌,
  if◌then◌else◌,
}
use db_query_operator.Prelude.Int.{ℤ, pos, sub_ℕ, ◌-ℤ◌, int_ltb, int_leb}
use db_query_operator.Prelude.Text.{Text, codes, empty_text}
use db_query_operator.Prelude.Maps.{Map}
use db_query_operator.Api.{
  Time, ChangeDetectionConfig, DatabaseQueryResource, DatabaseQueryResourceSpec,
}
use db_query_operator.Cluster.{
  Reply, ok, err, Env, Pass, pure, gets, set_status, now, query_read, close, update_cr_status,
  ◌>>=◌, ◌>>◌,
}
use db_query_operator.Identifier.{IdentifierError, sanitize_pg_identifier}
use db_query_operator.Secret.{get_db_config}
use db_query_operator.Database.{get_or_create_db_client}

abbrev pub second : ℕ
second = 1000000000

abbrev pub default_change_poll_interval : ℤ
default_change_poll_interval = pos (10 * second)

module _ {W V D R : Type 0} (env : Env W V D R) where
  interval_or_default : Reply Text ℤ → ℤ
  interval_or_default (ok d) = d
  interval_or_default (err e) = default_change_poll_interval

  -- The configured interval, or ten seconds where it is missing or does not parse.
  unfoldable pub change_poll_interval : ChangeDetectionConfig → ℤ
  unfolding interval_or_default
  change_poll_interval cd =
      if not (empty_text cd.change_poll_interval)
      then interval_or_default (env.parse_duration cd.change_poll_interval)
      else default_change_poll_interval

  unfoldable pub change_poll_interval_for : DatabaseQueryResourceSpec → ℤ
  change_poll_interval_for spec = elim spec.change_detection [
    | none ↦ pos 0
    | some cd ↦ if not cd.enabled then pos 0 else change_poll_interval cd
  ]

  unfoldable pub next_requeue_interval : DatabaseQueryResource → ℤ → ℤ
  next_requeue_interval cr poll_interval =
      let change = change_poll_interval_for cr.spec in
      if int_ltb (pos 0) change && int_ltb change poll_interval then change else poll_interval

  -- The errors of a change detection are logged and nothing more: they are one value here.
  abbrev pub Detected : Type 0
  Detected = Reply (Unit {0}) Bool

  last_check_time : Option Time → Time
  last_check_time none = 0
  last_check_time (some t) = t

  -- `SELECT 1 FROM %s WHERE %s > '%s' LIMIT 1`
  unfoldable pub detection_query : Text → Text → Time → Text
  detection_query table column t =
      codes "SELECT 1 FROM "
      ++ (table
          ++ (codes " WHERE "
              ++ (column ++ (codes " > '" ++ (env.format_time t ++ codes "' LIMIT 1")))))

  any_row : Reply Text (List R) → Detected
  any_row (err e) = err tt
  any_row (ok []) = ok false
  any_row (ok (r ∷ rs)) = ok true

  run_detection :
      D → Time → Reply IdentifierError Text → Reply IdentifierError Text → Pass W V Detected
  unfolding any_row
  run_detection db since (err e) column = pure (err tt)
  run_detection db since (ok table) (err e) = pure (err tt)
  run_detection db since (ok table) (ok column) = do
    r ← query_read env db (detection_query table column since)
    pure (any_row r)

  detect_with : ChangeDetectionConfig → Reply Text D → Pass W V Detected
  unfolding run_detection last_check_time
  detect_with cd (err e) = pure (err tt)
  detect_with cd (ok db) = do
    since ← gets (λ s. last_check_time s.cr.status.last_change_check_time)
    r ←
        run_detection db since (sanitize_pg_identifier cd.table_name)
          (sanitize_pg_identifier cd.timestamp_column)
    close env db
    pure r

  detect_configured : ChangeDetectionConfig → Reply Text (Map Text) → Pass W V Detected
  unfolding detect_with
  detect_configured cd (err e) = pure (err tt)
  detect_configured cd (ok config) = do db ← get_or_create_db_client env config; detect_with cd db

  unfoldable pub detect_changes : ChangeDetectionConfig → Pass W V Detected
  unfolding detect_configured
  detect_changes cd = do config ← get_db_config env; detect_configured cd config

  abbrev pub Decision : Type 0
  Decision = Bool × ℤ

  -- What follows the change detection query.
  after_detection : ℤ → ℤ → Detected → Pass W V Decision
  after_detection poll change (err e) = pure (true, poll)
  after_detection poll change (ok has_changes) = do
    t ← now env
    set_status (λ st. record st { last_change_check_time = some t })
    update_cr_status env
    pure (if has_changes then (true, poll) else (false, change))

  detect : ChangeDetectionConfig → ℤ → Pass W V Decision
  unfolding after_detection
  detect cd poll = do r ← detect_changes cd; after_detection poll (change_poll_interval cd) r

  -- The test of `LastChangeCheckTime`.
  check_due : ChangeDetectionConfig → ℤ → Time → Option Time → Pass W V Decision
  unfolding detect
  check_due cd poll t none = detect cd poll
  check_due cd poll t (some checked) =
      let since = sub_ℕ t checked in
      if int_ltb since (change_poll_interval cd)
      then pure (false, change_poll_interval cd -ℤ since)
      else detect cd poll

  -- The test of `LastPollTime`.
  poll_due : ChangeDetectionConfig → ℤ → Time → Option Time → Pass W V Decision
  unfolding check_due
  poll_due cd poll t none = pure (true, poll)
  poll_due cd poll t (some polled) =
      if int_leb poll (sub_ℕ t polled)
      then pure (true, poll)
      else do checked ← gets (λ s. s.cr.status.last_change_check_time); check_due cd poll t checked

  with_detection : Option ChangeDetectionConfig → ℤ → Pass W V Decision
  unfolding poll_due
  with_detection none poll = pure (true, poll)
  with_detection (some cd) poll = if not cd.enabled then pure (true, poll) else do
    t ← now env
    polled ← gets (λ s. s.cr.status.last_poll_time)
    poll_due cd poll t polled

  unfoldable pub should_reconcile : ℤ → Pass W V Decision
  unfolding with_detection
  should_reconcile poll s =
      if ltb s.cr.status.observed_generation s.cr.generation
      then pure (true, poll) s
      else with_detection s.cr.spec.change_detection poll s
