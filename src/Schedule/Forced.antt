-- ===== src/Schedule/Forced.antt =====
-- When `shouldReconcile` forces a full reconciliation.
use db_query_operator.Prelude.{Bool, true, false, ◌&&◌, ◌≡◌, Option, none, some, arith, leb}
use db_query_operator.Prelude.Int.{ℤ, sub_ℕ, int_ltb}
use db_query_operator.Api.{Time, ChangeDetectionConfig}
use db_query_operator.Cluster.{Env, State}
use db_query_operator.Schedule.{poll_due, with_detection, should_reconcile}

-- Change detection is configured and switched on.
abbrev pub detection_enabled : Option ChangeDetectionConfig → Bool
detection_enabled none = false
detection_enabled (some cd) = cd.enabled

-- There was a successful poll, less than the poll interval ago.
abbrev pub recently_polled : Option Time → Time → ℤ → Bool
recently_polled none t poll = false
recently_polled (some polled) t poll = int_ltb (sub_ℕ t polled) poll

module _ {W V D R : Type 0} (env : Env W V D R) (poll : ℤ) (s : State W V) where
  -- Unless the generation was observed, change detection is enabled and the last successful poll is
  -- less than the poll interval ago, a full reconciliation is forced, with the poll interval, no
  -- write and the status as it was.
  pub should_reconcile_forced :
      (leb s.cr.generation s.cr.status.observed_generation
          && (detection_enabled s.cr.spec.change_detection
              && recently_polled s.cr.status.last_poll_time (env.now s.world).0 poll)
        ≡ false)
      → let r = should_reconcile env poll s in
        (r.0 ≡ (true, poll)) × (r.1.calls ≡ s.calls) × (r.1.cr ≡ s.cr)
  unfolding should_reconcile with_detection poll_due
  should_reconcile_forced h = ground arith
