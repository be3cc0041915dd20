-- ===== src/Schedule/Intervals.antt =====
-- The delays that the scheduler asks for.
use db_query_operator.Prelude.{
  ◌≤◌, false, ◌≡◌, refl, inl, inr, Bool-cases, ltb→lt, if◌then◌else◌, Option, none, some, arith,
}
use db_query_operator.Prelude.Int.{
  ℤ, pos, sub_ℕ, ◌≤ℤ◌, ◌<ℤ◌, ◌-ℤ◌, int_ltb, int_leb, int_min, -ℤ_parts, sub_ℕ_parts,
}
use db_query_operator.Prelude.Text.{empty_text}
use db_query_operator.Api.{Time, ChangeDetectionConfig, DatabaseQueryResource}
use db_query_operator.Cluster.{ok, err, Env, State}
use db_query_operator.Schedule.{
  change_poll_interval, change_poll_interval_for, next_requeue_interval, detect, after_detection,
  interval_or_default, check_due, poll_due, with_detection, should_reconcile, Detected,
}

module _ {W V D R : Type 0} (env : Env W V D R) (poll : ℤ) where
  -- For a positive poll interval the delay is positive. It is the shorter one of the poll interval
  -- and the interval of change detection, where that is enabled and its interval positive, and the
  -- poll interval otherwise.
  pub next_requeue_interval_lem :
      (cr : DatabaseQueryResource)
      → pos 0 <ℤ poll
      → let d = next_requeue_interval env cr poll in
        let change = change_poll_interval_for env cr.spec in
        (pos 0 <ℤ d)
        × (d ≤ℤ poll)
        × (d ≡ (if int_ltb (pos 0) change then int_min poll change else poll))
  unfolding next_requeue_interval int_min
  next_requeue_interval_lem cr h = ground arith

  after_detection-skip :
      (change : ℤ) (r : Detected env) (s : State W V)
      → (after_detection env poll change r s).0.0 ≡ false
      → (after_detection env poll change r s).0.1 ≡ change
  unfolding after_detection
  after_detection-skip change (ok b) s h = ground arith
  after_detection-skip change (err e) s h = cc

  detect-skip :
      (cd : ChangeDetectionConfig) (s : State W V)
      → (detect env cd poll s).0.0 ≡ false
      → (detect env cd poll s).0.1 ≡ change_poll_interval env cd
  unfolding detect
  detect-skip cd s h = after_detection-skip (change_poll_interval env cd) _ _ h

-- The clock has not gone back behind the time, if there is one.
abbrev pub NotAhead : Option Time → Time → Type 0
NotAhead none t = Unit
NotAhead (some c) t = c ≤ t

abbrev pub Within : ℤ → ℤ → Type 0
Within d change = (pos 0 <ℤ d) × (d ≤ℤ change)

module _ {W V D R : Type 0} (env : Env W V D R) (poll : ℤ) (cd : ChangeDetectionConfig)
    (positive : pos 0 <ℤ change_poll_interval env cd) where
  -- A duration since an earlier time is not negative.
  remaining :
      (change : ℤ) (t c : Time) → c ≤ t → sub_ℕ t c <ℤ change → Within (change -ℤ sub_ℕ t c) change
  remaining change t c h lt = omega (arith, -ℤ_parts change (sub_ℕ t c), sub_ℕ_parts t c)

  detect-Within :
      (s : State W V)
      → (detect env cd poll s).0.0 ≡ false
      → Within (detect env cd poll s).0.1 (change_poll_interval env cd)
  detect-Within s h = rw (detect-skip env poll cd s h) (positive, omega arith)

  check_due-Within :
      (t : Time) (checked : Option Time) (s : State W V)
      → NotAhead checked t
      → (check_due env cd poll t checked s).0.0 ≡ false
      → Within (check_due env cd poll t checked s).0.1 (change_poll_interval env cd)
  unfolding check_due
  check_due-Within t none s n h = detect-Within s h
  check_due-Within t (some c) s n h =
      let change = change_poll_interval env cd in
      elim (Bool-cases (int_ltb (sub_ℕ t c) change)) [
        | inl e ↦ rw e (remaining change t c n (ltb→lt _ _ e))
        | inr e ↦ rw e (detect-Within s (rw e at h))
      ]

  poll_due-Within :
      (t : Time) (polled : Option Time) (s : State W V)
      → NotAhead s.cr.status.last_change_check_time t
      → (poll_due env cd poll t polled s).0.0 ≡ false
      → Within (poll_due env cd poll t polled s).0.1 (change_poll_interval env cd)
  unfolding poll_due
  poll_due-Within t none s n h = cc
  poll_due-Within t (some p) s n h = elim (Bool-cases (int_leb poll (sub_ℕ t p))) [
    | inl e ↦ cc (rw e at h)
    | inr e ↦ rw e (check_due-Within t s.cr.status.last_change_check_time s n (rw e at h))
  ]

  -- Where full reconciliation is put off, the delay is positive and at most the change interval,
  -- so change detection is not starved: for an enabled detection with a positive interval, and a
  -- clock that is not behind the last check.
  pub should_reconcile-Within :
      (s : State W V)
      → s.cr.spec.change_detection ≡ some cd
      → NotAhead s.cr.status.last_change_check_time (env.now s.world).0
      → (should_reconcile env poll s).0.0 ≡ false
      → Within (should_reconcile env poll s).0.1 (change_poll_interval env cd)
  unfolding should_reconcile with_detection
  should_reconcile-Within s e n h = ground (
    arith,
    poll_due-Within (env.now s.world).0 s.cr.status.last_poll_time
        (record s { world = (env.now s.world).1 }) n,
  )

module _ {W V D R : Type 0} (env : Env W V D R) where
  pub change_poll_interval_of_parsed :
      (cd : ChangeDetectionConfig) (d : ℤ)
      → empty_text cd.change_poll_interval ≡ false
      → env.parse_duration cd.change_poll_interval ≡ ok d
      → change_poll_interval env cd ≡ d
  unfolding change_poll_interval interval_or_default
  change_poll_interval_of_parsed cd d n e = rw (n, e) refl
