-- ===== src/Validation/Delays.antt =====
-- What the admission checks promise the scheduler of internal/controller: the delay that a
-- full pass over an admitted resource asks for.
use mathlib.Core.Path.{subst}
use db_query_operator.Prelude.{
  true, false, Bool-cases, none, some, [], ◌≡◌, refl, sym, ap, ◌∙◌, inl, inr, arith,
}
use db_query_operator.Prelude.Int.{ℤ, pos, ◌<ℤ◌, int_leb}
use db_query_operator.Prelude.Text.{Text}
use db_query_operator.Api.{DatabaseQueryResource, ChangeDetectionConfig}
use db_query_operator.Cluster.{Reply, ok, Env, State}
use db_query_operator.Schedule.{
  change_poll_interval, change_poll_interval_for, next_requeue_interval,
}
use db_query_operator.Schedule.Intervals.{change_poll_interval_of_parsed}
use db_query_operator.Reconcile.Full.{full_reconcile}
use db_query_operator.Reconcile.Full.Outcome.{Wakes, full_reconcile-Wakes}
use db_query_operator.Validation.{
  validate_spec, check_detection, slow_warning, detection_report, poll, change_poll,
}
use db_query_operator.Validation.Accepts.{
  IsInterval, IsDetection, nonblank, validate_spec_iff, validate_duration_of_interval,
}

ok-injective : (a b : ℤ) → ◌≡◌ {A = Reply Text ℤ} (ok a) (ok b) → a ≡ b
ok-injective a b h = cc h

module _ {W V D R : Type 0} (env : Env W V D R)
    (parse_template : Text → Text → Reply Text (Unit {0})) (cr : DatabaseQueryResource) where
  -- The scheduler reads the interval that the checks have read.
  change_poll_interval_of_interval :
      (cd : ChangeDetectionConfig) (d : ℤ)
      → IsInterval env.parse_duration cd.change_poll_interval d
      → change_poll_interval env cd ≡ d
  change_poll_interval_of_interval cd d (b, e, p) =
      change_poll_interval_of_parsed env cd d (nonblank cd.change_poll_interval b) e

  IsInterval-of_parsed :
      (value : Text) (interval : ℤ)
      → (d : ℤ) × IsInterval env.parse_duration value d
      → env.parse_duration value ≡ ok interval
      → IsInterval env.parse_duration value interval
  IsInterval-of_parsed value interval (d, v) e =
      let (b, r, p) = v in (b, e, rw (← ok-injective d interval (sym r ∙ e)) p)

  -- However a full pass over a resource without violations ends, it asks to be woken after a delay
  -- above zero and at most the poll interval, also where the Secret, the database, the query, a row
  -- or the pruning fails. The operator parses each template that the checks have parsed.
  pub validate_spec-Wakes :
      (interval : ℤ) (s : State W V)
      → (validate_spec env.parse_duration parse_template cr.spec).0 ≡ []
      → env.parse_duration cr.spec.poll_interval ≡ ok interval
      → s.cr.spec ≡ cr.spec
      → ((name tmpl : Text) → parse_template name tmpl ≡ ok tt → env.parse_template tmpl ≡ ok tt)
      → Wakes interval (full_reconcile env interval s).0
  validate_spec-Wakes interval s h e same agree =
      let v = (validate_spec_iff env.parse_duration parse_template cr.spec).0 h in
      let (b, r, p) = IsInterval-of_parsed cr.spec.poll_interval interval v.interval e in
      full_reconcile-Wakes env interval p tt s
        (ap (λ spec. env.parse_template spec.template) same ∙ agree _ _ v.template.1.1)

  slow_warning-none :
      (cd : ChangeDetectionConfig) (interval change : ℤ)
      → slow_warning env.parse_duration cd cr.spec ≡ []
      → cd.enabled ≡ true
      → poll env.parse_duration cr.spec ≡ (interval, none)
      → change_poll env.parse_duration cd ≡ (change, none)
      → int_leb interval change ≡ false
  unfolding slow_warning
  slow_warning-none cd interval change h on p c = elim (Bool-cases (int_leb interval change)) [
    | inl l ↦ cc (rw (on, p, c, l) at h)
    | inr l ↦ l
  ]

  warnings-check_detection :
      (cd : ChangeDetectionConfig) (change : ℤ)
      → change_poll env.parse_duration cd ≡ (change, none)
      → (check_detection env.parse_duration cr.spec (some cd)).1
        ≡ slow_warning env.parse_duration cd cr.spec
  unfolding check_detection detection_report
  warnings-check_detection cd change e = rw e refl

  change_poll_interval_for_enabled :
      (cd : ChangeDetectionConfig)
      → cr.spec.change_detection ≡ some cd
      → cd.enabled ≡ true
      → change_poll_interval_for env cr.spec ≡ change_poll_interval env cd
  unfolding change_poll_interval_for
  change_poll_interval_for_enabled cd c on = rw (c, on) refl

  next_requeue_interval_of_shorter :
      (interval change : ℤ)
      → change_poll_interval_for env cr.spec ≡ change
      → pos 0 <ℤ change
      → int_leb interval change ≡ false
      → (next_requeue_interval env cr interval ≡ change) × (change <ℤ interval)
  unfolding next_requeue_interval
  next_requeue_interval_of_shorter interval change e p l = rw e (ground arith)

  -- Where the checks neither reject nor warn about an enabled change detection, the delay that
  -- `nextRequeueInterval` gives a full pass is its interval, shorter than the poll interval.
  pub validate_spec_quiet :
      (interval : ℤ) (cd : ChangeDetectionConfig)
      → validate_spec env.parse_duration parse_template cr.spec ≡ ([], [])
      → env.parse_duration cr.spec.poll_interval ≡ ok interval
      → cr.spec.change_detection ≡ some cd
      → cd.enabled ≡ true
      → (next_requeue_interval env cr interval ≡ change_poll_interval env cd)
        × (change_poll_interval env cd <ℤ interval)
  unfolding validate_spec
  validate_spec_quiet interval cd h e c on =
      let v = (validate_spec_iff env.parse_duration parse_template cr.spec).0 (ap (λ r. r.0) h) in
      let (b, r, p) = IsInterval-of_parsed cr.spec.poll_interval interval v.interval e in
      let detection : (d : ℤ) × IsInterval env.parse_duration cd.change_poll_interval d =
        subst (λ o. IsDetection env.parse_duration o) c v.detection in
      let polled =
        validate_duration_of_interval env.parse_duration _ _ cr.spec.poll_interval interval
          (b, e, p) in
      let checked =
        validate_duration_of_interval env.parse_duration _ _ cd.change_poll_interval detection.0
          detection.1 in
      let no_warning =
        sym (warnings-check_detection cd detection.0 checked)
        ∙ ap (λ o. (check_detection env.parse_duration cr.spec o).1) (sym c)
        ∙ ap (λ r. r.1) h in
      let shorter = slow_warning-none cd interval detection.0 no_warning on polled checked in
      let reads = change_poll_interval_of_interval cd detection.0 detection.1 in
      let (_, _, above) = detection.1 in
      rw reads (
        next_requeue_interval_of_shorter interval detection.0
          (change_poll_interval_for_enabled cd c on ∙ reads) above shorter)
