-- ===== src/Samples/Admission.antt =====
-- Witnesses for the theorems on the admission checks: a duration text is "10s", or five minutes.
use db_query_operator.Prelude.{ℕ, ap, some, [], ◌≡◌, refl, ◌↔◌, if◌then◌else◌}
use db_query_operator.Prelude.Int.{ℤ, pos, ◌<ℤ◌}
use db_query_operator.Prelude.Text.{
  Text, codes, text_eq, trim_space, trim_left, trim_right, is_space,
}
use db_query_operator.Api.{DatabaseQueryResource, ChangeDetectionConfig}
use db_query_operator.Cluster.{Reply, ok, Env, State}
use db_query_operator.Schedule.{change_poll_interval, next_requeue_interval}
use db_query_operator.Validation.{
  validate_spec, is_blank, validate_duration, parsed_duration, check_secret, check_query,
  check_template, check_status_template, validate_template, check_detection, detection_report,
  slow_warning,
}
use db_query_operator.Validation.Accepts
use db_query_operator.Validation.Accepts.{IsValid}
use db_query_operator.Validation.Delays
use db_query_operator.Reconcile.Full.{full_reconcile}
use db_query_operator.Reconcile.Full.Outcome.{Wakes}
use db_query_operator.Samples.Fixtures.{Value, env, cr, start, detection}

abbrev durations : Text → Reply Text ℤ
durations t = ok (if text_eq t (codes "10s") then pos 10000000000 else pos 300000000000)

abbrev templates : Text → Text → Reply Text (Unit {0})
templates name t = ok tt

abbrev fast : ChangeDetectionConfig
fast = record detection { change_poll_interval = codes "10s" }

abbrev admitted_cr : DatabaseQueryResource
admitted_cr = record cr {
  spec = record cr.spec {
    poll_interval = codes "5m";
    query = codes "SELECT 1";
    template = codes "kind: A";
    change_detection = some fast;
  };
}

abbrev cluster : Env ℕ Value (Unit {0}) (Unit {0})
cluster = record env { parse_duration = durations }

no_violation : validate_spec durations templates admitted_cr.spec ≡ ([], [])
unfolding validate_spec is_blank trim_space trim_left trim_right is_space validate_duration
    parsed_duration check_secret check_query check_template check_status_template validate_template
    check_detection detection_report slow_warning text_eq
no_violation = refl

validate_spec_iff_example :
    ((validate_spec durations templates admitted_cr.spec).0 ≡ [])
    ↔ IsValid durations templates admitted_cr.spec
validate_spec_iff_example = Accepts.validate_spec_iff durations templates admitted_cr.spec

abbrev admitted : State ℕ Value
admitted = record start { cr = admitted_cr }

validate_spec-Wakes_example :
    Wakes (pos 300000000000) (full_reconcile cluster (pos 300000000000) admitted).0
unfolding text_eq
validate_spec-Wakes_example =
    Delays.validate_spec-Wakes cluster templates admitted_cr (pos 300000000000) admitted
      (ap (λ r. r.0) no_violation) refl refl (λ name tmpl h. refl)

validate_spec_quiet_example :
    (next_requeue_interval cluster admitted_cr (pos 300000000000)
      ≡ change_poll_interval cluster fast)
    × (change_poll_interval cluster fast <ℤ pos 300000000000)
unfolding text_eq
validate_spec_quiet_example =
    Delays.validate_spec_quiet cluster templates admitted_cr (pos 300000000000) fast no_violation
      refl refl refl
