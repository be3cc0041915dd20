-- ===== src/Validation.antt =====
-- internal/webhook/v1alpha1/validation.go and databasequeryresource_webhook.go beside it: the admission checks of a custom resource. `time.ParseDuration` and the parser of Go templates,
-- by a template's name and its text, are parameters.
pub mod Accepts
pub mod Delays
use db_query_operator.Prelude.{
  Bool, true, false, not, ◌&&◌, Option, none, some, List, [], ◌∷◌, ◌++◌, leb, if◌then◌else◌, ℕ,
}
use db_query_operator.Prelude.Int.{ℤ, pos, int_leb}
use db_query_operator.Prelude.Lists.{length, take}
use db_query_operator.Prelude.Text.{Text, codes, empty_text, trim_space}
use db_query_operator.Api.{DatabaseQueryResource, DatabaseQueryResourceSpec, ChangeDetectionConfig}
use db_query_operator.Cluster.{Reply, ok, err}

abbrev pub max_error_value_runes : ℕ
max_error_value_runes = 80

-- `field.Error`: the names of the path, from `spec` down, and the detail. The value of an invalid
-- field comes before the detail.
pub data FieldError : Type 0 where
  required : List Text → Text → FieldError
  invalid : List Text → Text → Text → FieldError

unfoldable pub truncate : Text → Text
truncate value =
    if leb (length value) max_error_value_runes
    then value
    else take max_error_value_runes value ++ codes "..."

-- `strings.TrimSpace(s) == ""`
unfoldable pub is_blank : Text → Bool
unfolding trim_space
is_blank s = empty_text (trim_space s)

abbrev spec_path : List Text → List Text
spec_path names = codes "spec" ∷ names

-- The list that an error is appended to where there is one.
abbrev pub reported : Option FieldError → List FieldError
reported none = []
reported (some e) = e ∷ []

-- The secret's name.
unfoldable pub check_secret : DatabaseQueryResourceSpec → List FieldError
check_secret spec =
    if is_blank spec.database.connection_secret_ref.name
    then required (spec_path (codes "database" ∷ codes "connectionSecretRef" ∷ codes "name" ∷ []))
        (codes "name of the Secret holding the database connection details must not be empty")
      ∷ []
    else []

unfoldable pub check_query : DatabaseQueryResourceSpec → List FieldError
check_query spec =
    if empty_text spec.query
    then required (spec_path (codes "query" ∷ [])) (codes "query must not be empty") ∷ []
    else if is_blank spec.query
    then invalid (spec_path (codes "query" ∷ [])) spec.query
        (codes "query must not consist of whitespace only")
      ∷ []
    else []

-- `apierrors.NewInvalid` of a name and its violations, where there are any.
pub data Verdict : Type 0 where
  admitted : Verdict
  rejected : Text → List FieldError → Verdict

verdict : Text → List FieldError → Verdict
verdict name [] = admitted
verdict name (e ∷ es) = rejected name (e ∷ es)

unfoldable pub parsed_duration : List Text → Text → Reply Text ℤ → ℤ × Option FieldError
parsed_duration path value (err e) = (
  pos 0,
  some (
      invalid path value
        (codes "must be a valid Go duration such as \"30s\", \"5m\" or \"1h\": " ++ e)),
)
parsed_duration path value (ok d) =
    if int_leb d (pos 0)
    then (
      d,
      some (
          invalid path value (
            codes
              "must be greater than zero; a non-positive interval would poll the database continuously")),
    )
    else (d, none)

module _ (parse_duration : Text → Reply Text ℤ) where
  unfoldable pub validate_duration : List Text → Text → Text → ℤ × Option FieldError
  unfolding parsed_duration
  validate_duration path name value =
      if is_blank value
      then (pos 0, some (required path (name ++ codes " must not be empty")))
      else parsed_duration path value (parse_duration value)

  abbrev pub poll : DatabaseQueryResourceSpec → ℤ × Option FieldError
  poll spec =
      validate_duration (spec_path (codes "pollInterval" ∷ [])) (codes "pollInterval")
        spec.poll_interval

  abbrev pub change_poll : ChangeDetectionConfig → ℤ × Option FieldError
  change_poll cd =
      validate_duration (spec_path (codes "changeDetection" ∷ codes "changePollInterval" ∷ []))
        (codes "changePollInterval") cd.change_poll_interval

  abbrev no_error : Option FieldError → Bool
  no_error none = true
  no_error (some e) = false

  -- The warning that change detection makes nothing faster.
  unfoldable pub slow_warning : ChangeDetectionConfig → DatabaseQueryResourceSpec → List Text
  slow_warning cd spec =
      if cd.enabled && no_error (poll spec).1 && int_leb (poll spec).0 (change_poll cd).0
      then (codes "spec.changeDetection.changePollInterval ("
          ++ (cd.change_poll_interval
              ++ (codes ") is not shorter than spec.pollInterval ("
                  ++ (spec.poll_interval
                      ++ codes
                          "): change detection cannot make reconciliation more responsive than the full poll interval"))))
        ∷ []
      else []

  -- `warnings` are those for an interval that is valid.
  unfoldable pub detection_report : Option FieldError → List Text → List FieldError × List Text
  detection_report (some e) warnings = (e ∷ [], [])
  detection_report none warnings = ([], warnings)

  unfoldable pub check_detection :
      DatabaseQueryResourceSpec → Option ChangeDetectionConfig → List FieldError × List Text
  unfolding detection_report
  check_detection spec none = ([], [])
  check_detection spec (some cd) = detection_report (change_poll cd).1 (slow_warning cd spec)

module _ (parse_template : Text → Text → Reply Text (Unit {0})) where
  unfoldable pub validate_template : List Text → Text → Text → Option FieldError
  validate_template path name tmpl = elim (parse_template name tmpl) [
    | ok u ↦ none
    | err e ↦ some (invalid path (truncate tmpl) (codes "must be a valid Go template: " ++ e))
  ]

  unfoldable pub check_template : DatabaseQueryResourceSpec → List FieldError
  check_template spec =
      let path = spec_path (codes "template" ∷ []) in
      if empty_text spec.template
      then required path (codes "template must not be empty") ∷ []
      else if is_blank spec.template
      then invalid path spec.template (codes "template must not consist of whitespace only") ∷ []
      else reported (validate_template path (codes "resourceTemplate") spec.template)

  unfoldable pub check_status_template : DatabaseQueryResourceSpec → List FieldError
  check_status_template spec =
      if not (is_blank spec.status_update_query_template)
      then reported (
          validate_template (spec_path (codes "statusUpdateQueryTemplate" ∷ []))
            (codes "statusUpdateQuery") spec.status_update_query_template)
      else []

module _ (parse_duration : Text → Reply Text ℤ)
    (parse_template : Text → Text → Reply Text (Unit {0})) where
  unfoldable pub validate_spec : DatabaseQueryResourceSpec → List FieldError × List Text
  validate_spec spec =
      let (detection_errors, warnings) =
        check_detection parse_duration spec spec.change_detection in
      (
        reported (poll parse_duration spec).1
            ++ (check_secret spec
                ++ (check_query spec
                    ++ (check_template parse_template spec
                        ++ (check_status_template parse_template spec ++ detection_errors)))),
        warnings,
      )

  unfoldable pub validate_database_query_resource : DatabaseQueryResource → List Text × Verdict
  unfolding verdict
  validate_database_query_resource dbqr =
      let (errors, warnings) = validate_spec dbqr.spec in (warnings, verdict dbqr.name errors)

  unfoldable pub validate_create : DatabaseQueryResource → List Text × Verdict
  validate_create obj = validate_database_query_resource obj

  unfoldable pub validate_update : (old new : DatabaseQueryResource) → List Text × Verdict
  validate_update old new = validate_database_query_resource new

  unfoldable pub validate_delete : DatabaseQueryResource → List Text × Verdict
  validate_delete obj = ([], admitted)
