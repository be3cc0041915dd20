-- ===== src/Api.antt =====
-- api/v1alpha1/databasequeryresource_types.go: the custom resource, its spec and its status.
-- `metav1.ObjectMeta` is cut down to the fields that the operator reads or writes. A pointer or a
-- map that may be nil is an `Option`. Times are nanoseconds since 1970.
use db_query_operator.Prelude.{ℕ, Bool, true, Option, none, some, List}
use db_query_operator.Prelude.Text.{Text}
use db_query_operator.Prelude.Maps.{Map}

abbrev pub Time : Type 0
Time = ℕ

pub record DatabaseConnectionSecretRef : Type 0 where
  pub name : Text
  pub namespace : Text
  pub uri_key : Text
  pub host_key : Text
  pub readonly_host_key : Text
  pub port_key : Text
  pub user_key : Text
  pub password_key : Text
  pub db_name_key : Text
  pub ssl_mode_key : Text

pub record DatabaseSpec : Type 0 where
  pub type : Text
  pub connection_secret_ref : DatabaseConnectionSecretRef

pub record ChangeDetectionConfig : Type 0 where
  pub enabled : Bool
  pub table_name : Text
  pub timestamp_column : Text
  pub change_poll_interval : Text

pub record DatabaseQueryResourceSpec : Type 0 where
  pub poll_interval : Text
  pub database : DatabaseSpec
  pub query : Text
  pub template : Text
  pub prune : Option Bool
  pub status_update_query_template : Text
  pub change_detection : Option ChangeDetectionConfig

-- `metav1.ConditionStatus`.
pub data ConditionStatus : Type 0 where
  condition_true condition_false condition_unknown : ConditionStatus

-- `metav1.Condition`.
pub record Condition : Type 0 where
  pub type : Text
  pub status : ConditionStatus
  pub observed_generation : ℕ
  pub last_transition_time : Time
  pub reason : Text
  pub message : Text

pub record DatabaseQueryResourceStatus : Type 0 where
  pub conditions : Option (List Condition)
  pub last_poll_time : Option Time
  pub managed_resources : List Text
  pub observed_generation : ℕ
  pub last_change_check_time : Option Time
  pub last_reconcile_time : Option Time
  pub resource_versions : Option (Map Text)

pub record DatabaseQueryResource : Type 0 where
  pub name : Text
  pub namespace : Text
  pub generation : ℕ
  pub finalizers : List Text
  pub deletion_timestamp : Option Time
  pub resource_version : Text
  pub spec : DatabaseQueryResourceSpec
  pub status : DatabaseQueryResourceStatus

unfoldable pub get_prune : DatabaseQueryResourceSpec → Bool
get_prune s = elim s.prune [ none ↦ true | some b ↦ b ]
