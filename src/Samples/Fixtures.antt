-- ===== src/Samples/Fixtures.antt =====
-- A cluster in which every object exists and every second write meets a conflict, a database whose
-- one query returns one row, and a Secret that is missing in the namespace "none".
use db_query_operator.Prelude.{ℕ, ◌+◌, ◌%◌, true, false, none, some, [], ◌∷◌, ◌==◌, if◌then◌else◌}
use db_query_operator.Prelude.Int.{pos}
use db_query_operator.Prelude.Text.{Text, codes, text_eq}
use db_query_operator.Prelude.Maps.{Map}
use db_query_operator.Api.{
  DatabaseConnectionSecretRef, DatabaseQueryResource, ChangeDetectionConfig,
}
use db_query_operator.Cluster.{
  Object, ResourceId, ApiError, conflict, not_found, ok, err, namespaced, Env, State,
}
use db_query_operator.Reconcile.Cleanup.{database_query_finalizer}
use db_query_operator.Samples.Json.{codec}

abbrev pub Value : Type 0
Value = Map Text

abbrev pub make : ResourceId → Object Value
make id = record {
  group = id.group;
  version = id.version;
  kind = id.kind;
  namespace = id.namespace;
  name = id.name;
  resource_version = codes "7";
  labels = none;
  annotations = some ((codes "revision", codes "1") ∷ []);
  spec = none;
  body = none;
  rest = [];
}

abbrev pub config_map : Text → ResourceId
config_map name = record {
  group = [];
  version = codes "v1";
  kind = codes "ConfigMap";
  namespace = codes "default";
  name = name;
}

abbrev pub child : Object Value
child = record (make (config_map (codes "a"))) {
  annotations = some ((codes "note", codes "x") ∷ []);
}

abbrev pub secret_ref : DatabaseConnectionSecretRef
secret_ref = record {
  name = codes "db";
  namespace = [];
  uri_key = [];
  host_key = [];
  readonly_host_key = [];
  port_key = [];
  user_key = [];
  password_key = [];
  db_name_key = [];
  ssl_mode_key = [];
}

abbrev pub detection : ChangeDetectionConfig
detection = record {
  enabled = true;
  table_name = codes "users";
  timestamp_column = codes "updated_at";
  change_poll_interval = [];
}

abbrev pub cr : DatabaseQueryResource
cr = record {
  name = codes "q";
  namespace = codes "default";
  generation = 1;
  finalizers = database_query_finalizer ∷ [];
  deletion_timestamp = none;
  resource_version = codes "1";
  spec = record {
    poll_interval = codes "5m";
    database = record { type = codes "postgres"; connection_secret_ref = secret_ref };
    query = codes "SELECT 1";
    template = codes "x";
    prune = none;
    status_update_query_template = codes "UPDATE";
    change_detection = some detection;
  };
  status = record {
    conditions = none;
    last_poll_time = some 1000000000000;
    managed_resources = codes "/v1/ConfigMap/default/a" ∷ codes "bad" ∷ [];
    observed_generation = 1;
    last_change_check_time = some 1000000000000;
    last_reconcile_time = none;
    resource_versions = some ((codes "/v1/ConfigMap/default/a", codes "7") ∷ []);
  };
}

abbrev pub secret : Map Text
secret =
    (codes "host", codes "h")
    ∷ (codes "port", codes "1")
    ∷ (codes "username", codes "u")
    ∷ (codes "password", codes "p")
    ∷ (codes "dbname", codes "d")
    ∷ []

abbrev pub conflicted : ApiError
conflicted = record { reason = conflict; message = codes "conflict" }

-- The world counts the writes; the clock stands at 1001 seconds.
abbrev pub env : Env ℕ Value (Unit {0}) (Unit {0})
env = record {
  codec = codec;
  get = λ w id. (ok (make id), w);
  get_cr = λ w ns n. (ok cr, w);
  get_secret = λ w ns n. (
    if text_eq ns (codes "none")
        then err (record { reason = not_found; message = [] })
        else ok secret,
    w,
  );
  apply = λ w o. (ok o, w + 1);
  update = λ w o. (if w % 2 == 0 then err conflicted else ok o, w + 1);
  delete = λ w o. (ok tt, w + 1);
  update_cr = λ w d. (ok d, w + 1);
  update_cr_status = λ w d. (ok d, w + 1);
  rest_mapping = λ o. ok namespaced;
  now = λ w. (1001000000000, w);
  db_client_factory = none;
  connect_postgres = λ w c. (ok tt, w);
  query_read = λ w d q. (ok (tt ∷ []), w);
  exec = λ w d q. (ok tt, w + 1);
  close = λ w d. w;
  set_controller_reference = λ d o. ok o;
  remove_finalizer = λ d f. record d { finalizers = [] };
  set_status_condition = λ cs c. c ∷ cs;
  parse_template = λ t. ok tt;
  render_row = λ t r. ok (codes "a");
  render_resource = λ t o. ok (codes "UPDATE t");
  decode_object = λ t. ok (make (config_map t));
  print_row = λ r. [];
  parse_duration = λ t. ok (pos 300000000000);
  format_time = λ t. codes "1970-01-01T00:00:00Z";
  parse_uri = λ t. err (codes "bad");
  status_deep_equal = λ a b. false;
}

abbrev pub start : State ℕ Value
start = record { world = 0; calls = []; cr = cr }
