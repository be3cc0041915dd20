-- ===== src/Lib.antt =====
-- db-query-operator: a Kubernetes operator that polls a database, renders one child object for each
-- row of a query result, keeps the children in the cluster in step with the rows, deletes the stale
-- ones and writes the state of the children back to the database.
--
-- Parts, by file here and in the repository (all of the controller's code is in
-- internal/controller/databasequeryresource_controller.go):
--   Prelude and below: numbers, lists, Go strings and maps, and the laws shared by the parts.
--   Api: api/v1alpha1/databasequeryresource_types.go, the custom resource.
--   Cluster: what the controller calls and does not implement, as the record `Env` over a world `W`,
--     and the state of a pass: that world, the custom resource in memory, and the list of the writes
--     issued so far (Kubernetes writes and database statements).
--   Children: getObjectKey, collectAllChildResources, pruneStaleResources.
--   Applied: getLastAppliedConfig, setLastAppliedConfig, shouldUpdateResource, canonicalConfig,
--     configsEqual, applyDesiredState, updateWithConflictRetry.
--   Identifier: sanitizePGIdentifier, quotePGIdentifier.
--   Secret: getDBConfig, parsePostgreSQLURI. Database: getOrCreateDBClient.
--   Conditions: setCondition, truncateError.
--   Schedule: shouldReconcile, detectChanges, changePollIntervalFor, nextRequeueInterval.
--   ChildStatus: updateStatusForChildResources.
--   Reconcile: Reconcile, in the parts Rows (the loop over the rows), Managed (the list of managed
--     resources in the status), Full (a full pass), Cleanup (deletion with the finalizer) and Entry
--     (the whole, with the pass that skips and the deferred write of the status).
--   Validation: internal/webhook/v1alpha1/validation.go and the handlers beside it: the admission
--     checks of a custom resource. Delays says what they promise the scheduler.
--   Postgres: internal/util/postgres_client.go, splitStatements (the loop is a recursion over the
--     runes, with a count of those that an assignment to the index passes over) and redactPassword.
--     Client: the connections and the queries, over the functions of pgx as the record `Driver`.
--   Gvk: internal/util/gvk.go, ParseGVKs.
--   Server: not code; how each resource of the cluster stands (absent, live, or marked for deletion),
--     what it means that nobody else writes to it, and that one resource may have a key for each
--     version of its kind, for the theorem on a whole pass.
--   Events: SetupWithManagerAndGVKs, statusChangePredicate, specOrLifecycleChangedPredicate.
--   Functions: internal/controller/funcs.go, the functions of the templates.
--   Start: main.go, over controller-runtime as the record `Runtime`.
--   Mock: internal/util/mock_database_client.go, the test double of the database client.
--   Samples: a concrete environment that meets the hypotheses, and the theorems applied to it.
--
-- State and effects. A step is a function from a state to a result and a state. Each function of `Env`
-- takes the world and returns a new one, which is free to differ by what other writers did in the
-- meantime. A Go error is a value, and a step always returns. Logging is left out. A write is recorded
-- whether or not it succeeds; reads are not recorded.
--
-- Texts. A Go string is read as the list of its code points, so valid UTF-8 is assumed; separators
-- are ASCII, where splitting by bytes and by code points agree. truncateError counts bytes, and is
-- given them by `encode`. The messages of the other conditions are left as code points.
--
-- Bounds. Times are nanoseconds since 1970 as natural numbers, durations are integers; the limits of
-- int64 and the rounding of times in JSON to seconds are not modelled. updateWithConflictRetry has
-- three attempts and the deferred status write has three, as in the code; every other loop runs over
-- a list. Nothing needs fuel.
--
-- Not modelled: the generated deep copies (values are immutable here), the registration of types with
-- the scheme, the Kubernetes client, meta.SetStatusCondition, controllerutil and the database
-- driver, which are third-party; text/template, sprig, YAML, TOML, JSON, url.Parse, time.ParseDuration (which
-- computes fractions in floating point), time.Format and reflect.DeepEqual, which are functions of
-- `Env`, `Codec` or `Formats`. Theorems that rely on one state what they need of it: `IsFaithful` (a read
-- returns the object asked for), `IsJson` and `ShowsAnnotations` (JSON round trips). A Go map is an
-- association list; where the code ranges over a map the result does not depend on the order.
pub mod Prelude
pub mod Api
pub mod Cluster
pub mod Children
pub mod Server
pub mod Applied
pub mod Identifier
pub mod Secret
pub mod Database
pub mod Schedule
pub mod Conditions
pub mod ChildStatus
pub mod Reconcile
pub mod Gvk
pub mod Events
pub mod Functions
pub mod Start
pub mod Mock
pub mod Validation
pub mod Postgres
pub mod Samples
