-- ===== src/Samples/Witnesses.antt =====
-- The theorems at concrete inputs.
use Prim.Native.Nat.{min}
use db_query_operator.Prelude.{
  ℕ, ◌-◌, Bool, true, false, not, ◌≡◌, ◌⊎◌, List, refl, sym, ap, none, some, [], ◌∷◌, ◌++◌, arith,
  map, if◌then◌else◌,
}
use db_query_operator.Prelude.Int.{pos, ◌<ℤ◌}
use db_query_operator.Prelude.Lists.{length, keep, All, take}
use db_query_operator.Prelude.Text.{Text, codes, contains, split, join, text_eq}
use db_query_operator.Prelude.Maps.{Map, lookup, insert}
use db_query_operator.Api.{get_prune}
use db_query_operator.Cluster.{Object, Reply, ok, err, deleted, State}
use db_query_operator.Children.{
  get_object_key, object_id, is_stale, collect_id, collect_all_child_resources,
}
use db_query_operator.Children.Collect.{IsFaithful, member}
use db_query_operator.Reconcile.Rows.{managed_keys, row_errors}
use db_query_operator.Reconcile.Full.{prune_phase, full_reconcile}
use db_query_operator.Reconcile.Full.Pruned
use db_query_operator.Reconcile.Full.Pruned.{belongs, children_of}
use db_query_operator.Reconcile.Full.Outage
use db_query_operator.Reconcile.Full.Outage.{IsUntouched}
use db_query_operator.Secret.{get_db_config, secret_config}
use db_query_operator.Applied.{
  last_applied_config_annotation, entries, without_last_applied, set_last_applied_config,
  apply_desired_state, update_decision, update_with_conflict_retry, max_retries,
}
use db_query_operator.Applied.Converges
use db_query_operator.Applied.Retry
use db_query_operator.Applied.Written
use db_query_operator.Applied.Written.{Accepted}
use db_query_operator.Applied.Retry.{Updates}
use db_query_operator.Reconcile.Cleanup.{has_finalizer, clean_up}
use db_query_operator.Reconcile.Cleanup.Complete
use db_query_operator.Reconcile.Cleanup.Complete.{Ends}
use db_query_operator.Schedule.{should_reconcile, change_poll_interval, next_requeue_interval}
use db_query_operator.Schedule.Forced
use db_query_operator.Schedule.Intervals
use db_query_operator.Schedule.Intervals.{Within}
use db_query_operator.Identifier.{IdentifierError, sanitize_pg_identifier, valid_pg_unquoted_id}
use db_query_operator.Identifier.Quoting
use db_query_operator.Identifier.Quoting.{quoted, is_one_name}
use db_query_operator.Applied.Overlay
use db_query_operator.Children.{prune_one, prune_stale_resources}
use db_query_operator.Children.Keys
use db_query_operator.Children.Keys.{IsSlashFree}
use db_query_operator.Children.Prune
use db_query_operator.Children.Prune.{version_of}
use db_query_operator.ChildStatus.{update_one, process, is_seen, update_status_for_child_resources}
use db_query_operator.ChildStatus.Skips
use db_query_operator.Conditions.{truncate_error}
use db_query_operator.Conditions.Truncation
use db_query_operator.Database.{get_or_create_db_client, is_postgres, connect_with}
use db_query_operator.Reconcile.Managed.{record_managed, is_managed, sort_strings, keys_of}
use db_query_operator.Reconcile.Managed.Sorted
use db_query_operator.Reconcile.Managed.Sorted.{IsSorted, lookup_version}
use db_query_operator.Reconcile.Full.{requeue_after, finish}
use db_query_operator.Reconcile.Full.Outcome
use db_query_operator.Reconcile.Full.Outcome.{Recorded}
use db_query_operator.Secret.{get_value, readonly_host, assemble, fields_config}
use db_query_operator.Secret.Fields
use db_query_operator.Secret.Fields.{Holds}
use db_query_operator.Samples.Json.{codec, codec-IsJson, codec_shows, write_map}
use db_query_operator.Samples.Fixtures.{
  detection, Value, make, config_map, child, secret_ref, secret, cr, env, start,
}

ok-eq : {A B : Type 0} {a b : A} → ◌≡◌ {A = Reply B A} (ok a) (ok b) → a ≡ b
ok-eq h = cc

env-IsFaithful : IsFaithful env
env-IsFaithful w id o h = ap object_id (sym (ok-eq h))

-- The row of the first child was processed, and that of another one was not.
abbrev outcomes : List (Reply Text (Object Value))
outcomes = ok child ∷ err (codes "no such column") ∷ []

prune_phase_safe_example :
    let stale =
      if get_prune cr.spec
      then keep (λ o. not (belongs outcomes o)) (children_of env start)
      else [] in
    ((prune_phase env (managed_keys [] outcomes) start).1.calls ≡ [] ++ map deleted stale)
    × All (λ o. member (get_object_key o) cr.status.managed_resources ≡ true) stale
prune_phase_safe_example = Pruned.prune_phase_safe env outcomes start env-IsFaithful

-- A custom resource whose Secret is missing.
abbrev stranded : State ℕ Value
stranded = record start { cr = record cr { namespace = codes "none" } }

missing : Outage.config_read env stranded ≡ err (codes "secret 'none/db' not found")
unfolding get_db_config secret_config text_eq
missing = refl

full_reconcile-IsUntouched_example :
    IsUntouched stranded (full_reconcile env (pos 300000000000) stranded).1
full_reconcile-IsUntouched_example =
    Outage.full_reconcile-IsUntouched env (pos 300000000000) stranded (Outage.no_config _ missing)

-- The object with its configuration recorded.
abbrev recorded : Object Value → Object Value
recorded o = record o {
  annotations = some (
      insert last_applied_config_annotation
        (write_map (entries (without_last_applied o.annotations))) (entries o.annotations));
}

recorded-ok : (o : Object Value) → set_last_applied_config codec o ≡ ok (recorded o)
unfolding set_last_applied_config
recorded-ok o = refl

update_decision_after_write_example : update_decision codec child (ok (recorded child)) ≡ ok false
update_decision_after_write_example =
    Converges.update_decision_after_write codec codec-IsJson child (recorded child) child
      (recorded child) (recorded-ok child) refl refl

abbrev live_child : Object Value
live_child = make (config_map (codes "a"))

update_with_conflict_retry-Updates_example :
    Updates env child max_retries live_child start
      (update_with_conflict_retry env live_child child start).1
update_with_conflict_retry-Updates_example =
    Retry.update_with_conflict_retry-Updates env child live_child start

second_attempt : (update_with_conflict_retry env live_child child start).0 ≡ ok tt
unfolding update_with_conflict_retry set_last_applied_config
second_attempt = refl

update_with_conflict_retry-Accepted_example :
    Accepted env child (update_with_conflict_retry env live_child child start).1
update_with_conflict_retry-Accepted_example =
    Written.update_with_conflict_retry-Accepted env child live_child start tt second_attempt

clean_up-Ends_example :
    Ends env
      (collect_all_child_resources env start).0
      start
      (collect_all_child_resources env start).1
      (clean_up env start).0
      (clean_up env start).1
unfolding has_finalizer text_eq
clean_up-Ends_example = Complete.clean_up-Ends env start refl

-- A custom resource whose spec has changed.
abbrev edited : State ℕ Value
edited = record start { cr = record cr { generation = 2 } }

should_reconcile_forced_example :
    ((should_reconcile env (pos 300000000000) edited).0 ≡ (true, pos 300000000000))
    × ((should_reconcile env (pos 300000000000) edited).1.calls ≡ [])
    × ((should_reconcile env (pos 300000000000) edited).1.cr ≡ edited.cr)
should_reconcile_forced_example = Forced.should_reconcile_forced env (pos 300000000000) edited refl

interval_positive : pos 0 <ℤ change_poll_interval env detection
unfolding change_poll_interval
interval_positive = omega arith

put_off : (should_reconcile env (pos 300000000000) start).0.0 ≡ false
unfolding should_reconcile change_poll_interval
put_off = refl

should_reconcile-Within_example :
    Within (should_reconcile env (pos 300000000000) start).0.1 (change_poll_interval env detection)
should_reconcile-Within_example =
    Intervals.should_reconcile-Within env (pos 300000000000) detection interval_positive start refl
      (omega arith) put_off

sanitize_pg_identifier_accepts_example :
    sanitize_pg_identifier (codes "public.users")
    ≡ ok (join (codes ".") (map quoted (split b'.' (codes "public.users"))))
unfolding contains split valid_pg_unquoted_id
sanitize_pg_identifier_accepts_example =
    Quoting.sanitize_pg_identifier_accepts (codes "public.users") refl refl

sanitize_pg_identifier_rejects_example :
    (e : IdentifierError) × (sanitize_pg_identifier (codes "a; DROP TABLE b") ≡ err e)
unfolding contains split valid_pg_unquoted_id
sanitize_pg_identifier_rejects_example =
    Quoting.sanitize_pg_identifier_rejects (codes "a; DROP TABLE b") refl refl

sanitize_pg_identifier_lets_through_example :
    (sanitize_pg_identifier (quoted (codes "a\" WHERE true; DROP TABLE b; --"))
      ≡ ok (quoted (codes "a\" WHERE true; DROP TABLE b; --")))
    × (is_one_name (quoted (codes "a\" WHERE true; DROP TABLE b; --")) ≡ false)
unfolding contains
sanitize_pg_identifier_lets_through_example =
    Quoting.sanitize_pg_identifier_lets_through (codes "a") b' '
      (codes "WHERE true; DROP TABLE b; --") refl (λ e. absurd (omega (arith, e))) refl refl

prune_phase_skipped_example :
    (prune_phase env
      (managed_keys {V = Value} [] (err (codes "no such column") ∷ []))
      start).1.calls
    ≡ [] ++ map deleted (children_of env start)
unfolding get_prune
prune_phase_skipped_example =
    Pruned.prune_phase_skipped env (err (codes "no such column") ∷ []) start (tt, tt) refl

-- What an update of the live child writes.
abbrev merged : Object Value
merged = recorded (apply_desired_state codec live_child child)

update_decision_foreign_example : update_decision codec child (ok merged) ≡ ok true
unfolding lookup text_eq
update_decision_foreign_example =
    Converges.update_decision_foreign codec codec-IsJson codec_shows live_child child merged merged
      (codes "revision") (refl, tt) refl refl refl
      (recorded-ok (apply_desired_state codec live_child child)) refl

child-IsSlashFree : IsSlashFree (object_id child)
unfolding contains
child-IsSlashFree = record {
  group = refl;
  version = refl;
  kind = refl;
  namespace = refl;
  name = refl;
}

collect_id-get_object_key_example : collect_id (get_object_key child) ≡ some (object_id child)
collect_id-get_object_key_example = Keys.collect_id-get_object_key child child-IsSlashFree refl refl

abbrev two_keys : Map Bool
two_keys = (codes "b", true) ∷ (codes "a", true) ∷ []

record_managed_example :
    let t = record_managed two_keys cr.status in
    IsSorted t.managed_resources
    × ((k : Text) → member k t.managed_resources ≡ is_managed two_keys k)
    × ((k : Text)
        → lookup_version k t.resource_versions ≡ (
            if member k t.managed_resources
            then lookup_version k cr.status.resource_versions
            else none))
record_managed_example = Sorted.record_managed_lem two_keys cr.status

-- A custom resource that has recorded no version yet.
abbrev unseen : State ℕ Value
unseen = record start { cr = record cr { status = record cr.status { resource_versions = none } } }

updated_once : (update_one env secret live_child unseen).0.0 ≡ 1
unfolding update_one process is_seen lookup get_or_create_db_client is_postgres connect_with
updated_once = refl

update_one_once_example :
    update_one env secret live_child (update_one env secret live_child unseen).1
    ≡ ((0, []), (update_one env secret live_child unseen).1)
update_one_once_example = Skips.update_one_once env secret live_child unseen updated_once

update_status-seen_example :
    ((update_status_for_child_resources env secret (live_child ∷ []) start).0 ≡ 0)
    × ((update_status_for_child_resources env secret (live_child ∷ []) start).1.world ≡ 0)
    × ((update_status_for_child_resources env secret (live_child ∷ []) start).1.calls ≡ [])
unfolding is_seen lookup get_object_key text_eq join
update_status-seen_example = Skips.update_status-seen env secret (live_child ∷ []) start (refl, tt)

version-prune_of_key_example :
    version_of (codes "k") (prune_stale_resources env ((codes "k", true) ∷ []) (child ∷ []) start).1
    ≡ version_of (codes "k") start
unfolding lookup text_eq
version-prune_of_key_example =
    Prune.version-prune_of_key env ((codes "k", true) ∷ []) (child ∷ []) (codes "k") start refl

pruned_without_errors : (prune_stale_resources env [] (child ∷ []) start).0 ≡ []
unfolding prune_stale_resources prune_one is_stale lookup
pruned_without_errors = refl

prune_forgets_example :
    All
      (λ (item : Object Value).
        version_of (get_object_key item) (prune_stale_resources env [] (child ∷ []) start).1 ≡ none)
      (keep (is_stale []) (child ∷ []))
prune_forgets_example = Prune.prune_forgets env [] (child ∷ []) start pruned_without_errors

abbrev connection : Map Text
unfolding fields_config
connection = elim (fields_config secret_ref secret (codes "default/db")) [ ok c ↦ c | err e ↦ [] ]

accepted : fields_config secret_ref secret (codes "default/db") ≡ ok connection
unfolding connection get_value assemble readonly_host lookup insert text_eq
accepted = refl

fields_config-Holds_example :
    Holds secret_ref secret (codes "default/db") [] (codes "host") connection
    × Holds secret_ref secret (codes "default/db") [] (codes "port") connection
    × Holds secret_ref secret (codes "default/db") [] (codes "username") connection
    × Holds secret_ref secret (codes "default/db") [] (codes "password") connection
    × Holds secret_ref secret (codes "default/db") [] (codes "dbname") connection
    × Holds secret_ref secret (codes "default/db") [] (codes "sslmode") connection
fields_config-Holds_example =
    Fields.fields_config-Holds secret_ref secret (codes "default/db") connection accepted

truncate_error_example :
    (length (truncate_error (codes "too long") 6) ≡ min 6 (length (codes "too long")))
    × ((truncate_error (codes "too long") 6 ≡ codes "too long")
        ⊎ (truncate_error (codes "too long") 6 ≡ take (6 - 3) (codes "too long") ++ codes "..."))
truncate_error_example = Truncation.truncate_error_lem (codes "too long") 6 (omega arith)

finish-Recorded_example :
    let keys = managed_keys [] outcomes in
    let errors = row_errors outcomes ++ (prune_phase env keys start).0 in
    let (result, t) = finish env (pos 300000000000) secret outcomes start in
    (result ≡ requeue_after (next_requeue_interval env start.cr (pos 300000000000)))
    × Recorded errors start t
    × (t.cr.status.managed_resources ≡ sort_strings (keys_of keys))
finish-Recorded_example = Outcome.finish-Recorded env (pos 300000000000) secret outcomes start
