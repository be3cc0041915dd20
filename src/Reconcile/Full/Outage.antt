-- ===== src/Reconcile/Full/Outage.antt =====
-- A full pass that does not get to the rows of the query result.
use db_query_operator.Prelude.{◌≡◌, refl, ◌∙◌, List}
use db_query_operator.Prelude.Int.{ℤ}
use db_query_operator.Prelude.Text.{Text, codes}
use db_query_operator.Prelude.Maps.{Map}
use db_query_operator.Api.{ConditionStatus, condition_true}
use db_query_operator.Cluster.{Reply, ok, err, Env, State, query_read}
use db_query_operator.Conditions.{condition_db_connected, set_condition}
use db_query_operator.Database.{get_or_create_db_client}
use db_query_operator.Secret.{get_db_config}
use db_query_operator.Reconcile.Full.{
  with_template, with_rows, with_client, with_config, full_reconcile,
}

-- No write was issued, and the status still names the same resources, versions and last poll.
pub record IsUntouched {W V : Type 0} (s t : State W V) : Type 0 where
  pub calls : t.calls ≡ s.calls
  pub managed : t.cr.status.managed_resources ≡ s.cr.status.managed_resources
  pub versions : t.cr.status.resource_versions ≡ s.cr.status.resource_versions
  pub polled : t.cr.status.last_poll_time ≡ s.cr.status.last_poll_time
  pub spec : t.cr.spec ≡ s.cr.spec

module _ {W V D R : Type 0} (env : Env W V D R) where
  IsUntouched-trans : {s t u : State W V} → IsUntouched s t → IsUntouched t u → IsUntouched s u
  IsUntouched-trans h k = record {
    calls = k.calls ∙ h.calls;
    managed = k.managed ∙ h.managed;
    versions = k.versions ∙ h.versions;
    polled = k.polled ∙ h.polled;
    spec = k.spec ∙ h.spec;
  }

  IsUntouched-config : (s : State W V) → IsUntouched s (get_db_config env s).1
  unfolding get_db_config
  IsUntouched-config s = record {
    calls = refl;
    managed = refl;
    versions = refl;
    polled = refl;
    spec = refl;
  }

  IsUntouched-client :
      (config : Map Text) (s : State W V) → IsUntouched s (get_or_create_db_client env config s).1
  unfolding get_or_create_db_client
  IsUntouched-client config s = record {
    calls = refl;
    managed = refl;
    versions = refl;
    polled = refl;
    spec = refl;
  }

  IsUntouched-condition :
      (type : Text) (status : ConditionStatus) (reason message : Text) (s : State W V)
      → IsUntouched s (set_condition env type status reason message s).1
  unfolding set_condition
  IsUntouched-condition type status reason message s = record {
    calls = refl;
    managed = refl;
    versions = refl;
    polled = refl;
    spec = refl;
  }

  -- Where the pass stops before the rows: at the Secret, the connection, the query or the template.
  -- Each stage runs in the state that the one before left behind.
  module _ (s : State W V) where
    abbrev pub config_read : Reply Text (Map Text)
    config_read = (get_db_config env s).0

    abbrev pub connected : Map Text → Reply Text D × State W V
    connected config = get_or_create_db_client env config (get_db_config env s).1

    abbrev pub rows_read : Map Text → D → Reply Text (List R)
    rows_read config db =
        let t =
          (set_condition env condition_db_connected condition_true (codes "Connected")
            (codes "Successfully connected to the database") (connected config).1).1 in
        (query_read env db t.cr.spec.query t).0

    pub data Stops : Type 0 where
      no_config : (e : Text) → config_read ≡ err e → Stops
      no_client :
          (config : Map Text) (e : Text)
          → config_read ≡ ok config
          → (connected config).0 ≡ err e
          → Stops
      no_rows :
          (config : Map Text) (db : D) (e : Text)
          → config_read ≡ ok config
          → (connected config).0 ≡ ok db
          → rows_read config db ≡ err e
          → Stops
      no_template :
          (config : Map Text) (db : D) (rows : List R) (e : Text)
          → config_read ≡ ok config
          → (connected config).0 ≡ ok db
          → rows_read config db ≡ ok rows
          → env.parse_template s.cr.spec.template ≡ err e
          → Stops

  with_config-IsUntouched :
      (poll : ℤ) (e : Text) (s : State W V) → IsUntouched s (with_config env poll (err e) s).1
  unfolding with_config
  with_config-IsUntouched poll e s =
      IsUntouched-trans (IsUntouched-condition _ _ _ _ s) (IsUntouched-condition _ _ _ _ _)

  with_client-IsUntouched :
      (poll : ℤ) (config : Map Text) (e : Text) (s : State W V)
      → IsUntouched s (with_client env poll config (err e) s).1
  unfolding with_client
  with_client-IsUntouched poll config e s =
      IsUntouched-trans (IsUntouched-condition _ _ _ _ s) (IsUntouched-condition _ _ _ _ _)

  with_rows-IsUntouched :
      (poll : ℤ) (config : Map Text) (e : Text) (s : State W V)
      → IsUntouched s (with_rows env poll config (err e) s).1
  unfolding with_rows
  with_rows-IsUntouched poll config e s = IsUntouched-condition _ _ _ _ s

  with_template-IsUntouched :
      (poll : ℤ) (config : Map Text) (rows : List R) (e : Text) (s : State W V)
      → IsUntouched s (with_template env poll config rows (err e) s).1
  unfolding with_template
  with_template-IsUntouched poll config rows e s = IsUntouched-condition _ _ _ _ s

  with_config_of_client :
      (poll : ℤ) (config : Map Text) (s : State W V) (r : Reply Text D)
      → (get_or_create_db_client env config s).0 ≡ r
      → IsUntouched
          (get_or_create_db_client env config s).1
          (with_client env poll config r (get_or_create_db_client env config s).1).1
      → IsUntouched s (with_config env poll (ok config) s).1
  unfolding with_config
  with_config_of_client poll config s r e h =
      IsUntouched-trans (IsUntouched-client config s) (rw e h)

  abbrev connected_condition : State W V → State W V
  connected_condition s =
      (set_condition env condition_db_connected condition_true (codes "Connected")
        (codes "Successfully connected to the database") s).1

  with_client_of_rows :
      (poll : ℤ) (config : Map Text) (db : D) (s : State W V) (r : Reply Text (List R))
      → let t = connected_condition s in
        (query_read env db t.cr.spec.query t).0 ≡ r
        → IsUntouched
            (query_read env db t.cr.spec.query t).1
            (with_rows env poll config r (query_read env db t.cr.spec.query t).1).1
        → IsUntouched s (with_client env poll config (ok db) s).1
  unfolding with_client
  with_client_of_rows poll config db s r e h = IsUntouched-trans (IsUntouched-condition _ _ _ _ s) (
      let k = rw (← e) at h in
      record {
        calls = k.calls;
        managed = k.managed;
        versions = k.versions;
        polled = k.polled;
        spec = k.spec;
      })

  with_rows_of_template :
      (poll : ℤ) (config : Map Text) (rows : List R) (e : Text) (s : State W V)
      → env.parse_template s.cr.spec.template ≡ err e
      → IsUntouched s (with_rows env poll config (ok rows) s).1
  unfolding with_rows
  with_rows_of_template poll config rows e s h =
      rw h (with_template-IsUntouched poll config rows e s)

  full_reconcile_of_config :
      (poll : ℤ) (s : State W V) (r : Reply Text (Map Text))
      → (get_db_config env s).0 ≡ r
      → IsUntouched (get_db_config env s).1 (with_config env poll r (get_db_config env s).1).1
      → IsUntouched s (full_reconcile env poll s).1
  unfolding full_reconcile
  full_reconcile_of_config poll s r e h = IsUntouched-trans (IsUntouched-config s) (rw e h)

  -- A full pass that cannot read the Secret, connect, run the query or parse the template issues no
  -- write to the cluster or to the database, so it deletes nothing, and leaves the managed
  -- resources, their versions and the time of the last poll in the status as they were. The
  -- deferred write of the status comes after it.
  pub full_reconcile-IsUntouched :
      (poll : ℤ) (s : State W V) → Stops s → IsUntouched s (full_reconcile env poll s).1
  unfolding with_rows set_condition get_or_create_db_client get_db_config
  full_reconcile-IsUntouched poll s (no_config e c) =
      full_reconcile_of_config poll s _ c (with_config-IsUntouched poll e _)
  full_reconcile-IsUntouched poll s (no_client config e c d) =
      full_reconcile_of_config poll s _ c
        (with_config_of_client poll config _ _ d (with_client-IsUntouched poll config e _))
  full_reconcile-IsUntouched poll s (no_rows config db e c d r) =
      full_reconcile_of_config poll s _ c (
        with_config_of_client poll config _ _ d
          (with_client_of_rows poll config db _ _ r (with_rows-IsUntouched poll config e _)))
  full_reconcile-IsUntouched poll s (no_template config db rows e c d r t) =
      full_reconcile_of_config poll s _ c (
        with_config_of_client poll config _ _ d
          (with_client_of_rows poll config db _ _ r (with_rows_of_template poll config rows e _ t)))
