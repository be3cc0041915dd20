-- ===== src/Postgres/Client/Connected.antt =====
-- A client that `Connect` has set up.
use mathlib.Core.Path.{subst}
use db_query_operator.Prelude.{
  Option-cases, Bool-cases, inl, inr, Option, none, some, List, [], ◌∷◌, ◌++◌, ◌≡◌, ◌≢◌, refl,
  arith,
}
use db_query_operator.Prelude.Lists.{length, All}
use db_query_operator.Prelude.Text.{Text, codes, empty_text}
use db_query_operator.Prelude.Maps.{Map, insert}
use db_query_operator.Cluster.{Reply, ok, err}
use db_query_operator.Postgres.{split_statements}
use db_query_operator.Postgres.Client.{
  Rows, Driver, panicked, PostgresDatabaseClient, entry, read_conn, replica_or_write, row_of,
  collect_rows, fetched, execute_single_query, after_batch, run_statements, query_read, query_write,
  connect_read, connected, connect,
}

module _ {A : Type 0} where
  -- A row has a value for each column.
  abbrev pub Fits : List Text → Reply Text (List A) → Type 0
  Fits columns (ok values) = length values ≡ length columns
  Fits columns (err e) = Unit {0}

  row_of-some :
      (columns : List Text) (values : List A) (row : Map A)
      → length values ≡ length columns
      → row_of columns values row ≢ none
  unfolding row_of
  row_of-some [] values row h = λ e. cc e
  row_of-some (c ∷ cs) [] row h = omega arith
  row_of-some (c ∷ cs) (v ∷ vs) row h = row_of-some cs vs (insert c v row) (ground arith)

  collect_rows-returned :
      (columns : List Text) (rows : List (Reply Text (List A))) (failure : Option Text)
      (results : List (Map A))
      → All (Fits columns) rows
      → collect_rows columns rows failure results ≢ panicked
  unfolding collect_rows
  collect_rows-returned columns [] none results h = λ e. cc e
  collect_rows-returned columns [] (some f) results h = λ e. cc e
  collect_rows-returned columns (err f ∷ rows) failure results h = λ e. cc e
  collect_rows-returned columns (ok values ∷ rows) failure results h =
      elim (Option-cases (row_of columns values [])) [
        | inl e ↦ absurd (row_of-some columns values [] h.0 e)
        | inr (row, e) ↦
            rw (e, collect_rows)
              (collect_rows-returned columns rows failure (results ++ row ∷ []) h.1)
      ]

pub ok-same : {B : Type 0} → (a b : B) → ◌≡◌ {A = Reply Text B} (ok a) (ok b) → a ≡ b
ok-same a b h = cc h

module _ {W C A : Type 0} (driver : Driver W C A)
    (rectangular : (w : W) (c : C) (query : Text) (rows : Rows A)
      → (driver.query w c query).0 ≡ ok rows
      → All (Fits rows.columns) rows.rows) where
  fetched-returned :
      (w : W) (c : C) (r : Reply Text (Rows A))
      → ((rows : Rows A) → r ≡ ok rows → All (Fits rows.columns) rows.rows)
      → (fetched driver w c r).0 ≢ panicked
  unfolding fetched
  fetched-returned w c (err e) h = λ p. cc p
  fetched-returned w c (ok rows) h =
      collect_rows-returned rows.columns rows.rows rows.failure [] (h rows refl)

  execute_single_query-returned :
      (w : W) (c : C) (query : Text) → (execute_single_query driver w c query).0 ≢ panicked
  unfolding execute_single_query
  execute_single_query-returned w c query =
      fetched-returned (driver.query w c query).1 c (driver.query w c query).0
        (rectangular w c query)

  after_batch-returned :
      (w : W) (c : C) (query : Text) (r : Reply Text (Unit {0}))
      → (after_batch driver w c query r).0 ≢ panicked
  unfolding after_batch
  after_batch-returned w c query (err e) = λ p. cc p
  after_batch-returned w c query (ok u) = execute_single_query-returned w c query

  run_statements-returned :
      (w : W) (c : C) (statements : List Text)
      → (run_statements driver w (some c) statements).0 ≢ panicked
  unfolding run_statements
  run_statements-returned w c [] = λ p. cc p
  run_statements-returned w c (s ∷ []) = execute_single_query-returned w c s
  run_statements-returned w c (s ∷ t ∷ ts) = after_batch-returned _ c _ _

  -- Both connections are there.
  abbrev Ready : PostgresDatabaseClient C → Type 0
  Ready client =
      (write read : C) × (client.conn_write ≡ some write) × (read_conn client ≡ some read)

  replica_or_write-Ready :
      (write : C) (r : Reply Text C)
      → Ready (record { conn_write = some write; conn_read = replica_or_write r })
  unfolding replica_or_write read_conn
  replica_or_write-Ready write (ok c) = (write, c, refl, refl)
  replica_or_write-Ready write (err e) = (write, write, refl, refl)

  connect_read-Ready :
      (config : Map Text) (write : C) (w : W) → Ready (connect_read driver config write w).0
  unfolding connect_read read_conn
  connect_read-Ready config write w =
      elim (Bool-cases (empty_text (entry (codes "readonly_host") config))) [
        | inl e ↦ rw e (write, write, refl, refl)
        | inr e ↦ rw e (replica_or_write-Ready write _)
      ]

  connected-Ready :
      (config : Map Text) (r : Reply Text C) (w : W) (client : PostgresDatabaseClient C)
      → (connected driver config (r, w)).0 ≡ ok client
      → Ready client
  unfolding connected
  connected-Ready config (ok write) w client h =
      subst Ready (ok-same _ _ h) (connect_read-Ready config write w)
  connected-Ready config (err e) w client h = cc h

  run_on_ready :
      (conn : Option C) (c : C) (w : W) (statements : List Text)
      → conn ≡ some c
      → (run_statements driver w conn statements).0 ≢ panicked
  run_on_ready conn c w statements e = rw e (run_statements-returned w c statements)

  -- Where every row that the driver reads has a value for each column, a client that was connected
  -- panics on no query, for reading or for writing, in whatever state the database is.
  pub connect-query_returned :
      (config : Map Text) (before w : W) (client : PostgresDatabaseClient C) (query : Text)
      → (connect driver config before).0 ≡ ok client
      → ((query_read driver client query w).0 ≢ panicked)
        × ((query_write driver client query w).0 ≢ panicked)
  unfolding connect query_read query_write
  connect-query_returned config before w client query h =
      let (write, read, ew, er) = connected-Ready config _ _ client h in
      (
        run_on_ready (read_conn client) read w (split_statements query) er,
        run_on_ready client.conn_write write w (split_statements query) ew,
      )
