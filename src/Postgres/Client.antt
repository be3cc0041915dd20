-- ===== src/Postgres/Client.antt =====
-- internal/util/postgres_client.go: the connections of the client and the queries on them, over
-- the functions of pgx that it calls.
pub mod Connected
use db_query_operator.Prelude.{
  Bool, true, false, Option, none, some, List, [], ◌∷◌, ◌++◌, if◌then◌else◌,
}
use db_query_operator.Prelude.Text.{Text, codes, empty_text}
use db_query_operator.Prelude.Maps.{Map, lookup, insert}
use db_query_operator.Cluster.{Reply, ok, err}
use db_query_operator.Postgres.{split_statements, redact_password}

-- `pgx.Rows`: the names of the columns, the answers of `Values` row by row, and `Err`.
pub record Rows (A : Type 0) : Type 0 where
  pub columns : List Text
  pub rows : List (Reply Text (List A))
  pub failure : Option Text

-- The functions of pgx, over a world `W`, with connections `C` and column values `A`. `send_batch`
-- is `SendBatch` with the `Close` of its results.
pub record Driver (W C A : Type 0) : Type 0 where
  pub connect : W → Text → Reply Text C × W
  pub send_batch : W → C → List Text → Reply Text (Unit {0}) × W
  pub query : W → C → Text → Reply Text (Rows A) × W
  pub close_rows : W → C → W
  pub exec : W → C → Text → Reply Text (Unit {0}) × W
  pub close : W → C → Option Text × W

-- `panicked` is a nil connection that is called, or an index out of range.
pub data Outcome (B : Type 0) : Type 0 where
  returned : Reply Text B → Outcome B
  panicked : Outcome B

-- `connRead`, which may be nil or the same pointer as `connWrite`.
pub data ReadConn (C : Type 0) : Type 0 where
  no_read same_as_write : ReadConn C
  replica : C → ReadConn C

pub record PostgresDatabaseClient (C : Type 0) : Type 0 where
  pub conn_write : Option C
  pub conn_read : ReadConn C

-- An entry of the configuration; a missing one is empty.
unfoldable pub entry : Text → Map Text → Text
unfolding lookup
entry key config = elim (lookup key config) [ none ↦ [] | some v ↦ v ]

-- "postgres://%s:%s@%s:%s/%s?sslmode=%s"
unfoldable pub conn_string : Map Text → Text → Text
unfolding entry
conn_string config host =
    codes "postgres://"
    ++ (entry (codes "username") config
        ++ (codes ":"
            ++ (entry (codes "password") config
                ++ (codes "@"
                    ++ (host
                        ++ (codes ":"
                            ++ (entry (codes "port") config
                                ++ (codes "/"
                                    ++ (entry (codes "dbname") config
                                        ++ (codes "?sslmode="
                                            ++ entry (codes "sslmode") config))))))))))

module _ {C : Type 0} where
  -- The connection that a read is sent on.
  unfoldable pub read_conn : PostgresDatabaseClient C → Option C
  read_conn client = elim client.conn_read [
    | no_read ↦ none
    | same_as_write ↦ client.conn_write
    | replica c ↦ some c
  ]

  unfoldable pub replica_or_write : Reply Text C → ReadConn C
  replica_or_write (ok c) = replica c
  replica_or_write (err e) = same_as_write

module _ {A : Type 0} where
  unfoldable pub row_of : List Text → List A → Map A → Option (Map A)
  row_of [] values row = some row
  row_of (c ∷ cs) [] row = none
  row_of (c ∷ cs) (v ∷ vs) row = row_of cs vs (insert c v row)

  -- The loop over the rows; `results` are those so far.
  unfoldable pub collect_rows :
      List Text
      → List (Reply Text (List A))
      → Option Text
      → List (Map A)
      → Outcome (List (Map A) × List Text)
  collect_rows columns [] none results = returned (ok (results, columns))
  collect_rows columns [] (some e) results = returned (err e)
  collect_rows columns (err e ∷ rows) failure results = returned (err e)
  collect_rows columns (ok values ∷ rows) failure results = elim (row_of columns values []) [
    | none ↦ panicked
    | some row ↦ collect_rows columns rows failure (results ++ row ∷ [])
  ]

-- All statements but the last, and the last, of a list with a first one.
abbrev front : Text → List Text → List Text
front s [] = []
front s (t ∷ ts) = s ∷ front t ts

abbrev last : Text → List Text → Text
last s [] = s
last s (t ∷ ts) = last t ts

module _ {W C A : Type 0} (driver : Driver W C A) where
  abbrev pub Found : Type 0
  Found = Outcome (List (Map A) × List Text)

  fetched : W → C → Reply Text (Rows A) → Found × W
  unfolding collect_rows
  fetched w c (err e) = (returned (err e), w)
  fetched w c (ok rows) =
      (collect_rows rows.columns rows.rows rows.failure [], driver.close_rows w c)

  unfoldable pub execute_single_query : W → C → Text → Found × W
  unfolding fetched
  execute_single_query w c query = let (r, v) = driver.query w c query in fetched v c r

  after_batch : W → C → Text → Reply Text (Unit {0}) → Found × W
  after_batch w c query (err e) =
      (returned (err (codes "failed to execute batch commands: " ++ e)), w)
  after_batch w c query (ok u) = execute_single_query w c query

  unfoldable pub run_statements : W → Option C → List Text → Found × W
  unfolding after_batch
  run_statements w conn [] = (returned (err (codes "no statements to execute")), w)
  run_statements w none (s ∷ ss) = (panicked, w)
  run_statements w (some c) (s ∷ []) = execute_single_query w c s
  run_statements w (some c) (s ∷ t ∷ ts) =
      let (r, v) = driver.send_batch w c (s ∷ front t ts) in after_batch v c (last t ts) r

  unfoldable pub query_read : PostgresDatabaseClient C → Text → W → Found × W
  query_read client query w = run_statements w (read_conn client) (split_statements query)

  unfoldable pub query_write : PostgresDatabaseClient C → Text → W → Found × W
  query_write client query w = run_statements w client.conn_write (split_statements query)

  -- The connection for reads, once that for writes stands.
  unfoldable pub connect_read : Map Text → C → W → PostgresDatabaseClient C × W
  connect_read config write w =
      let host = entry (codes "readonly_host") config in
      if empty_text host
      then (record { conn_write = some write; conn_read = same_as_write }, w)
      else (let (r, v) = driver.connect w (conn_string config host) in
          (record { conn_write = some write; conn_read = replica_or_write r }, v))

  connected : Map Text → Reply Text C × W → Reply Text (PostgresDatabaseClient C) × W
  connected config (ok write, w) = let (client, v) = connect_read config write w in (ok client, v)
  connected config (err e, w) = (
    err (
        codes "failed to connect to database: "
        ++ (e
            ++ (codes " (conn: "
                ++ (redact_password (conn_string config (entry (codes "host") config))
                    ++ codes ")")))),
    w,
  )

  unfoldable pub connect : Map Text → W → Reply Text (PostgresDatabaseClient C) × W
  unfolding connected
  connect config w =
      connected config (driver.connect w (conn_string config (entry (codes "host") config)))

  unfoldable pub exec : PostgresDatabaseClient C → Text → W → Reply Text (Unit {0}) × W
  exec client query w = elim client.conn_write [
    | none ↦ (err (codes "no database connection"), w)
    | some c ↦ driver.exec w c query
  ]

  later_error : Option Text → Option Text → Option Text
  later_error first none = first
  later_error first (some e) = some e

  close_read : ReadConn C → W → Option Text × W
  close_read no_read w = (none, w)
  close_read same_as_write w = (none, w)
  close_read (replica c) w = driver.close w c

  close_write : Option Text → Option C → W → Option Text × W
  unfolding later_error
  close_write first none w = (first, w)
  close_write first (some c) w = let (e, v) = driver.close w c in (later_error first e, v)

  -- The error of the last connection that failed to close.
  unfoldable pub close : PostgresDatabaseClient C → W → Option Text × W
  unfolding close_read close_write
  close client w = let (e, v) = close_read client.conn_read w in close_write e client.conn_write v
