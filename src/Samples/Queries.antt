-- ===== src/Samples/Queries.antt =====
-- Witnesses for the theorems on statements and connection strings.
use mathlib.Core.Path.{subst}
use db_query_operator.Prelude.Maps.{lookup}
use db_query_operator.Prelude.Lists.{All}
use db_query_operator.Cluster.{ok}
use db_query_operator.Postgres.Client.{
  Rows, Driver, PostgresDatabaseClient, panicked, same_as_write, entry, conn_string, connect_read,
  connect, query_read, query_write,
}
use db_query_operator.Postgres.Client.Connected
use db_query_operator.Postgres.Client.Connected.{Fits, ok-same}
use db_query_operator.Prelude.Text.{Text}
use db_query_operator.Prelude.{[], ◌∷◌, ℕ, ◌+◌, some, none, ◌≢◌, ◌++◌, ◌≡◌, refl}
use db_query_operator.Prelude.Text.{codes, contains, split, prefix_first}
use db_query_operator.Postgres.{split_statements, redact_password}
use db_query_operator.Postgres.Plain
use db_query_operator.Postgres.Plain.{trimmed}
use db_query_operator.Postgres.Quotes
use db_query_operator.Postgres.Quotes.{literal}
use db_query_operator.Postgres.Redaction
use db_query_operator.Postgres.Redaction.{connection_string}

split_statements-plain_example :
    split_statements (codes "SET a; ; SELECT 1;")
    ≡ trimmed (split b';' (codes "SET a; ; SELECT 1;"))
split_statements-plain_example = Plain.split_statements-plain (codes "SET a; ; SELECT 1;") refl

split_statements-literal_example :
    split_statements (codes "SELECT " ++ (literal (codes "a;b") ++ codes "; SELECT 2"))
    ≡ trimmed
        (prefix_first (codes "SELECT " ++ literal (codes "a;b")) (split b';' (codes "; SELECT 2")))
unfolding contains
split_statements-literal_example =
    Quotes.split_statements-literal (codes "SELECT ") (codes "a;b") (codes "; SELECT 2") refl refl
      refl refl

redact_password_example :
    redact_password (connection_string (codes "user") (codes "p@ss") (codes "host:5432/db"))
    ≡ connection_string (codes "user") (codes "***") (codes "host:5432/db")
unfolding contains
redact_password_example =
    Redaction.redact_password_lem (codes "user") (codes "p@ss") (codes "host:5432/db") refl refl

redact_password_leaks_example :
    redact_password (connection_string (codes "user") (codes "pa:ss") (codes "host:5432/db"))
    ≡ connection_string (codes "user") (codes "pa:***") (codes "host:5432/db")
unfolding contains
redact_password_leaks_example =
    Redaction.redact_password_leaks (codes "user") (codes "pa") (codes "ss") (codes "host:5432/db")
      refl refl

-- A driver that connects everywhere and finds one row with the column "n".
abbrev one_row : Rows ℕ
one_row = record { columns = codes "n" ∷ []; rows = ok (1 ∷ []) ∷ []; failure = none }

abbrev driver : Driver ℕ Text ℕ
driver = record {
  connect = λ w url. (ok url, w + 1);
  send_batch = λ w c queries. (ok tt, w + 1);
  query = λ w c query. (ok one_row, w + 1);
  close_rows = λ w c. w;
  exec = λ w c query. (ok tt, w + 1);
  close = λ w c. (none, w + 1);
}

rows_fit :
    (w : ℕ) (c query : Text) (rows : Rows ℕ)
    → (driver.query w c query).0 ≡ ok rows
    → All (Fits rows.columns) rows.rows
rows_fit w c query rows h = subst (λ r. All (Fits r.columns) r.rows) (ok-same _ _ h) (refl, tt)

abbrev client : PostgresDatabaseClient Text
client = record { conn_write = some (codes "postgres://:@:/?sslmode="); conn_read = same_as_write }

connected_client : (connect driver [] 0).0 ≡ ok client
unfolding connect connect_read entry lookup conn_string
connected_client = refl

connect-query_returned_example :
    ((query_read driver client (codes "SELECT 1") 1).0 ≢ panicked)
    × ((query_write driver client (codes "SELECT 1") 1).0 ≢ panicked)
connect-query_returned_example =
    Connected.connect-query_returned driver rows_fit [] 0 1 client (codes "SELECT 1")
      connected_client
