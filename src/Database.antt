-- ===== src/Database.antt =====
-- internal/controller/databasequeryresource_controller.go: the choice of a database client.
use db_query_operator.Prelude.{
  ℕ, ◌+◌, Bool, ◌&&◌, ◌||◌, Option, none, some, map, ◌++◌, leb, if◌then◌else◌,
}
use db_query_operator.Prelude.Text.{Text, codes, text_eq, empty_text}
use db_query_operator.Prelude.Maps.{Map}
use db_query_operator.Cluster.{Reply, err, Env, Pass}

-- `strings.ToLower` on ASCII. No other letter has a lower-case form in a name compared with here.
to_lower : ℕ → ℕ
to_lower c = if leb b'A' c && leb c b'Z' then c + 32 else c

unfoldable pub is_postgres : Text → Bool
unfolding to_lower text_eq
is_postgres type =
    let t = map to_lower type in
    text_eq t (codes "postgres")
    || text_eq t (codes "postgresql")
    || text_eq t (codes "pgx")
    || empty_text t

module _ {W V D R : Type 0} (env : Env W V D R) where
  unfoldable pub connect_with :
      Option (W → Text → Map Text → Reply Text D × W) → Text → Map Text → W → Reply Text D × W
  connect_with (some factory) type config w = factory w type config
  connect_with none type config w =
      if is_postgres type
      then env.connect_postgres w config
      else (err (codes "unsupported database type: " ++ type), w)

  unfoldable pub get_or_create_db_client : Map Text → Pass W V (Reply Text D)
  get_or_create_db_client config s =
      let (r, w) = connect_with env.db_client_factory s.cr.spec.database.type config s.world in
      (r, record s { world = w })
