-- ===== src/Secret.antt =====
-- internal/controller/databasequeryresource_controller.go: the connection details, from a Secret
-- that holds either a whole URI or one key for each field.
pub mod Fields
use db_query_operator.Prelude.{
  Bool, true, false, not, ◌&&◌, Option, none, some, List, [], ◌∷◌, ◌++◌, if◌then◌else◌,
}
use db_query_operator.Prelude.Text.{Text, codes, text_eq, empty_text}
use db_query_operator.Prelude.Maps.{Map, lookup, insert}
use db_query_operator.Api.{DatabaseConnectionSecretRef, DatabaseQueryResource}
use db_query_operator.Cluster.{
  ApiError, is_not_found, Reply, ok, err, Url, Env, Pass, pure, gets, get_secret, ◌>>=◌,
}

abbrev pub and_then {ℓ} : {A B : Type ℓ} → Reply Text A → (A → Reply Text B) → Reply Text B
and_then (ok a) f = f a
and_then (err e) f = err e

-- `strings.TrimPrefix(path, "/")`
trim_slash : Text → Text
trim_slash [] = []
trim_slash (c ∷ t) = if text_eq (c ∷ []) (codes "/") then t else c ∷ t

abbrev pub or_default : Text → Text → Text
or_default value default = if empty_text value then default else value

abbrev set_some : Text → Option Text → Map Text → Map Text
set_some key none config = config
set_some key (some v) config = insert key v config

-- `config["username"]` and, within its branch, `config["password"]`.
user_config : Option Text → Option Text → Map Text
user_config none password = []
user_config (some u) password =
    set_some (codes "password") password (insert (codes "username") u [])

url_config : Url → Reply Text (Map Text)
unfolding trim_slash user_config
url_config url =
    if not (text_eq url.scheme (codes "postgresql")) && not (text_eq url.scheme (codes "postgres"))
    then err (
        codes "unsupported scheme '"
        ++ (url.scheme ++ codes "', expected 'postgresql' or 'postgres'"))
    else if empty_text url.hostname
    then err (codes "host not found in URI")
    else if empty_text (trim_slash url.path)
    then err (codes "database name not found in URI")
    else let users = user_config url.username url.password in
      let hosted = insert (codes "host") url.hostname users in
      let ported = insert (codes "port") (or_default url.port (codes "5432")) hosted in
      let named = insert (codes "dbname") (trim_slash url.path) ported in
      ok (insert (codes "sslmode") (or_default url.sslmode (codes "prefer")) named)

-- The closure `getValue` of `getDBConfig`.
unfoldable pub get_value :
    DatabaseConnectionSecretRef → Map Text → Text → Text → Text → Reply Text Text
get_value ref secret place key default =
    let name = or_default key default in
    elim (lookup name secret) [
      | some v ↦ ok v
      | none ↦
          if text_eq name (codes "sslmode") && empty_text ref.ssl_mode_key
          then ok (codes "prefer")
          else err
              (codes "key '" ++ (name ++ (codes "' not found in secret '" ++ (place ++ codes "'"))))
    ]

-- A failed read leaves the empty string behind.
value_or_empty : Reply Text Text → Text
value_or_empty (ok v) = v
value_or_empty (err e) = []

unfoldable pub readonly_host : DatabaseConnectionSecretRef → Map Text → Text → Map Text → Map Text
unfolding value_or_empty
readonly_host ref secret place config =
    if not (empty_text ref.readonly_host_key)
    then insert (codes "readonly_host")
        (value_or_empty (get_value ref secret place ref.readonly_host_key (codes "readonly_host")))
        config
    else set_some (codes "readonly_host") (lookup (codes "readonly_host") secret) config

-- The assignments to `config`, on the values read.
unfoldable pub assemble :
    DatabaseConnectionSecretRef
    → Map Text
    → Text
    → (host port username password dbname sslmode : Text) → Map Text
assemble ref secret place host port username password dbname sslmode =
    let hosted = readonly_host ref secret place (insert (codes "host") host []) in
    let ported = insert (codes "port") port hosted in
    let authorised =
      insert (codes "password") password (insert (codes "username") username ported) in
    insert (codes "sslmode") sslmode (insert (codes "dbname") dbname authorised)

unfoldable pub fields_config : DatabaseConnectionSecretRef → Map Text → Text → Reply Text (Map Text)
fields_config ref secret place =
    and_then (get_value ref secret place ref.host_key (codes "host")) λ host.
      and_then (get_value ref secret place ref.port_key (codes "port")) λ port.
        and_then (get_value ref secret place ref.user_key (codes "username")) λ username.
          and_then (get_value ref secret place ref.password_key (codes "password")) λ password.
            and_then (get_value ref secret place ref.db_name_key (codes "dbname")) λ dbname.
              and_then (get_value ref secret place ref.ssl_mode_key (codes "sslmode"))
                λ sslmode. ok (assemble ref secret place host port username password dbname sslmode)

module _ {W V D R : Type 0} (env : Env W V D R) where
  unfoldable pub parse_postgresql_uri : Text → Reply Text (Map Text)
  unfolding url_config
  parse_postgresql_uri uri = elim (env.parse_uri uri) [
    | err e ↦ err (codes "invalid URI format: " ++ e)
    | ok url ↦ url_config url
  ]

  uri_config : Text → Reply Text (Map Text) → Reply Text (Map Text)
  uri_config key (ok c) = ok c
  uri_config key (err e) =
      err (codes "failed to parse PostgreSQL URI from key '" ++ (key ++ (codes "': " ++ e)))

  -- What `getDBConfig` makes of the Secret that it got.
  unfoldable pub secret_config :
      DatabaseConnectionSecretRef → Text → Reply ApiError (Map Text) → Reply Text (Map Text)
  unfolding uri_config
  secret_config ref place (err e) =
      if is_not_found e
      then err (codes "secret '" ++ (place ++ codes "' not found"))
      else err (codes "failed to get secret '" ++ (place ++ (codes "': " ++ e.message)))
  secret_config ref place (ok secret) =
      if not (empty_text ref.uri_key)
      then elim (lookup ref.uri_key secret) [
        | none ↦ err (
            codes "URIKey '"
            ++ (ref.uri_key ++ (codes "' not found in secret '" ++ (place ++ codes "'"))))
        | some uri ↦ uri_config ref.uri_key (parse_postgresql_uri uri)
      ]
      else fields_config ref secret place

  unfoldable pub get_db_config : Pass W V (Reply Text (Map Text))
  get_db_config = do
    cr ← gets (λ s. s.cr)
    let ref = cr.spec.database.connection_secret_ref
    let namespace = or_default ref.namespace cr.namespace
    r ← get_secret env namespace ref.name
    pure (secret_config ref (namespace ++ (codes "/" ++ ref.name)) r)
