-- ===== src/Cluster.antt =====
-- What the controller stands on and does not implement: the Kubernetes client, the database
-- driver, the template, YAML and JSON libraries and the clock, as the record `Env` of functions
-- over a world `W` that any other writer may change between two calls. The state of a reconcile
-- pass is that world, the custom resource in memory, and the list of the writes issued so far.
-- `V` stands for the decoded values (`interface{}`) that a manifest holds under a key.
use db_query_operator.Prelude.{Bool, true, false, Option, List, [], ◌∷◌, ◌++◌}
use db_query_operator.Prelude.Text.{Text}
use db_query_operator.Prelude.Maps.{Map}
use db_query_operator.Prelude.Int.{ℤ}
use db_query_operator.Api.{Time, DatabaseQueryResource, DatabaseQueryResourceStatus, Condition}

-- `unstructured.Unstructured`: the parts that the code names, and the rest of the content.
-- `none` under `spec` or `data` is a missing key.
pub record Object (V : Type 0) : Type 0 where
  pub group : Text
  pub version : Text
  pub kind : Text
  pub namespace : Text
  pub name : Text
  pub resource_version : Text
  pub labels : Option (Map Text)
  pub annotations : Option (Map Text)
  pub spec : Option V
  pub body : Option V
  pub rest : V

-- `types.NamespacedName` with the `schema.GroupVersionKind` of the object asked for.
pub record ResourceId : Type 0 where
  pub group : Text
  pub version : Text
  pub kind : Text
  pub namespace : Text
  pub name : Text

pub data Reason : Type 0 where
  not_found conflict other_reason : Reason

pub record ApiError : Type 0 where
  pub reason : Reason
  pub message : Text

abbrev pub is_not_found : ApiError → Bool
is_not_found e = elim e.reason [ not_found ↦ true | conflict ↦ false | other_reason ↦ false ]

abbrev pub is_conflict : ApiError → Bool
is_conflict e = elim e.reason [ not_found ↦ false | conflict ↦ true | other_reason ↦ false ]

-- A Go result with an error.
pub data Reply {ℓ κ} (E : Type κ) (A : Type ℓ) : Type (ℓ ⊔ κ) where
  ok : A → Reply E A
  err : E → Reply E A

pub data Scope : Type 0 where
  namespaced cluster_scoped : Scope

-- `managedResourceConfig` of internal/controller/databasequeryresource_controller.go. The two
-- interface values may be nil.
pub record ManagedResourceConfig (V : Type 0) : Type 0 where
  pub spec : V
  pub body : V
  pub labels : Option (Map Text)
  pub annotations : Option (Map Text)

-- `encoding/json`, `reflect.DeepEqual` on what it decodes, and the nil interface value.
pub record Codec (V : Type 0) : Type 0 where
  pub nil : V
  pub is_nil : V → Bool
  pub marshal_config : ManagedResourceConfig V → Option Text
  -- the text of the error where `marshal_config` gives none
  pub marshal_error : ManagedResourceConfig V → Text
  pub unmarshal_config : Text → Reply Text (ManagedResourceConfig V)
  pub unmarshal_value : Text → Option V
  pub config_deep_equal : ManagedResourceConfig V → ManagedResourceConfig V → Bool
  pub value_deep_equal : V → V → Bool

-- The writes of the operator, in the order in which it issues them.
pub data Call (V : Type 0) : Type 0 where
  applied : Object V → Call V
  updated : Object V → Call V
  deleted : Object V → Call V
  cr_updated : DatabaseQueryResource → Call V
  cr_status_updated : DatabaseQueryResource → Call V
  executed : Text → Call V

-- What `url.Parse` returns, as far as the code reads it.
pub record Url : Type 0 where
  pub scheme : Text
  pub username : Option Text
  pub password : Option Text
  pub hostname : Text
  pub port : Text
  pub path : Text
  pub sslmode : Text

-- A connected `util.DatabaseClient` is a value of `D`, and a row of a query result one of `R`.
pub record Env (W V D R : Type 0) : Type 0 where
  pub codec : Codec V
  pub get : W → ResourceId → Reply ApiError (Object V) × W
  pub get_cr : W → Text → Text → Reply ApiError DatabaseQueryResource × W
  pub get_secret : W → Text → Text → Reply ApiError (Map Text) × W
  -- a write that succeeds returns the object as the server stored it
  pub apply : W → Object V → Reply ApiError (Object V) × W
  pub update : W → Object V → Reply ApiError (Object V) × W
  pub delete : W → Object V → Reply ApiError (Unit {0}) × W
  pub update_cr : W → DatabaseQueryResource → Reply ApiError DatabaseQueryResource × W
  pub update_cr_status : W → DatabaseQueryResource → Reply ApiError DatabaseQueryResource × W
  pub rest_mapping : Object V → Reply Text Scope
  pub now : W → Time × W
  -- `DBClientFactory`, and `PostgresDatabaseClient.Connect` where that is nil
  pub db_client_factory : Option (W → Text → Map Text → Reply Text D × W)
  pub connect_postgres : W → Map Text → Reply Text D × W
  pub query_read : W → D → Text → Reply Text (List R) × W
  pub exec : W → D → Text → Reply Text (Unit {0}) × W
  pub close : W → D → W
  pub set_controller_reference : DatabaseQueryResource → Object V → Reply Text (Object V)
  -- `controllerutil.RemoveFinalizer`
  pub remove_finalizer : DatabaseQueryResource → Text → DatabaseQueryResource
  pub set_status_condition : List Condition → Condition → List Condition
  pub parse_template : Text → Reply Text (Unit {0})
  pub render_row : Text → R → Reply Text Text
  pub render_resource : Text → Object V → Reply Text Text
  pub decode_object : Text → Reply Text (Object V)
  pub print_row : R → Text
  pub parse_duration : Text → Reply Text ℤ
  pub format_time : Time → Text
  pub parse_uri : Text → Reply Text Url
  -- `reflect.DeepEqual` on two statuses
  pub status_deep_equal : DatabaseQueryResourceStatus → DatabaseQueryResourceStatus → Bool

pub record State (W V : Type 0) : Type 0 where
  pub world : W
  pub calls : List (Call V)
  pub cr : DatabaseQueryResource

-- A step of a pass. Go errors are values here, so every step returns.
abbrev pub Pass : Type 0 → Type 0 → Type 0 → Type 0
Pass W V A = State W V → A × State W V

module _ {W V A : Type 0} where
  abbrev pub pure : A → Pass W V A
  pure a s = (a, s)

  -- Read a field of the state.
  abbrev pub gets : (State W V → A) → Pass W V A
  gets f s = (f s, s)

module _ {W V A B : Type 0} where
  infixl 5 ◌>>=◌ ◌>>◌
  abbrev pub ◌>>=◌ : Pass W V A → (A → Pass W V B) → Pass W V B
  ◌>>=◌ m f s = f (m s).0 (m s).1

  abbrev pub ◌>>◌ : Pass W V A → Pass W V B → Pass W V B
  ◌>>◌ m n s = n (m s).1

module _ {W V : Type 0} where
  -- Assign to the custom resource in memory.
  abbrev pub set_cr : DatabaseQueryResource → Pass W V (Unit {0})
  set_cr d s = (tt, record s { cr = d })

  abbrev pub set_status :
      (DatabaseQueryResourceStatus → DatabaseQueryResourceStatus) → Pass W V (Unit {0})
  set_status f s = (tt, record s { cr = record s.cr { status = f s.cr.status } })

module _ {W V D R : Type 0} (env : Env W V D R) where
  abbrev pub get : ResourceId → Pass W V (Reply ApiError (Object V))
  get id s = let (r, w) = env.get s.world id in (r, record s { world = w })

  -- A write goes on the list whether or not it succeeds.
  abbrev pub apply : Object V → Pass W V (Reply ApiError (Object V))
  apply o s =
      let (r, w) = env.apply s.world o in
      (r, record s { world = w; calls = s.calls ++ applied o ∷ [] })

  abbrev pub update : Object V → Pass W V (Reply ApiError (Object V))
  update o s =
      let (r, w) = env.update s.world o in
      (r, record s { world = w; calls = s.calls ++ updated o ∷ [] })

  abbrev pub delete : Object V → Pass W V (Reply ApiError (Unit {0}))
  delete o s =
      let (r, w) = env.delete s.world o in
      (r, record s { world = w; calls = s.calls ++ deleted o ∷ [] })

  abbrev pub now : Pass W V Time
  now s = let (t, w) = env.now s.world in (t, record s { world = w })

  abbrev pub exec : D → Text → Pass W V (Reply Text (Unit {0}))
  exec d q s =
      let (r, w) = env.exec s.world d q in
      (r, record s { world = w; calls = s.calls ++ executed q ∷ [] })

  abbrev pub query_read : D → Text → Pass W V (Reply Text (List R))
  query_read d q s = let (r, w) = env.query_read s.world d q in (r, record s { world = w })

  abbrev pub close : D → Pass W V (Unit {0})
  close d s = (tt, record s { world = env.close s.world d })

  abbrev pub get_secret : Text → Text → Pass W V (Reply ApiError (Map Text))
  get_secret ns n s = let (r, w) = env.get_secret s.world ns n in (r, record s { world = w })

  abbrev pub get_cr : Text → Text → Pass W V (Reply ApiError DatabaseQueryResource)
  get_cr ns n s = let (r, w) = env.get_cr s.world ns n in (r, record s { world = w })

  -- A successful write replaces the object in memory by the server's answer.
  abbrev store :
      Reply ApiError DatabaseQueryResource → DatabaseQueryResource → DatabaseQueryResource
  store (ok d) old = d
  store (err e) old = old

  abbrev pub update_cr_status : Pass W V (Reply ApiError DatabaseQueryResource)
  update_cr_status s =
      let (r, w) = env.update_cr_status s.world s.cr in
      (r, record s { world = w; calls = s.calls ++ cr_status_updated s.cr ∷ []; cr = store r s.cr })

  abbrev pub update_cr : Pass W V (Reply ApiError DatabaseQueryResource)
  update_cr s =
      let (r, w) = env.update_cr s.world s.cr in
      (r, record s { world = w; calls = s.calls ++ cr_updated s.cr ∷ []; cr = store r s.cr })
