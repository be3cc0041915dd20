-- ===== src/Applied.antt =====
-- internal/controller/databasequeryresource_controller.go: the last-applied configuration in an
-- annotation, the test for a needed update, the overlay of the desired state, and the update with
-- retries on conflict.
pub mod Overlay
pub mod Retry
pub mod Written
pub mod Grown
pub mod Converges
use db_query_operator.Prelude.{
  ℕ, zero, suc, Bool, true, false, not, Option, none, some, List, [], ◌∷◌, ◌++◌, ◌==◌,
  if◌then◌else◌,
}
use db_query_operator.Prelude.Text.{Text, codes, text_eq, empty_text}
use db_query_operator.Prelude.Maps.{Map, lookup, insert, delete, keep_keys}
use db_query_operator.Cluster.{
  Object, ApiError, is_not_found, is_conflict, Reply, ok, err, Codec, ManagedResourceConfig, Env,
  Pass, pure, get, update, ◌>>=◌,
}
use db_query_operator.Children.{object_id}

abbrev pub last_applied_config_annotation : Text
last_applied_config_annotation = codes "konnektr.io/last-applied-configuration"

abbrev pub max_retries : ℕ
max_retries = 3

-- A map where nil counts as empty.
abbrev pub entries : Option (Map Text) → Map Text
entries none = []
entries (some m) = m

-- The copy of the annotations without the last-applied one; nil stays nil.
unfoldable pub without_last_applied : Option (Map Text) → Option (Map Text)
without_last_applied none = none
without_last_applied (some m) =
    some (keep_keys (λ k. not (text_eq k last_applied_config_annotation)) m)

-- A JSON round trip: what it gives, or the configuration itself where a step fails.
pub data Canonical (V : Type 0) : Type 0 where
  raw : ManagedResourceConfig V → Canonical V
  value : V → Canonical V

-- One round of the loop over the desired annotations.
unfoldable pub overlay_one : Map Text → Text → Text → Map Text
overlay_one anns k v = if empty_text v then delete k anns else insert k v anns

unfoldable pub overlay : Map Text → Map Text → Map Text
overlay anns [] = anns
overlay anns ((k, v) ∷ desired) = overlay (overlay_one anns k v) desired

module _ {V : Type 0} (codec : Codec V) where
  -- A key of the content: nil where it is missing.
  abbrev pub index_value : Option V → V
  index_value none = codec.nil
  index_value (some v) = v

  -- The literal that `setLastAppliedConfig` and `shouldUpdateResource` both build.
  abbrev pub config_of : Object V → ManagedResourceConfig V
  config_of o = record {
    spec = index_value o.spec;
    body = index_value o.body;
    labels = o.labels;
    annotations = without_last_applied o.annotations;
  }

  decode_last_applied : Option Text → Reply Text (Option (ManagedResourceConfig V))
  decode_last_applied none = ok none
  decode_last_applied (some t) = elim (codec.unmarshal_config t) [
    | ok c ↦ ok (some c)
    | err e ↦ err (codes "failed to unmarshal last applied config: " ++ e)
  ]

  unfoldable pub get_last_applied_config : Object V → Reply Text (Option (ManagedResourceConfig V))
  unfolding decode_last_applied
  get_last_applied_config o = elim o.annotations [
    | none ↦ ok none
    | some m ↦ decode_last_applied (lookup last_applied_config_annotation m)
  ]

  unfoldable pub set_last_applied_config : Object V → Reply Text (Object V)
  set_last_applied_config o = elim (codec.marshal_config (config_of o)) [
    | none ↦ err (codes "failed to marshal config: " ++ codec.marshal_error (config_of o))
    | some t ↦ ok (record o {
      annotations = some (insert last_applied_config_annotation t (entries o.annotations));
    })
  ]

  decoded : ManagedResourceConfig V → Option V → Canonical V
  decoded c none = raw c
  decoded c (some v) = value v

  unfoldable pub canonical_config : ManagedResourceConfig V → Canonical V
  unfolding decoded
  canonical_config c = elim (codec.marshal_config c) [
    | none ↦ raw c
    | some t ↦ decoded c (codec.unmarshal_value t)
  ]

  deep_equal : Canonical V → Canonical V → Bool
  deep_equal (raw a) (raw b) = codec.config_deep_equal a b
  deep_equal (value v) (value w) = codec.value_deep_equal v w
  deep_equal (raw a) (value w) = false
  deep_equal (value v) (raw b) = false

  unfoldable pub configs_equal : ManagedResourceConfig V → ManagedResourceConfig V → Bool
  unfolding deep_equal
  configs_equal last_applied current =
      deep_equal (canonical_config last_applied) (canonical_config current)

  unfoldable pub apply_desired_state : Object V → Object V → Object V
  apply_desired_state existing desired = record existing {
    spec = some (index_value desired.spec);
    body =
        if codec.is_nil (index_value desired.body) then none else some (index_value desired.body);
    labels = desired.labels;
    annotations = some (overlay (entries existing.annotations) (entries desired.annotations));
  }

  needs_update : Object V → Reply Text (Option (ManagedResourceConfig V)) → Reply Text Bool
  needs_update obj (err e) =
      err (codes "failed to get last applied config from existing resource: " ++ e)
  needs_update obj (ok none) = ok true
  needs_update obj (ok (some last)) = ok (not (configs_equal last (config_of obj)))

  -- The decision of `shouldUpdateResource` on what the read of the live object returns.
  unfoldable pub update_decision : Object V → Reply ApiError (Object V) → Reply Text Bool
  unfolding needs_update
  update_decision obj (ok existing) = needs_update obj (get_last_applied_config existing)
  update_decision obj (err e) =
      if is_not_found e
      then ok true
      else err (codes "failed to get existing resource: " ++ e.message)

module _ {W V D R : Type 0} (env : Env W V D R) where
  unfoldable pub should_update_resource : Object V → Pass W V (Reply Text Bool)
  unfolding update_decision
  should_update_resource obj = do
    r ← get env (object_id obj)
    pure (update_decision env.codec obj r)

  abbrev Retry : Type 0
  Retry = Object V → Pass W V (Reply Text (Unit {0}))

  after_refetch : Retry → Reply ApiError (Object V) → Pass W V (Reply Text (Unit {0}))
  after_refetch rest (ok fresh) = rest fresh
  after_refetch rest (err e) = pure (err e.message)

  -- `last` is the test `attempt == maxRetries-1`, and `again` is `IsConflict`.
  after_failure :
      Retry → (again last : Bool) → Object V → ApiError → Pass W V (Reply Text (Unit {0}))
  unfolding after_refetch
  after_failure rest false last desired e = pure (err e.message)
  after_failure rest true true desired e = pure (err e.message)
  after_failure rest true false desired e = do g ← get env (object_id desired); after_refetch rest g

  after_update :
      Retry → Bool → Object V → Reply ApiError (Object V) → Pass W V (Reply Text (Unit {0}))
  unfolding after_failure
  after_update rest last desired (ok o) = pure (ok tt)
  after_update rest last desired (err e) = after_failure rest (is_conflict e) last desired e

  write_attempt : Retry → Bool → Object V → Reply Text (Object V) → Pass W V (Reply Text (Unit {0}))
  unfolding after_update
  write_attempt rest last desired (err e) = pure (err e)
  write_attempt rest last desired (ok o) = do r ← update env o; after_update rest last desired r

  -- The loop, by the number of attempts left.
  unfoldable pub retry : ℕ → Object V → Object V → Pass W V (Reply Text (Unit {0}))
  unfolding write_attempt
  retry zero desired existing = pure (ok tt)
  retry (suc n) desired existing =
      write_attempt (retry n desired) (n == 0) desired
        (set_last_applied_config env.codec (apply_desired_state env.codec existing desired))

  unfoldable pub update_with_conflict_retry : Object V → Object V → Pass W V (Reply Text (Unit {0}))
  unfolding retry
  update_with_conflict_retry existing desired = retry max_retries desired existing
