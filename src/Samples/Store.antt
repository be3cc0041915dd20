-- ===== src/Samples/Store.antt =====
-- A cluster whose resources all have a finalizer, so that a deleted one stays and is marked, and the theorem on full passes applied to it.
use db_query_operator.Prelude.{
  Bool, true, false, ◌≡◌, refl, inl, inr, Bool-cases, none, List, [], ◌∷◌, if◌then◌else◌,
}
use db_query_operator.Prelude.Int.{pos}
use db_query_operator.Prelude.Maps.{Map}
use db_query_operator.Prelude.Text.{Text, codes, text_eq, split, join}
use db_query_operator.Cluster.{
  Object, ResourceId, ApiError, not_found, Reply, ok, err, namespaced, Env, State,
}
use db_query_operator.Children.{
  is_stale, prune_one, prune_stale_resources, print_id, get_object_key,
}
use db_query_operator.Server.{
  View, Standing, absent, live, leaving, exists, is_live, Answers, Wrote, Removed, IsCluster,
  IsBystander,
}
use db_query_operator.Children.Removal.{is_dropped}
use db_query_operator.Reconcile.Rows.Grown.{is_asked}
use db_query_operator.Api.{get_prune}
use db_query_operator.Reconcile.Rows.{process_rows, managed_keys}
use db_query_operator.Reconcile.Managed.{sort_strings, keys_of}
use db_query_operator.Reconcile.Full.{prune_phase, with_template}
use db_query_operator.Reconcile.Full.Synced
use db_query_operator.Reconcile.Full.Synced.{Synced}
use db_query_operator.Samples.Json.{codec}
use db_query_operator.Samples.Fixtures.{Value, make, config_map, cr, secret}

abbrev World : Type 0
World = View

-- The name of a resource is its key without the version.
abbrev without_version : List Text → Text
without_version (g ∷ v ∷ rest) = join (codes "/") (g ∷ rest)
without_version _ = []

resource : Text → Text
unfolding split join
resource key = without_version (split b'/' key)

abbrev named : Object Value → Text
named o = resource (get_object_key o)

abbrev put : Text → Standing → World → World
put name v w n = if text_eq name n then v else w n

-- A write to a resource that is leaving does not bring it back.
abbrev written : Standing → Standing
written absent = live
written live = live
written leaving = leaving

-- Every resource has a finalizer, so a delete marks it.
abbrev retired : Standing → Standing
retired absent = absent
retired live = leaving
retired leaving = leaving

abbrev missing : ApiError
missing = record { reason = not_found; message = codes "not found" }

abbrev answer : ResourceId → Standing → Reply ApiError (Object Value)
answer id absent = err missing
answer id live = ok (make id)
answer id leaving = ok (make id)

abbrev store : Env World Value (Unit {0}) (Unit {0})
store = record {
  codec = codec;
  get = λ w id. (answer id (w (resource (print_id id))), w);
  get_cr = λ w ns n. (ok cr, w);
  get_secret = λ w ns n. (ok secret, w);
  apply = λ w o. (ok o, put (named o) (written (w (named o))) w);
  update = λ w o. (ok o, put (named o) (written (w (named o))) w);
  delete = λ w o. (ok tt, put (named o) (retired (w (named o))) w);
  update_cr = λ w d. (ok d, w);
  update_cr_status = λ w d. (ok d, w);
  rest_mapping = λ o. ok namespaced;
  now = λ w. (1001000000000, w);
  db_client_factory = none;
  connect_postgres = λ w c. (ok tt, w);
  query_read = λ w d q. (ok (tt ∷ []), w);
  exec = λ w d q. (ok tt, w);
  close = λ w d. w;
  set_controller_reference = λ d o. ok o;
  remove_finalizer = λ d f. record d { finalizers = [] };
  set_status_condition = λ cs c. c ∷ cs;
  parse_template = λ t. ok tt;
  render_row = λ t r. ok (codes "a");
  render_resource = λ t o. ok (codes "UPDATE t");
  decode_object = λ t. ok (make (config_map t));
  print_row = λ r. [];
  parse_duration = λ t. ok (pos 300000000000);
  format_time = λ t. codes "1970-01-01T00:00:00Z";
  parse_uri = λ t. err (codes "bad");
  status_deep_equal = λ a b. false;
}

abbrev view : World → View
view w = w

answers : (id : ResourceId) (v : Standing) → Answers (print_id id) v (answer id v)
unfolding get_object_key
answers id absent = (missing, refl, refl)
answers id live = (make id, refl, refl)
answers id leaving = (make id, refl, refl)

exists-written : (v : Standing) → exists (written v) ≡ true
exists-written absent = refl
exists-written live = refl
exists-written leaving = refl

retired_is_not_live : (v : Standing) → is_live (retired v) ≡ false
retired_is_not_live absent = refl
retired_is_not_live live = refl
retired_is_not_live leaving = refl

put-Wrote : (b : Bool) (old v : Standing) → Wrote b old (if b then written v else old)
put-Wrote true old v = exists-written v
put-Wrote false old v = refl

put-Removed : (b : Bool) (old v : Standing) → Removed b old (if b then retired v else old)
put-Removed true old v = retired_is_not_live v
put-Removed false old v = refl

store-IsCluster : IsCluster store resource view
store-IsCluster = record {
  get_answers = λ w id. answers id (w (resource (print_id id)));
  get_keeps = λ w id. refl;
  apply_stores = λ w o. (refl, λ n. put-Wrote (text_eq (named o) n) (w n) (w (named o)));
  update_stores = λ w o. (refl, λ n. put-Wrote (text_eq (named o) n) (w n) (w (named o)));
  delete_removes = λ w o n. put-Removed (text_eq (named o) n) (w n) (w (named o));
}

store-IsBystander : IsBystander store view
store-IsBystander = record {
  now_keeps = λ w. refl;
  factory_keeps = tt;
  connect_keeps = λ w c. refl;
  exec_keeps = λ w d q. refl;
  close_keeps = λ w d. refl;
}

-- The object of the row and another one that nobody asked for are there, and a stale one that the
-- list names.
abbrev before : State World Value
before = record {
  world = put (codes "/ConfigMap/default/a") live (
      put (codes "/ConfigMap/default/b") live
        (put (codes "/ConfigMap/default/c") live (λ n. absent)));
  calls = [];
  cr = record cr {
    status = record cr.status {
      managed_resources = codes "/v1/ConfigMap/default/a" ∷ codes "/v1/ConfigMap/default/b" ∷ [];
    };
  };
}

abbrev one_row : List (Unit {0})
one_row = tt ∷ []

-- No delete fails here.
prune_one_without_error :
    (keys : Map Bool) (o : Object Value) (s : State World Value) → (prune_one store keys o s).0 ≡ []
unfolding prune_one
prune_one_without_error keys o s = elim (Bool-cases (is_stale keys o)) [
  | inl e ↦ rw (e, prune_one) refl
  | inr e ↦ rw (e, prune_one) refl
]

pruned_without_error :
    (keys : Map Bool) (os : List (Object Value)) (s : State World Value)
    → (prune_stale_resources store keys os s).0 ≡ []
unfolding prune_stale_resources
pruned_without_error keys [] s = refl
pruned_without_error keys (o ∷ os) s =
    rw (prune_one_without_error keys o s) (pruned_without_error keys os _)

phase_without_error : (keys : Map Bool) (s : State World Value) → (prune_phase store keys s).0 ≡ []
unfolding prune_phase
phase_without_error keys s = elim (Bool-cases (get_prune s.cr.spec)) [
  | inl e ↦ rw (e, prune_phase) (pruned_without_error keys _ _)
  | inr e ↦ rw (e, prune_phase) refl
]

with_template-Synced_example :
    let keys = managed_keys [] (process_rows store one_row before).0 in
    let t = (with_template store (pos 300000000000) secret one_row (ok tt) before).1 in
    ((n : Text)
      → Synced
          (is_dropped resource keys before.cr.status.managed_resources n)
          (is_asked resource keys n)
          (view before.world n)
          (view t.world n))
    × (t.cr.status.managed_resources ≡ sort_strings (keys_of keys))
unfolding get_prune
with_template-Synced_example =
    Synced.with_template-Synced store resource view store-IsCluster store-IsBystander
      (pos 300000000000) secret one_row tt before refl (phase_without_error _ _)
