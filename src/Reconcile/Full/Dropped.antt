-- ===== src/Reconcile/Full/Dropped.antt =====
-- What a full pass forgets about its stale children.
use db_query_operator.Prelude.{Bool, true, false, ◌≡◌, refl, ap, ◌∙◌, List, [], ◌∷◌, arith}
use db_query_operator.Prelude.Int.{ℤ}
use db_query_operator.Prelude.Lists.{All}
use db_query_operator.Prelude.Text.{Text, text_eq, text_eq_iff}
use db_query_operator.Prelude.Maps.{Map}
use db_query_operator.Cluster.{Object, Reply, Env, State}
use db_query_operator.Children.{get_object_key, is_stale, collect_all_child_resources}
use db_query_operator.Children.Collect.{IsFaithful, member, get_each-member}
use db_query_operator.Conditions.{set_condition}
use db_query_operator.Reconcile.Managed.{is_managed, record_managed, sort_strings, keys_of}
use db_query_operator.Reconcile.Managed.Sorted.{member-sort_strings, member-keys_of}
use db_query_operator.Reconcile.Rows.{managed_keys}
use db_query_operator.Reconcile.Full.{conclude, finish}

is_stale-is_managed :
    {V : Type 0} (keys : Map Bool) (o : Object V)
    → is_stale keys o ≡ true
    → is_managed keys (get_object_key o) ≡ false
unfolding is_stale
is_stale-is_managed keys o h = ground arith

All-other :
    {V : Type 0} (key : Text) (names : List Text) (os : List (Object V))
    → member key names ≡ false
    → All (λ o. member (get_object_key o) names ≡ true) os
    → All (λ o. text_eq (get_object_key o) key ≡ false) os
All-other key names [] h a = tt
All-other key names (o ∷ os) h a =
    (ground (arith, text_eq_iff (get_object_key o) key, h, a.0), All-other key names os h a.1)

module _ {W V D R : Type 0} (env : Env W V D R) where
  managed-conclude :
      (poll : ℤ) (errors : List Text) (s : State W V)
      → (conclude env poll errors s).1.cr.status.managed_resources ≡ s.cr.status.managed_resources
  unfolding conclude set_condition
  managed-conclude poll [] s = refl
  managed-conclude poll (e ∷ es) s = refl

  -- The list that a pass leaves names the keys of its rows.
  pub managed-finish :
      (poll : ℤ) (config : Map Text) (outcomes : List (Reply Text (Object V))) (s : State W V)
      → (finish env poll config outcomes s).1.cr.status.managed_resources
        ≡ sort_strings (keys_of (managed_keys [] outcomes))
  unfolding finish record_managed
  managed-finish poll config outcomes s = managed-conclude poll _ _

  -- After a pass the collection for the next pruning finds no child with the key of a stale one,
  -- whether the deletion of that one has succeeded or failed: a stale child that could not be
  -- deleted is left behind. A read returns the object that was asked for.
  pub finish_drops_stale :
      (poll : ℤ) (config : Map Text) (outcomes : List (Reply Text (Object V))) (s : State W V)
      (item : Object V)
      → IsFaithful env
      → is_stale (managed_keys [] outcomes) item ≡ true
      → All
          (λ o. text_eq (get_object_key o) (get_object_key item) ≡ false)
          (collect_all_child_resources env (finish env poll config outcomes s).1).0
  unfolding collect_all_child_resources
  finish_drops_stale poll config outcomes s item faithful stale =
      let keys = managed_keys [] outcomes in
      let t = (finish env poll config outcomes s).1 in
      let off : member (get_object_key item) t.cr.status.managed_resources ≡ false =
        ap (member (get_object_key item)) (managed-finish poll config outcomes s)
        ∙ member-sort_strings (get_object_key item) (keys_of keys)
        ∙ member-keys_of (get_object_key item) keys
        ∙ is_stale-is_managed keys item stale in
      All-other (get_object_key item) t.cr.status.managed_resources _ off
        (get_each-member env faithful t.cr.status.managed_resources t)
