-- ===== src/Reconcile/Cleanup/Unread.antt =====
-- The cleanup when the API server does not answer its reads.
use db_query_operator.Prelude.{true, ◌≡◌, refl, Option, none, some, List, [], ◌∷◌, ◌++◌}
use db_query_operator.Prelude.Text.{Text}
use db_query_operator.Cluster.{ResourceId, ApiError, err, cr_updated, Env, State}
use db_query_operator.Children.{collect_id, get_one, get_each, collect_all_child_resources}
use db_query_operator.Children.Collect.{get_each_writes_nothing}
use db_query_operator.Reconcile.Cleanup.{
  has_finalizer, delete_all, after_deletes, clean_up, database_query_finalizer,
}

module _ {W V D R : Type 0} (env : Env W V D R)
    (unread : (w : W) (id : ResourceId) → (e : ApiError) × ((env.get w id).0 ≡ err e)) where
  get_one-none : (id : Option ResourceId) (s : State W V) → (get_one env id s).0 ≡ []
  unfolding get_one
  get_one-none none s = refl
  get_one-none (some id) s = rw ((unread s.world id).1) refl

  get_each-none : (names : List Text) (s : State W V) → (get_each env collect_id names s).0 ≡ []
  unfolding get_each
  get_each-none [] s = refl
  get_each-none (name ∷ names) s =
      rw (get_one-none (collect_id name) s)
        (get_each-none names (get_one env (collect_id name) s).1)

  calls-after_deletes :
      (s t : State W V)
      → (t.calls ≡ s.calls) × (t.cr ≡ s.cr)
      → let d = delete_all env [] t in
        (after_deletes env d.0 d.1).1.calls
        ≡ s.calls ++ cr_updated (env.remove_finalizer s.cr database_query_finalizer) ∷ []
  unfolding delete_all after_deletes
  calls-after_deletes s t (c, r) = rw (c, r) refl

  -- Where every read fails, for whatever reason, the cleanup deletes no child, and still updates
  -- the custom resource without the finalizer.
  pub calls-clean_up :
      (s : State W V)
      → has_finalizer s.cr.finalizers ≡ true
      → (clean_up env s).1.calls
        ≡ s.calls ++ cr_updated (env.remove_finalizer s.cr database_query_finalizer) ∷ []
  unfolding clean_up collect_all_child_resources
  calls-clean_up s h =
      let names = s.cr.status.managed_resources in
      let (children, t) = get_each env collect_id names s in
      rw (h, clean_up, get_each-none names s)
        (calls-after_deletes s t (get_each_writes_nothing env collect_id names s))
