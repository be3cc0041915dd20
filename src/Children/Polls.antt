-- ===== src/Children/Polls.antt =====
-- What the pruning leaves alone in the custom resource: its spec, and the times of the last poll and
-- of the last reconciliation.
use db_query_operator.Prelude.{Bool, ◌≡◌, refl, ◌∙◌, Bool-cases, inl, inr, List, [], ◌∷◌, Option}
use db_query_operator.Prelude.Text.{Text}
use db_query_operator.Prelude.Maps.{Map}
use db_query_operator.Api.{Time, DatabaseQueryResourceSpec}
use db_query_operator.Cluster.{Object, ApiError, Reply, ok, err, is_not_found, Env, State, delete}
use db_query_operator.Children.{
  get_object_key, after_delete, is_stale, prune_one, prune_stale_resources,
}

-- The spec and the two times.
abbrev pub Polled : Type 0
Polled = DatabaseQueryResourceSpec × Option Time × Option Time

abbrev pub polled : {W V : Type 0} → State W V → Polled
polled s = (s.cr.spec, s.cr.status.last_poll_time, s.cr.status.last_reconcile_time)

module _ {W V D R : Type 0} (env : Env W V D R) where
  polled-after_delete :
      (key : Text) (r : Reply ApiError (Unit {0})) (s : State W V)
      → polled (after_delete env key r s).1 ≡ polled s
  unfolding after_delete
  polled-after_delete key (ok u) s = refl
  polled-after_delete key (err e) s = elim (Bool-cases (is_not_found e)) [
    | inl b ↦ rw b refl
    | inr b ↦ rw b refl
  ]

  polled-prune_one :
      (keys : Map Bool) (item : Object V) (s : State W V)
      → polled (prune_one env keys item s).1 ≡ polled s
  unfolding prune_one
  polled-prune_one keys item s = elim (Bool-cases (is_stale keys item)) [
    | inl b ↦
        let (r, t) = delete env item s in
        rw (b, prune_one) (polled-after_delete (get_object_key item) r t)
    | inr b ↦ rw (b, prune_one) refl
  ]

  pub polled-prune_stale_resources :
      (keys : Map Bool) (items : List (Object V)) (s : State W V)
      → polled (prune_stale_resources env keys items s).1 ≡ polled s
  unfolding prune_stale_resources
  polled-prune_stale_resources keys [] s = refl
  polled-prune_stale_resources keys (item ∷ items) s =
      polled-prune_stale_resources keys items (prune_one env keys item s).1
      ∙ polled-prune_one keys item s
