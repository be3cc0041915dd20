-- ===== src/Samples/Passes.antt =====
-- Witnesses for the theorems on whole passes.
use db_query_operator.Prelude.{false, ◌≡◌, refl, sym, ap, [], ◌∷◌, ◌++◌, ℕ, ◌+◌}
use db_query_operator.Prelude.Int.{pos}
use db_query_operator.Prelude.Lists.{All}
use db_query_operator.Prelude.Text.{codes, text_eq}
use db_query_operator.Prelude.Maps.{lookup}
use db_query_operator.Cluster.{Reply, ok, err, cr_updated, Env}
use db_query_operator.Children.{object_id, get_object_key, is_stale, collect_all_child_resources}
use db_query_operator.Children.Collect.{IsFaithful}
use db_query_operator.Reconcile.Rows.{managed_keys}
use db_query_operator.Reconcile.Full.{finish}
use db_query_operator.Reconcile.Full.Dropped
use db_query_operator.Reconcile.Cleanup.{has_finalizer, clean_up, database_query_finalizer}
use db_query_operator.Reconcile.Cleanup.Unread
use db_query_operator.Reconcile.Entry.{write_back}
use db_query_operator.Reconcile.Entry.Deferred
use db_query_operator.Reconcile.Entry.Deferred.{WrittenBack}
use db_query_operator.Samples.Fixtures.{Value, cr, env, start, child, secret, conflicted}

-- A cluster that refuses every deletion.
abbrev refusing : Env ℕ Value (Unit {0}) (Unit {0})
refusing = record env { delete = λ w o. (err conflicted, w + 1) }

ok-same : {A B : Type 0} {a b : A} → ◌≡◌ {A = Reply B A} (ok a) (ok b) → a ≡ b
ok-same h = cc

refusing-IsFaithful : IsFaithful refusing
refusing-IsFaithful w id o h = ap object_id (sym (ok-same h))

finish_drops_stale_example :
    All
      (λ o. text_eq (get_object_key o) (get_object_key child) ≡ false)
      (collect_all_child_resources refusing
        (finish refusing (pos 300000000000) secret [] start).1).0
unfolding is_stale lookup managed_keys
finish_drops_stale_example =
    Dropped.finish_drops_stale refusing (pos 300000000000) secret [] start child refusing-IsFaithful
      refl

-- A cluster that answers no read.
abbrev silent : Env ℕ Value (Unit {0}) (Unit {0})
silent = record env { get = λ w id. (err conflicted, w) }

calls-clean_up_example :
    (clean_up silent start).1.calls
    ≡ [] ++ cr_updated (silent.remove_finalizer cr database_query_finalizer) ∷ []
unfolding has_finalizer text_eq
calls-clean_up_example = Unread.calls-clean_up silent (λ w id. (conflicted, refl)) start refl

write_back-WrittenBack_example :
    WrittenBack env
      (codes "default")
      (codes "q")
      false
      start
      (write_back env (codes "default") (codes "q") start).1
write_back-WrittenBack_example =
    Deferred.write_back-WrittenBack env (codes "default") (codes "q") start cr refl
