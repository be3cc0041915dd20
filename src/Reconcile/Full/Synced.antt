-- ===== src/Reconcile/Full/Synced.antt =====
-- What a full pass makes of the cluster's children.
use mathlib.Core.Path.{subst}
use db_query_operator.Prelude.{Bool, true, false, ◌||◌, ◌≡◌, sym, ap, ◌∙◌, List, [], ◌∷◌, ◌++◌}
use db_query_operator.Prelude.Int.{ℤ}
use db_query_operator.Prelude.Text.{Text}
use db_query_operator.Prelude.Maps.{Map}
use db_query_operator.Api.{get_prune}
use db_query_operator.Cluster.{Object, Reply, ok, Env, State}
use db_query_operator.Children.{status_id, collect_all_child_resources, collect_managed_children}
use db_query_operator.Children.Removal.{is_dropped, prune-Removed, get_each-Keeps}
use db_query_operator.ChildStatus.Quiet.{update_status-Same}
use db_query_operator.Server.{
  View, Standing, exists, is_live, Removed, IsCluster, IsBystander, Keeps,
}
use db_query_operator.Reconcile.Managed.{sort_strings, keys_of}
use db_query_operator.Conditions.{set_condition}
use db_query_operator.Reconcile.Rows.{process_rows, managed_keys, row_errors}
use db_query_operator.Reconcile.Rows.Grown.{is_asked, present-process_rows}
use db_query_operator.Reconcile.Full.Dropped.{managed-finish}
use db_query_operator.Reconcile.Full.{prune_phase, conclude, finish, with_template}

-- What a pass makes of a resource: one dropped is gone or about to go, one that is asked for and
-- not dropped is there, and any other is there if it was.
abbrev pub Synced : (dropped asked : Bool) → (before after : Standing) → Type 0
Synced true asked before after = is_live after ≡ false
Synced false true before after = exists after ≡ true
Synced false false before after = exists after ≡ exists before

module _ {W V D R : Type 0} (env : Env W V D R) (resource : Text → Text) (view : W → View)
    (cluster : IsCluster env resource view) (bystander : IsBystander env view) where
  prune_phase-Removed :
      (keys : Map Bool) (s : State W V) (n : Text)
      → get_prune s.cr.spec ≡ true
      → (prune_phase env keys s).0 ≡ []
      → Removed
          (is_dropped resource keys s.cr.status.managed_resources n)
          (view s.world n)
          (view (prune_phase env keys s).1.world n)
  unfolding prune_phase collect_all_child_resources
  prune_phase-Removed keys s n on e =
      let names = s.cr.status.managed_resources in
      rw (on, prune_phase)
        (prune-Removed env resource view cluster keys names s n (rw (on, prune_phase) at e))

  conclude-Same :
      (poll : ℤ) (errors : List Text) (s : State W V)
      → view (conclude env poll errors s).1.world ≡ view s.world
  unfolding conclude set_condition
  conclude-Same poll [] s = bystander.now_keeps (env.now s.world).1 ∙ bystander.now_keeps s.world
  conclude-Same poll (e ∷ es) s = bystander.now_keeps s.world

  collect_managed_children-Keeps : (s : State W V) → Keeps view s (collect_managed_children env s).1
  unfolding collect_managed_children
  collect_managed_children-Keeps s =
      get_each-Keeps env resource view cluster status_id s.cr.status.managed_resources s

  -- Behind the pruning a pass leaves the cluster alone.
  finish-Same :
      (poll : ℤ) (config : Map Text) (outcomes : List (Reply Text (Object V))) (s : State W V)
      → view (finish env poll config outcomes s).1.world
        ≡ view (prune_phase env (managed_keys [] outcomes) s).1.world
  unfolding finish
  finish-Same poll config outcomes s =
      let (errors, pruned) = prune_phase env (managed_keys [] outcomes) s in
      let (children, read) = collect_managed_children env pruned in
      conclude-Same poll (row_errors outcomes ++ errors) _
      ∙ update_status-Same env view bystander config children read
      ∙ (collect_managed_children-Keeps pruned).1

  Synced-of_written :
      (dropped asked : Bool) (before written after : Standing)
      → exists written ≡ (asked || exists before)
      → Removed dropped written after
      → Synced dropped asked before after
  Synced-of_written true asked before written after g h = h
  Synced-of_written false true before written after g h = ap exists h ∙ g
  Synced-of_written false false before written after g h = ap exists h ∙ g

  finish-Removed :
      (poll : ℤ) (config : Map Text) (outcomes : List (Reply Text (Object V))) (s : State W V)
      (n : Text)
      → let keys = managed_keys [] outcomes in
        get_prune s.cr.spec ≡ true
        → (prune_phase env keys s).0 ≡ []
        → Removed
            (is_dropped resource keys s.cr.status.managed_resources n)
            (view s.world n)
            (view (finish env poll config outcomes s).1.world n)
  finish-Removed poll config outcomes s n on e =
      let keys = managed_keys [] outcomes in
      subst
        (λ (v : View).
          Removed (is_dropped resource keys s.cr.status.managed_resources n) (view s.world n) (v n))
        (sym (finish-Same poll config outcomes s)) (prune_phase-Removed keys s n on e)

  -- A pass that has its rows makes the cluster agree with them, where pruning is on and reports no
  -- error. A resource that a name on the list of managed resources stands for, where the name is no
  -- key of a row that was not skipped, is gone afterwards, or marked for deletion and waiting for
  -- its finalizers; this holds also where the name is a key of such a row's resource in another
  -- version. Every other resource that a row that was not skipped asks for is there, and any
  -- resource besides is there if it was. The list then names the keys of those rows. Nobody else
  -- writes meanwhile, and every read is answered; writes may fail.
  pub with_template-Synced :
      (poll : ℤ) (config : Map Text) (rows : List R) (u : Unit {0}) (s : State W V)
      → get_prune s.cr.spec ≡ true
      → (prune_phase env
          (managed_keys [] (process_rows env rows s).0)
          (process_rows env rows s).1).0
        ≡ []
      → let keys = managed_keys [] (process_rows env rows s).0 in
        let t = (with_template env poll config rows (ok u) s).1 in
        ((n : Text)
          → Synced
              (is_dropped resource keys s.cr.status.managed_resources n)
              (is_asked resource keys n)
              (view s.world n)
              (view t.world n))
        × (t.cr.status.managed_resources ≡ sort_strings (keys_of keys))
  unfolding with_template
  with_template-Synced poll config rows u s on e =
      let (outcomes, written) = process_rows env rows s in
      let keys = managed_keys [] outcomes in
      (
        λ n.
            let (same, grew) = present-process_rows env resource view cluster rows s n in
            Synced-of_written _ (is_asked resource keys n) (view s.world n) (view written.world n) _
              grew
              (subst
                (λ c.
                  Removed (is_dropped resource keys c.status.managed_resources n)
                    (view written.world n)
                    (view (finish env poll config outcomes written).1.world n))
                same
                (finish-Removed poll config outcomes written n
                  (ap (λ c. get_prune c.spec) same ∙ on) e)),
        managed-finish env poll config outcomes written,
      )
