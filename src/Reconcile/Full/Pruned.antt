-- ===== src/Reconcile/Full/Pruned.antt =====
-- What the pruning of a full pass deletes.
use mathlib.Core.Path.{fun_ext}
use db_query_operator.Prelude.{
  Bool, true, false, not, ◌||◌, ◌≡◌, refl, ap, ◌∙◌, List, [], ◌∷◌, ◌++◌, arith, map, if◌then◌else◌,
  append-nil,
}
use db_query_operator.Prelude.Lists.{All, any, keep}
use db_query_operator.Prelude.Text.{Text, text_eq}
use db_query_operator.Prelude.Maps.{Map, lookup, insert, lookup-insert}
use db_query_operator.Api.{get_prune}
use db_query_operator.Cluster.{Object, Reply, ok, err, deleted, Env, State}
use db_query_operator.Children.{
  get_object_key, is_stale, get_each, collect_id, collect_all_child_resources,
}
use db_query_operator.Children.Collect.{
  IsFaithful, member, get_each_writes_nothing, get_each-member,
}
use db_query_operator.Children.Prune.{calls-prune_stale_resources}
use db_query_operator.Reconcile.Managed.{is_managed}
use db_query_operator.Reconcile.Rows.{managed_keys}
use db_query_operator.Reconcile.Full.{prune_phase}

-- The row was skipped.
abbrev pub IsSkipped : {V : Type 0} → Reply Text (Object V) → Type 0
IsSkipped (ok o) = ⊥
IsSkipped (err e) = Unit

-- The row was processed, and its child has this key.
abbrev has_key : {V : Type 0} → Text → Reply Text (Object V) → Bool
has_key k (ok o) = text_eq (get_object_key o) k
has_key k (err e) = false

-- The child has the key of a row that was processed.
abbrev pub belongs : {V : Type 0} → List (Reply Text (Object V)) → Object V → Bool
belongs outcomes o = any (has_key (get_object_key o)) outcomes

module _ {V : Type 0} where
  is_managed-managed_keys :
      (outcomes : List (Reply Text (Object V))) (keys : Map Bool) (k : Text)
      → is_managed (managed_keys keys outcomes) k ≡ (is_managed keys k || any (has_key k) outcomes)
  unfolding managed_keys
  is_managed-managed_keys [] keys k = ground arith
  is_managed-managed_keys (err e ∷ rest) keys k = is_managed-managed_keys rest keys k
  is_managed-managed_keys (ok o ∷ rest) keys k =
      let inserted = insert (get_object_key o) true keys in
      is_managed-managed_keys rest inserted k
      ∙ ground (arith, lookup-insert (get_object_key o) k true keys)

  is_stale-belongs_at :
      (outcomes : List (Reply Text (Object V))) (o : Object V)
      → is_stale (managed_keys [] outcomes) o ≡ not (belongs outcomes o)
  unfolding is_stale lookup
  is_stale-belongs_at outcomes o =
      ground (arith, is_managed-managed_keys outcomes [] (get_object_key o))

  is_stale-belongs :
      (outcomes : List (Reply Text (Object V)))
      → is_stale {V = V} (managed_keys [] outcomes) ≡ (λ o. not (belongs outcomes o))
  is_stale-belongs outcomes = fun_ext (is_stale-belongs_at outcomes)

module _ {W V D R : Type 0} (env : Env W V D R) where
  abbrev pub children_of : State W V → List (Object V)
  children_of s = (collect_all_child_resources env s).0

  calls-prune_phase :
      (keys : Map Bool) (s : State W V)
      → (prune_phase env keys s).1.calls
        ≡ s.calls
          ++ map deleted (if get_prune s.cr.spec then keep (is_stale keys) (children_of s) else [])
  unfolding prune_phase collect_all_child_resources
  calls-prune_phase keys s =
      let names = s.cr.status.managed_resources in
      let (children, t) = get_each env collect_id names s in
      ground (
        arith,
        calls-prune_stale_resources env keys children t,
        (get_each_writes_nothing env collect_id names s).0,
        append-nil s.calls,
      )

  All-keep :
      (P : Object V → Type 0) (p : Object V → Bool) (os : List (Object V))
      → All P os
      → All P (keep p os)
  All-keep P p [] h = tt
  All-keep P p (o ∷ os) h = go (p o) (All-keep P p os h.1)
    where
      go : (b : Bool) → All P (keep p os) → All P (if b then o ∷ keep p os else keep p os)
      go true rest = (h.0, rest)
      go false rest = rest

  All-if :
      (P : Object V → Type 0) (b : Bool) (os : List (Object V))
      → All P os
      → All P (if b then os else [])
  All-if P true os h = h
  All-if P false os h = tt

  -- The pruning behind the rows deletes, in order, exactly the children found whose key is that of
  -- no row that was processed, of whatever kind and with whatever labels they are, and none where
  -- pruning is switched off. Each of them stands in the managed resources of the status. A read
  -- returns the object that was asked for.
  pub prune_phase_safe :
      (outcomes : List (Reply Text (Object V))) (s : State W V)
      → IsFaithful env
      → let stale =
          if get_prune s.cr.spec
          then keep (λ o. not (belongs outcomes o)) (children_of s)
          else [] in
        ((prune_phase env (managed_keys [] outcomes) s).1.calls ≡ s.calls ++ map deleted stale)
        × All (λ o. member (get_object_key o) s.cr.status.managed_resources ≡ true) stale
  unfolding collect_all_child_resources
  prune_phase_safe outcomes s faithful =
      let names = s.cr.status.managed_resources in
      let P : Object V → Type 0 = λ o. member (get_object_key o) names ≡ true in
      (
        rw (← is_stale-belongs outcomes) (calls-prune_phase (managed_keys [] outcomes) s),
        All-if P (get_prune s.cr.spec) _ (
            All-keep P (λ o. not (belongs outcomes o)) (children_of s)
              (get_each-member env faithful names s)),
      )

  keep-is_stale_nil : (os : List (Object V)) → keep (is_stale []) os ≡ os
  unfolding is_stale lookup
  keep-is_stale_nil [] = refl
  keep-is_stale_nil (o ∷ os) = ap (◌∷◌ o) (keep-is_stale_nil os)

  managed_keys-skipped :
      (outcomes : List (Reply Text (Object V)))
      → All IsSkipped outcomes
      → managed_keys [] outcomes ≡ []
  unfolding managed_keys
  managed_keys-skipped [] h = refl
  managed_keys-skipped (err e ∷ rest) h = managed_keys-skipped rest h.1
  managed_keys-skipped (ok o ∷ rest) h = absurd h.0

  -- If every row of the result was skipped for an error, such as a template that does not render, a
  -- pass with pruning switched on deletes every child that it finds, although none of their rows is
  -- gone.
  pub prune_phase_skipped :
      (outcomes : List (Reply Text (Object V))) (s : State W V)
      → All IsSkipped outcomes
      → get_prune s.cr.spec ≡ true
      → (prune_phase env (managed_keys [] outcomes) s).1.calls
        ≡ s.calls ++ map deleted (children_of s)
  prune_phase_skipped outcomes s h on =
      rw (managed_keys-skipped outcomes h)
        (calls-prune_phase [] s ∙ rw on (rw (keep-is_stale_nil (children_of s))))
