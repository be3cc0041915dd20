-- ===== src/Reconcile/Cleanup/Complete.antt =====
-- What the finalizer's cleanup deletes, and when it lets the custom resource go.
use mathlib.Core.Path.{subst}
use db_query_operator.Prelude.{
  arith, Bool, true, false, ◌&&◌, ◌≡◌, refl, sym, ap, ◌∙◌, ◌⊎◌, inl, inr, Option, none, some, List,
  [], ◌∷◌, ◌++◌, map, append-nil, append_assoc,
}
use db_query_operator.Api.{DatabaseQueryResource}
use db_query_operator.Cluster.{
  Reply, ok, err, is_not_found, Object, ApiError, deleted, cr_updated, Env, State, delete,
}
use db_query_operator.Children.{collect_all_child_resources, get_each, collect_id}
use db_query_operator.Children.Collect.{get_each_writes_nothing}
use db_query_operator.Reconcile.Full.{Result, done, failed}
use db_query_operator.Reconcile.Cleanup.{
  has_finalizer, delete_failure, unless_failed, delete_all, updated_result, after_deletes, clean_up,
  database_query_finalizer,
}

module _ {W V D R : Type 0} (env : Env W V D R) where
  -- An answer to a delete after which the child no longer exists.
  abbrev pub is_gone : Reply ApiError (Unit {0}) → Bool
  is_gone (ok u) = true
  is_gone (err e) = is_not_found e

  -- The deletes of the children, one after the other, all get such an answer.
  abbrev pub all_gone : List (Object V) → State W V → Bool
  all_gone [] s = true
  all_gone (o ∷ os) s =
      let rest = all_gone os (delete env o s).1 in is_gone (env.delete s.world o).0 && rest

  -- What the deletes of the children, one after the other, leave.
  abbrev pub deleted_all : List (Object V) → State W V → State W V
  deleted_all [] s = s
  deleted_all (o ∷ os) s = deleted_all os (delete env o s).1

  -- The first children are gone, and the delete of the next one is answered by another error.
  abbrev pub StopsAt : List (Object V) → Object V → State W V → ApiError → Type 0
  StopsAt gone o s e =
      (all_gone gone s ≡ true)
      × ((env.delete (deleted_all gone s).world o).0 ≡ err e)
      × (is_not_found e ≡ false)

  -- The deletes went through the whole list, or stopped behind a failed one.
  abbrev Deletes : List (Object V) → State W V → Option ApiError → State W V → Type 0
  Deletes os s none t =
      (t.calls ≡ s.calls ++ map deleted os)
      × (t.cr ≡ s.cr)
      × (t.world ≡ (deleted_all os s).world)
      × (all_gone os s ≡ true)
  Deletes os s (some e) t =
      (gone : List (Object V)) × (o : Object V) × (rest : List (Object V)) × (os ≡ gone ++ o ∷ rest)
      × (t.calls ≡ s.calls ++ map deleted (gone ++ o ∷ []))
      × StopsAt gone o s e

  -- What the loop makes of an answer.
  Reports : Reply ApiError (Unit {0}) → Option ApiError → Type 0
  Reports r none = is_gone r ≡ true
  Reports r (some e) = (r ≡ err e) × (is_not_found e ≡ false)

  decided-Reports :
      (e : ApiError) (b : Bool)
      → is_not_found e ≡ b
      → Reports (err e) (elim b [ true ↦ none | false ↦ some e ])
  unfolding Reports
  decided-Reports e true h = h
  decided-Reports e false h = (refl, h)

  delete_failure-Reports : (r : Reply ApiError (Unit {0})) → Reports r (delete_failure env r)
  unfolding delete_failure Reports
  delete_failure-Reports (ok u) = refl
  delete_failure-Reports (err e) = decided-Reports e (is_not_found e) refl

  Deletes-cons :
      (o : Object V) (os : List (Object V)) (s t : State W V) (e : Option ApiError)
      → is_gone (env.delete s.world o).0 ≡ true
      → Deletes os (delete env o s).1 e t
      → Deletes (o ∷ os) s e t
  Deletes-cons o os s t none g (calls, kept, left, gone) = (
    calls ∙ append_assoc s.calls (deleted o ∷ []) (map deleted os),
    kept,
    left,
    ground (arith, g, gone),
  )
  Deletes-cons o os s t (some e) g (gone, p, rest, split, calls, (here, answer, real)) = (
    o ∷ gone,
    p,
    rest,
    ap (◌∷◌ o) split,
    calls ∙ append_assoc s.calls (deleted o ∷ []) (map deleted (gone ++ p ∷ [])),
    (ground (arith, g, here), answer, real),
  )

  unless_failed-Deletes :
      (o : Object V) (os : List (Object V)) (s : State W V) (e : Option ApiError)
      → Reports (env.delete s.world o).0 e
      → Deletes os
          (delete env o s).1
          (delete_all env os (delete env o s).1).0
          (delete_all env os (delete env o s).1).1
      → let r = unless_failed env (delete_all env os) e (delete env o s).1 in
        Deletes (o ∷ os) s r.0 r.1
  unfolding unless_failed Reports
  unless_failed-Deletes o os s (some e) (a, r) ih = ([], o, os, refl, refl, (refl, a, r))
  unless_failed-Deletes o os s none r ih = Deletes-cons o os s _ _ r ih

  delete_all-Deletes :
      (os : List (Object V)) (s : State W V)
      → Deletes os s (delete_all env os s).0 (delete_all env os s).1
  unfolding delete_all
  delete_all-Deletes [] s = (sym (append-nil s.calls), refl, refl, refl)
  delete_all-Deletes (o ∷ os) s =
      let s' = (delete env o s).1 in
      unless_failed-Deletes o os s (delete_failure env (env.delete s.world o).0)
        (delete_failure-Reports (env.delete s.world o).0) (delete_all-Deletes os s')

  -- The result is the answer to the update of the custom resource.
  abbrev pub Tells : Reply ApiError DatabaseQueryResource → Result → Type 0
  Tells (ok cr) result = result ≡ done
  Tells (err e) result = result ≡ failed e

  -- How the cleanup of the children found ends, where `found` is the state they were found in:
  -- every child is gone, and then the custom resource was updated without the finalizer; or a
  -- delete failed, with no write behind it.
  abbrev pub Ends : List (Object V) → State W V → State W V → Result → State W V → Type 0
  Ends children s found result t =
      let released = env.remove_finalizer s.cr database_query_finalizer in
      ((t.calls ≡ s.calls ++ (map deleted children ++ cr_updated released ∷ []))
        × (all_gone children found ≡ true)
        × Tells (env.update_cr (deleted_all children found).world released).0 result)
      ⊎ ((e : ApiError) × (gone : List (Object V)) × (o : Object V) × (rest : List (Object V))
          × (result ≡ failed e)
          × (children ≡ gone ++ o ∷ rest)
          × (t.calls ≡ s.calls ++ map deleted (gone ++ o ∷ []))
          × StopsAt gone o found e)

  updated_result-Tells : (r : Reply ApiError DatabaseQueryResource) → Tells r (updated_result env r)
  unfolding updated_result
  updated_result-Tells (ok cr) = refl
  updated_result-Tells (err e) = refl

  after_deletes-Ends :
      (children : List (Object V)) (s found t : State W V)
      → (found.calls ≡ s.calls) × (found.cr ≡ s.cr)
      → (e : Option ApiError) → Deletes children found e t
      → Ends children s found (after_deletes env e t).0 (after_deletes env e t).1
  unfolding after_deletes
  after_deletes-Ends children s found t m (some e) (gone, o, rest, split, calls, stops) = inr (
    e,
    gone,
    o,
    rest,
    refl,
    split,
    calls ∙ ap (λ x. x ++ map deleted (gone ++ o ∷ [])) m.0,
    stops,
  )
  after_deletes-Ends children s found t m none (calls, kept, left, gone) =
      let release : DatabaseQueryResource → DatabaseQueryResource =
        λ d. env.remove_finalizer d database_query_finalizer in
      let same = kept ∙ m.1 in
      inl (
        ap (λ c. c ++ cr_updated (release t.cr) ∷ [])
              (calls ∙ ap (λ x. x ++ map deleted children) m.0)
            ∙ append_assoc s.calls (map deleted children) _
            ∙ ap (λ d. s.calls ++ (map deleted children ++ cr_updated (release d) ∷ [])) same,
        gone,
        subst
            (λ (p : W × DatabaseQueryResource).
              Tells (env.update_cr p.0 (release p.1)).0 (after_deletes env none t).0)
            (λ i. (left i, same i)) (updated_result-Tells _),
      )

  clean_up_with :
      (s : State W V) (children : List (Object V)) (t : State W V)
      → (t.calls ≡ s.calls) × (t.cr ≡ s.cr)
      → let d = delete_all env children t in
        Ends children s t (after_deletes env d.0 d.1).0 (after_deletes env d.0 d.1).1
  clean_up_with s children t m =
      let d = delete_all env children t in
      after_deletes-Ends children s t d.1 m d.0 (delete_all-Deletes children t)

  -- With the finalizer present the cleanup either deletes every child that it finds, in order, each
  -- answered as done or not found, and then updates the custom resource without the finalizer and
  -- returns the answer to that; or it stops at the first child whose delete is answered by another
  -- error, with all those in front of it answered as done or not found: then it returns that error
  -- and writes nothing more, so the finalizer stays for the next attempt.
  pub clean_up-Ends :
      (s : State W V)
      → has_finalizer s.cr.finalizers ≡ true
      → Ends
          (collect_all_child_resources env s).0
          s
          (collect_all_child_resources env s).1
          (clean_up env s).0
          (clean_up env s).1
  unfolding clean_up collect_all_child_resources
  clean_up-Ends s h =
      let names = s.cr.status.managed_resources in
      let (children, t) = get_each env collect_id names s in
      let w = get_each_writes_nothing env collect_id names s in
      rw (h, clean_up) (clean_up_with s children t w)
