-- ===== src/Applied/Retry.antt =====
-- The writes of `updateWithConflictRetry`.
use db_query_operator.Prelude.{
  ℕ, zero, suc, ◌≤◌, Bool, true, false, ◌≡◌, refl, sym, ap, ◌∙◌, List, [], ◌∷◌, ◌++◌, arith, map,
  append-nil, append_assoc, ◌==◌,
}
use db_query_operator.Prelude.Lists.{length, All}
use db_query_operator.Prelude.Text.{Text}
use db_query_operator.Cluster.{
  Object, ApiError, is_conflict, Reply, ok, err, Codec, updated, Env, State, get, update,
}
use db_query_operator.Children.{object_id}
use db_query_operator.Applied.{
  set_last_applied_config, apply_desired_state, write_attempt, after_update, after_refetch,
  after_failure, retry, update_with_conflict_retry, max_retries,
}

-- The object to write is the overlay of `desired` on some live object, with its configuration
-- recorded in the annotation.
pub record IsOverlay {V : Type 0} (codec : Codec V) (desired o : Object V) : Type 0 where
  pub live : Object V
  pub recorded : set_last_applied_config codec (apply_desired_state codec live desired) ≡ ok o

module _ {W V D R : Type 0} (env : Env W V D R) (desired : Object V) where
  -- The overlay is on `live`, with its configuration recorded.
  abbrev pub IsOverlayOn : Object V → Object V → Type 0
  IsOverlayOn live o =
      set_last_applied_config env.codec (apply_desired_state env.codec live desired) ≡ ok o

  -- The overlay is on what a read under the identity of the desired object has returned.
  pub record IsOverlayOfRead (o : Object V) : Type 0 where
    pub live : Object V
    pub asked : W
    pub answered : (env.get asked (object_id desired)).0 ≡ ok live
    pub recorded : IsOverlayOn live o

  -- The first overlay is on `live`, and each later one on what a read has returned.
  abbrev pub AreOverlays : Object V → List (Object V) → Type 0
  AreOverlays live [] = Unit
  AreOverlays live (o ∷ os) = IsOverlayOn live o × All IsOverlayOfRead os

  -- The updates added to the list of calls, at most `n` of them.
  pub record Updates (n : ℕ) (live : Object V) (s t : State W V) : Type 0 where
    pub objects : List (Object V)
    pub each : AreOverlays live objects
    pub bounded : length objects ≤ n
    pub calls : t.calls ≡ s.calls ++ map updated objects

  -- The same behind a read: all of the overlays are on what a read has returned.
  record Refreshed (n : ℕ) (s t : State W V) : Type 0 where
    objects : List (Object V)
    each : All IsOverlayOfRead objects
    bounded : length objects ≤ n
    calls : t.calls ≡ s.calls ++ map updated objects

  none_written : (n : ℕ) (s t : State W V) → t.calls ≡ s.calls → Refreshed n s t
  none_written n s t e = record {
    objects = [];
    each = tt;
    bounded = omega arith;
    calls = e ∙ sym (append-nil s.calls);
  }

  one_more :
      (n : ℕ) (live o : Object V) (s t u : State W V)
      → IsOverlayOn live o
      → t.calls ≡ s.calls ++ updated o ∷ []
      → Refreshed n t u
      → Updates (suc n) live s u
  one_more n live o s t u h e w = record {
    objects = o ∷ w.objects;
    each = (h, w.each);
    bounded = omega (arith, w.bounded);
    calls =
        w.calls
        ∙ ap (λ c. c ++ map updated w.objects) e
        ∙ append_assoc s.calls (updated o ∷ []) (map updated w.objects);
  }

  All-read :
      (w : W) (fresh : Object V) (os : List (Object V))
      → (env.get w (object_id desired)).0 ≡ ok fresh
      → AreOverlays fresh os
      → All IsOverlayOfRead os
  All-read w fresh [] h each = tt
  All-read w fresh (o ∷ os) h (first, rest) =
      (record { live = fresh; asked = w; answered = h; recorded = first }, rest)

  nothing : (n : ℕ) (live : Object V) (s t : State W V) → t.calls ≡ s.calls → Updates n live s t
  nothing n live s t e = record {
    objects = [];
    each = tt;
    bounded = omega arith;
    calls = e ∙ sym (append-nil s.calls);
  }

  module _ (n : ℕ)
      (ih : (fresh : Object V) (t : State W V)
        → Updates n fresh t (retry env n desired fresh t).1) where
    after_refetch-Refreshed :
        (w : W) (r : Reply ApiError (Object V)) (s : State W V)
        → (env.get w (object_id desired)).0 ≡ r
        → Refreshed n s (after_refetch env (retry env n desired) r s).1
    unfolding after_refetch
    after_refetch-Refreshed w (ok fresh) s e =
        let u = ih fresh s in
        record {
          objects = u.objects;
          each = All-read w fresh u.objects e u.each;
          bounded = u.bounded;
          calls = u.calls;
        }
    after_refetch-Refreshed w (err x) s e = none_written n s s refl

    after_failure-Refreshed :
        (again last : Bool) (e : ApiError) (s : State W V)
        → Refreshed n s (after_failure env (retry env n desired) again last desired e s).1
    unfolding after_failure
    after_failure-Refreshed false last e s = none_written n s s refl
    after_failure-Refreshed true true e s = none_written n s s refl
    after_failure-Refreshed true false e s =
        let (r, t) = get env (object_id desired) s in
        let w = after_refetch-Refreshed s.world r t refl in
        record { objects = w.objects; each = w.each; bounded = w.bounded; calls = w.calls }

    after_update-Refreshed :
        (r : Reply ApiError (Object V)) (s : State W V)
        → Refreshed n s (after_update env (retry env n desired) (n == 0) desired r s).1
    unfolding after_update
    after_update-Refreshed (ok o) s = none_written n s s refl
    after_update-Refreshed (err e) s = after_failure-Refreshed (is_conflict e) (n == 0) e s

    write_attempt-Updates :
        (live : Object V) (r : Reply Text (Object V)) (s : State W V)
        → set_last_applied_config env.codec (apply_desired_state env.codec live desired) ≡ r
        → Updates (suc n) live s (write_attempt env (retry env n desired) (n == 0) desired r s).1
    unfolding write_attempt
    write_attempt-Updates live (err e) s h = nothing (suc n) live s s refl
    write_attempt-Updates live (ok o) s h =
        let (r, t) = update env o s in one_more n live o s t _ h refl (after_update-Refreshed r t)

  retry-Updates :
      (n : ℕ) (live : Object V) (s : State W V) → Updates n live s (retry env n desired live s).1
  unfolding retry
  retry-Updates zero live s = nothing 0 live s s refl
  retry-Updates (suc n) live s = write_attempt-Updates n (retry-Updates n) live _ s refl

  -- Whatever other writers do, an update of a child issues at most three writes, all of them
  -- updates with an overlay of the desired state, the configuration recorded in the annotation: the
  -- first one on the live object given, and each later one on an object that a read under the
  -- identity of the desired one has returned.
  pub update_with_conflict_retry-Updates :
      (live : Object V) (s : State W V)
      → Updates max_retries live s (update_with_conflict_retry env live desired s).1
  unfolding update_with_conflict_retry
  update_with_conflict_retry-Updates live s = retry-Updates max_retries live s
