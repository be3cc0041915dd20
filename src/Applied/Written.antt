-- ===== src/Applied/Written.antt =====
-- What a success of `updateWithConflictRetry` means.
use db_query_operator.Prelude.{ℕ, zero, suc, Bool, true, false, ◌==◌, ◌≡◌, refl, arith}
use db_query_operator.Prelude.Text.{Text}
use db_query_operator.Cluster.{
  Object, ApiError, is_conflict, Reply, ok, err, Env, State, get, update,
}
use db_query_operator.Children.{object_id}
use db_query_operator.Applied.{
  apply_desired_state, set_last_applied_config, Retry, after_refetch, after_failure, after_update,
  write_attempt, retry, update_with_conflict_retry,
}
use db_query_operator.Applied.Retry.{IsOverlay}

module _ {W V D R : Type 0} (env : Env W V D R) (desired : Object V) where
  -- The server accepted the write of an overlay, and that was the last call.
  abbrev pub Accepted : State W V → Type 0
  Accepted t =
      (o stored : Object V) × (before : W) × IsOverlay env.codec desired o
      × (env.update before o ≡ (ok stored, t.world))

  -- A success means an accepted write.
  abbrev Succeeds : Reply Text (Unit {0}) → State W V → Type 0
  Succeeds (ok u) t = Accepted t
  Succeeds (err e) t = Unit {0}

  module _ (rest : Retry env)
      (ih : (o : Object V) (s : State W V) → Succeeds (rest o s).0 (rest o s).1) where
    after_refetch-Succeeds :
        (r : Reply ApiError (Object V)) (s : State W V)
        → Succeeds (after_refetch env rest r s).0 (after_refetch env rest r s).1
    unfolding after_refetch
    after_refetch-Succeeds (ok fresh) s = ih fresh s
    after_refetch-Succeeds (err e) s = tt

    after_failure-Succeeds :
        (again : Bool) (e : ApiError) (s : State W V)
        → let r = after_failure env rest again false desired e s in Succeeds r.0 r.1
    unfolding after_failure
    after_failure-Succeeds false e s = tt
    after_failure-Succeeds true e s =
        let (r, t) = get env (object_id desired) s in after_refetch-Succeeds r t

  -- The last attempt gives up.
  after_failure-last :
      (rest : Retry env) (again : Bool) (e : ApiError) (s : State W V)
      → let r = after_failure env rest again true desired e s in Succeeds r.0 r.1
  unfolding after_failure
  after_failure-last rest false e s = tt
  after_failure-last rest true e s = tt

  module _ (rest : Retry env) (last : Bool)
      (failure : (again : Bool) (e : ApiError) (s : State W V)
        → let r = after_failure env rest again last desired e s in Succeeds r.0 r.1) where
    after_update-Succeeds :
        (o : Object V) (before : W) (r : Reply ApiError (Object V)) (s : State W V)
        → IsOverlay env.codec desired o
        → env.update before o ≡ (r, s.world)
        → let u = after_update env rest last desired r s in Succeeds u.0 u.1
    unfolding after_update
    after_update-Succeeds o before (ok stored) s i e = (o, stored, before, i, e)
    after_update-Succeeds o before (err e) s i h = failure (is_conflict e) e s

    write_attempt-Succeeds :
        (live : Object V) (r : Reply Text (Object V)) (s : State W V)
        → set_last_applied_config env.codec (apply_desired_state env.codec live desired) ≡ r
        → let u = write_attempt env rest last desired r s in Succeeds u.0 u.1
    unfolding write_attempt
    write_attempt-Succeeds live (err e) s h = tt
    write_attempt-Succeeds live (ok o) s h =
        let (r, t) = update env o s in
        after_update-Succeeds o s.world r t (record { live = live; recorded = h }) refl

  not_last : (n : ℕ) → (suc n == 0) ≡ false
  not_last n = ground arith

  retry-Succeeds :
      (n : ℕ) (live : Object V) (s : State W V)
      → let r = retry env (suc n) desired live s in Succeeds r.0 r.1
  unfolding retry
  retry-Succeeds zero live s =
      write_attempt-Succeeds (retry env 0 desired) true (after_failure-last (retry env 0 desired))
        live _ s refl
  retry-Succeeds (suc n) live s = rw (not_last n) (
      write_attempt-Succeeds (retry env (suc n) desired) false
        (after_failure-Succeeds (retry env (suc n) desired) (retry-Succeeds n)) live _ s refl)

  Accepted-of_success :
      (r : Reply Text (Unit {0})) (t : State W V) (u : Unit {0})
      → r ≡ ok u
      → Succeeds r t
      → Accepted t
  Accepted-of_success (ok v) t u h a = a
  Accepted-of_success (err e) t u h a = cc h

  -- The update with retries reports success only after the server has accepted the write of an
  -- overlay of the desired state on a live object, and that write is its last call.
  pub update_with_conflict_retry-Accepted :
      (live : Object V) (s : State W V) (u : Unit {0})
      → (update_with_conflict_retry env live desired s).0 ≡ ok u
      → Accepted (update_with_conflict_retry env live desired s).1
  unfolding update_with_conflict_retry
  update_with_conflict_retry-Accepted live s u h =
      Accepted-of_success _ _ u h (retry-Succeeds 2 live s)
