-- ===== src/Applied/Grown.antt =====
-- The resource that an update with retries adds to those present.
use db_query_operator.Prelude.{
  ℕ, zero, suc, Bool, true, false, ◌==◌, ◌≡◌, refl, sym, ap, ◌∙◌, arith, inl, inr, Option-cases,
}
use db_query_operator.Prelude.Text.{Text}
use db_query_operator.Cluster.{
  Object, ApiError, Codec, is_conflict, Reply, ok, err, Env, State, get, update,
}
use db_query_operator.Children.{object_id, get_object_key}
use db_query_operator.Server.{
  View, IsCluster, Grows, Grows-after_Keeps, Grows-after_err, Grows-err, Grows-ok, text_reply,
  get-Keeps, get_found, update-Grows, ok-same,
}
use db_query_operator.Applied.{
  apply_desired_state, set_last_applied_config, config_of, Retry, after_refetch, after_failure,
  after_update, write_attempt, retry, update_with_conflict_retry,
}

-- The configuration recorded in the annotation leaves the key.
pub get_object_key-set_last_applied_config :
    {V : Type 0} (codec : Codec V) (o p : Object V)
    → set_last_applied_config codec o ≡ ok p
    → get_object_key p ≡ get_object_key o
unfolding set_last_applied_config get_object_key
get_object_key-set_last_applied_config codec o p h =
    elim (Option-cases (codec.marshal_config (config_of codec o))) [
      | inl e ↦ cc (rw (e, set_last_applied_config) at h)
      | inr (t, e) ↦ sym (ap get_object_key (ok-same _ p (rw (e, set_last_applied_config) at h)))
    ]

pub get_object_key-apply_desired_state :
    {V : Type 0} (codec : Codec V) (existing desired : Object V)
    → get_object_key (apply_desired_state codec existing desired) ≡ get_object_key existing
unfolding apply_desired_state get_object_key
get_object_key-apply_desired_state codec existing desired = refl

module _ {W V D R : Type 0} (env : Env W V D R) (resource : Text → Text) (view : W → View)
    (cluster : IsCluster env resource view) (desired : Object V) where
  abbrev Adds : Reply Text (Unit {0}) → State W V → State W V → Type 0
  Adds = Grows view (resource (get_object_key desired))

  -- The object that a conflict has read again has the key of the desired one.
  module _ (rest : Retry env)
      (ih : (o : Object V) (s : State W V)
        → get_object_key o ≡ get_object_key desired
        → Adds (rest o s).0 s (rest o s).1) where
    after_refetch-Adds :
        (r : Reply ApiError (Object V)) (s : State W V)
        → ((o : Object V) → r ≡ ok o → get_object_key o ≡ get_object_key desired)
        → Adds (after_refetch env rest r s).0 s (after_refetch env rest r s).1
    unfolding after_refetch
    after_refetch-Adds (ok fresh) s h = ih fresh s (h fresh refl)
    after_refetch-Adds (err e) s h = Grows-err view _ e.message s

    after_failure-Adds :
        (again : Bool) (e : ApiError) (s : State W V)
        → let r = after_failure env rest again false desired e s in Adds r.0 s r.1
    unfolding after_failure get_object_key
    after_failure-Adds false e s = Grows-err view _ e.message s
    after_failure-Adds true e s =
        let (r, t) = get env (object_id desired) s in
        Grows-after_Keeps view _ _ s t _ (get-Keeps env resource view cluster (object_id desired) s)
          (after_refetch-Adds r t
            (λ o h. (get_found env resource view cluster (object_id desired) o s.world h).1))

  after_failure-last_Adds :
      (rest : Retry env) (again : Bool) (e : ApiError) (s : State W V)
      → let r = after_failure env rest again true desired e s in Adds r.0 s r.1
  unfolding after_failure
  after_failure-last_Adds rest false e s = Grows-err view _ e.message s
  after_failure-last_Adds rest true e s = Grows-err view _ e.message s

  module _ (rest : Retry env) (last : Bool)
      (failure : (again : Bool) (e : ApiError) (s : State W V)
        → let r = after_failure env rest again last desired e s in Adds r.0 s r.1) where
    after_update-Adds :
        (o : Object V) (r : Reply ApiError (Object V)) (s t : State W V)
        → get_object_key o ≡ get_object_key desired
        → Grows view (resource (get_object_key o)) (text_reply r) s t
        → let u = after_update env rest last desired r t in Adds u.0 s u.1
    unfolding after_update
    after_update-Adds o (ok stored) s t e g = Grows-ok view _ _ _ _ s t (ap resource e) g
    after_update-Adds o (err e) s t k g =
        Grows-after_err view {B = Object V} (resource (get_object_key desired)) e.message _ s t _
          (record { same_cr = g.same_cr; names = g.names }) (failure (is_conflict e) e t)

    write_attempt-Adds :
        (live : Object V) (r : Reply Text (Object V)) (s : State W V)
        → get_object_key live ≡ get_object_key desired
        → set_last_applied_config env.codec (apply_desired_state env.codec live desired) ≡ r
        → let u = write_attempt env rest last desired r s in Adds u.0 s u.1
    unfolding write_attempt
    write_attempt-Adds live (err e) s k h = Grows-err view _ e s
    write_attempt-Adds live (ok o) s k h =
        after_update-Adds o (env.update s.world o).0 s (update env o s).1
          (get_object_key-set_last_applied_config env.codec _ o h
            ∙ get_object_key-apply_desired_state env.codec live desired
            ∙ k)
          (update-Grows env resource view cluster o s)

  not_last : (n : ℕ) → (suc n == 0) ≡ false
  not_last n = ground arith

  retry-Adds :
      (n : ℕ) (live : Object V) (s : State W V)
      → get_object_key live ≡ get_object_key desired
      → let r = retry env (suc n) desired live s in Adds r.0 s r.1
  unfolding retry
  retry-Adds zero live s k =
      write_attempt-Adds (retry env 0 desired) true (after_failure-last_Adds (retry env 0 desired))
        live _ s k refl
  retry-Adds (suc n) live s k = rw (not_last n) (
      write_attempt-Adds (retry env (suc n) desired) false
        (after_failure-Adds (retry env (suc n) desired) (retry-Adds n)) live _ s k refl)

  -- The update with retries adds the resource of the desired object if it succeeds, and else leaves
  -- those present as they are.
  pub update_with_conflict_retry-Grows :
      (live : Object V) (s : State W V)
      → get_object_key live ≡ get_object_key desired
      → let r = update_with_conflict_retry env live desired s in Adds r.0 s r.1
  unfolding update_with_conflict_retry
  update_with_conflict_retry-Grows live s k = retry-Adds 2 live s k
