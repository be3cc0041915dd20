-- ===== src/Children/Collect.antt =====
-- What the loops over `Status.ManagedResources` return, and that they write nothing.
use db_query_operator.Prelude.{
  Bool, true, ◌≡◌, refl, sym, ap, ◌∙◌, Option, none, some, List, [], ◌∷◌, arith,
}
use db_query_operator.Prelude.Lists.{All, any, All-append}
use db_query_operator.Prelude.Text.{Text, text_eq, text_eq_refl}
use db_query_operator.Cluster.{Object, ResourceId, ApiError, Reply, ok, err, Env, State}
use db_query_operator.Children.{
  print_id, object_id, get_object_key, collect_id, found, get_one, get_each,
}
use db_query_operator.Children.Keys.{collect_id-print}

-- A read returns the object that was asked for.
abbrev pub IsFaithful : {W V D R : Type 0} → Env W V D R → Type 0
IsFaithful {W} {V} env =
    (w : W) (id : ResourceId) (o : Object V) → (env.get w id).0 ≡ ok o → object_id o ≡ id

abbrev pub member : Text → List Text → Bool
member key = any (λ k. text_eq k key)

module _ {W V D R : Type 0} (env : Env W V D R) where
  abbrev Leaves : State W V → State W V → Type 0
  Leaves s t = (t.calls ≡ s.calls) × (t.cr ≡ s.cr)

  get_one_writes_nothing : (o : Option ResourceId) (s : State W V) → Leaves s (get_one env o s).1
  unfolding get_one
  get_one_writes_nothing none s = (refl, refl)
  get_one_writes_nothing (some id) s = (refl, refl)

  pub get_each_writes_nothing :
      (parse : Text → Option ResourceId) (keys : List Text) (s : State W V)
      → Leaves s (get_each env parse keys s).1
  unfolding get_each
  get_each_writes_nothing parse [] s = (refl, refl)
  get_each_writes_nothing parse (key ∷ keys) s =
      let h = get_one_writes_nothing (parse key) s in
      let t = get_each_writes_nothing parse keys (get_one env (parse key) s).1 in
      (t.0 ∙ h.0, t.1 ∙ h.1)

  get_one-member :
      IsFaithful env
      → (key : Text) (keys : List Text) (s : State W V)
      → All (λ o. member (get_object_key o) (key ∷ keys) ≡ true) (get_one env (collect_id key) s).0
  unfolding get_one get_object_key
  get_one-member faithful key keys s = go (collect_id key) refl
    where
      hit :
          (id : ResourceId)
          → collect_id key ≡ some id
          → (r : Reply ApiError (Object V)) → (env.get s.world id).0 ≡ r
          → All (λ o. member (get_object_key o) (key ∷ keys) ≡ true) (found env r)
      hit id e (err x) eq = tt
      hit id e (ok o) eq =
          let same = ap print_id (faithful s.world id o eq) ∙ collect_id-print key e in
          (rw (sym same) (ground (arith, text_eq_refl key)), tt)

      go :
          (r : Option ResourceId)
          → collect_id key ≡ r
          → All (λ o. member (get_object_key o) (key ∷ keys) ≡ true) (get_one env r s).0
      go none e = tt
      go (some id) e = hit id e (env.get s.world id).0 refl

  All-widen :
      (key : Text) (keys : List Text) (os : List (Object V))
      → All (λ o. member (get_object_key o) keys ≡ true) os
      → All (λ o. member (get_object_key o) (key ∷ keys) ≡ true) os
  All-widen key keys [] h = tt
  All-widen key keys (o ∷ os) h = (ground (arith, h.0), All-widen key keys os h.1)

  -- Every child that the collection returns has one of the keys collected from.
  pub get_each-member :
      IsFaithful env
      → (keys : List Text) (s : State W V)
      → All (λ o. member (get_object_key o) keys ≡ true) (get_each env collect_id keys s).0
  unfolding get_each
  get_each-member faithful [] s = tt
  get_each-member faithful (key ∷ keys) s =
      let s' = (get_one env (collect_id key) s).1 in
      All-append _ _ _ (get_one-member faithful key keys s)
        (All-widen key keys _ (get_each-member faithful keys s'))
