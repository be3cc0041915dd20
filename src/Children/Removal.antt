-- ===== src/Children/Removal.antt =====
-- What the pruning makes of the resources.
use db_query_operator.Prelude.{
  Option-cases, Bool, true, false, not, ◌&&◌, ◌||◌, ◌≡◌, refl, sym, ap, ◌∙◌, inl, inr, Bool-cases,
  Option, none, some, List, [], ◌∷◌, ◌++◌, arith,
}
use mathlib.Core.Path.{subst}
use db_query_operator.Prelude.Lists.{any}
use db_query_operator.Prelude.Text.{Text, text_eq, text_eq_iff}
use db_query_operator.Prelude.Maps.{Map, lookup}
use db_query_operator.Cluster.{
  Object, ResourceId, ApiError, is_not_found, Reply, ok, err, Env, State, delete,
}
use db_query_operator.Children.{
  get_object_key, is_stale, collect_id, found, get_one, get_each, after_delete, prune_one,
  prune_stale_resources,
}
use db_query_operator.Server.{
  View, Standing, absent, live, leaving, exists, is_live, Answers, Removed, Removes, IsCluster,
  present, Keeps, get-Keeps,
}
use db_query_operator.Children.Keys.{collect_id-print}

abbrev is_some : {A : Type 0} → Option A → Bool
is_some none = false
is_some (some a) = true

-- The child is stale, and its key stands for the resource.
abbrev hits : {V : Type 0} → (Text → Text) → Map Bool → Text → Object V → Bool
hits resource keys n o = is_stale keys o && text_eq (resource (get_object_key o)) n

-- A name on the list that is no key of the pass stands for the resource, in a form that the
-- collection reads.
abbrev drops : (Text → Text) → Map Bool → Text → Text → Bool
drops resource keys n name =
    not (is_some (lookup name keys)) && (text_eq (resource name) n && is_some (collect_id name))

abbrev pub is_dropped : (Text → Text) → Map Bool → List Text → Text → Bool
is_dropped resource keys names n = any (drops resource keys n) names

-- What is gone stays gone, and what stays, stays.
Removed-trans :
    (b c : Bool) (u v w : Standing) → Removed b u v → Removed c v w → Removed (b || c) u w
Removed-trans true true u v w h k = k
Removed-trans true false u v w h k = ap is_live k ∙ h
Removed-trans false true u v w h k = k
Removed-trans false false u v w h k = k ∙ h

-- What was not there need not be removed.
Removed-absent : (b : Bool) (v w : Standing) → Removed (b && exists v) v w → Removed b v w
Removed-absent true absent w h = ap is_live h
Removed-absent true live w h = h
Removed-absent true leaving w h = h
Removed-absent false v w h = h

Removed-none :
    (before : View) (name n : Text)
    → before name ≡ absent
    → Removed (text_eq name n) (before n) (before n)
Removed-none before name n h = elim (Bool-cases (text_eq name n)) [
  | inl e ↦ rw e (ap (λ m. is_live (before m)) (sym ((text_eq_iff name n).0 e)) ∙ ap is_live h)
  | inr e ↦ rw e refl
]

module _ {W V D R : Type 0} (env : Env W V D R) (resource : Text → Text) (view : W → View) where
  after_delete-Removed :
      (item : Object V) (r : Reply ApiError (Unit {0})) (s t : State W V) (n : Text)
      → Removes resource (view s.world) item r (view t.world)
      → (after_delete env (get_object_key item) r t).0 ≡ []
      → Removed
          (text_eq (resource (get_object_key item)) n)
          (view s.world n)
          (view (after_delete env (get_object_key item) r t).1.world n)
  unfolding after_delete
  after_delete-Removed item (ok u) s t n h e = h n
  after_delete-Removed item (err x) s t n (same, inl f) e = cc (f, e)
  after_delete-Removed item (err x) s t n (same, inr gone) e = elim (Bool-cases (is_not_found x)) [
    | inl f ↦ rw f (
        subst
          (λ (v : View).
            Removed (text_eq (resource (get_object_key item)) n) (view s.world n) (v n))
          (sym same) (Removed-none (view s.world) (resource (get_object_key item)) n gone))
    | inr f ↦ cc (f, e)
  ]

module _ {W V D R : Type 0} (env : Env W V D R) (resource : Text → Text) (view : W → View)
    (cluster : IsCluster env resource view) where
  prune_one-Removed :
      (keys : Map Bool) (item : Object V) (s : State W V) (n : Text)
      → (prune_one env keys item s).0 ≡ []
      → Removed
          (hits resource keys n item)
          (view s.world n)
          (view (prune_one env keys item s).1.world n)
  unfolding prune_one
  prune_one-Removed keys item s n e = elim (Bool-cases (is_stale keys item)) [
    | inl b ↦
        let (r, t) = delete env item s in
        rw (b, prune_one)
          (after_delete-Removed env resource view item r s t n (cluster.delete_removes s.world item)
            (rw (b, prune_one) at e))
    | inr b ↦ rw (b, prune_one) refl
  ]

  append-eq-nil : (xs ys : List Text) → xs ++ ys ≡ [] → (xs ≡ []) × (ys ≡ [])
  append-eq-nil [] ys h = (refl, h)
  append-eq-nil (x ∷ xs) ys h = cc

  -- A pruning without errors removes the resources of the stale children, and no others.
  pub prune_stale_resources-Removed :
      (keys : Map Bool) (items : List (Object V)) (s : State W V) (n : Text)
      → (prune_stale_resources env keys items s).0 ≡ []
      → Removed
          (any (hits resource keys n) items)
          (view s.world n)
          (view (prune_stale_resources env keys items s).1.world n)
  unfolding prune_stale_resources
  prune_stale_resources-Removed keys [] s n e = refl
  prune_stale_resources-Removed keys (item ∷ items) s n e =
      let (r, t) = prune_one env keys item s in
      let (here, rest) = append-eq-nil r (prune_stale_resources env keys items t).0 e in
      Removed-trans (hits resource keys n item) (any (hits resource keys n) items) _ _ _
        (prune_one-Removed keys item s n here) (prune_stale_resources-Removed keys items t n rest)

  found_ok-hits :
      (keys : Map Bool) (name n : Text) (r : Reply ApiError (Object V)) (o : Object V)
      → r ≡ ok o
      → get_object_key o ≡ name
      → any (hits resource keys n) (found env r)
        ≡ (not (is_some (lookup name keys)) && text_eq (resource name) n)
  unfolding found is_stale
  found_ok-hits keys name n r o a k = rw a (rw (sym k) (ground arith))

  found-hits :
      (keys : Map Bool) (name n : Text) (v : Standing) (r : Reply ApiError (Object V))
      → Answers name v r
      → any (hits resource keys n) (found env r)
        ≡ (not (is_some (lookup name keys)) && (text_eq (resource name) n && exists v))
  unfolding found
  found-hits keys name n live r (o, a, k) = found_ok-hits keys name n r o a k ∙ ground arith
  found-hits keys name n leaving r (o, a, k) = found_ok-hits keys name n r o a k ∙ ground arith
  found-hits keys name n absent r (e, a, f) = rw a (ground arith)

  at_name :
      (name n : Text) (f : Text → Bool)
      → (text_eq name n && f name) ≡ ((text_eq name n && true) && f n)
  at_name name n f = elim (Bool-cases (text_eq name n)) [
    | inl e ↦ rw e (ap f ((text_eq_iff name n).0 e))
    | inr e ↦ rw e refl
  ]

  and_assoc : (a b c : Bool) → (a && (b && c)) ≡ ((a && b) && c)
  and_assoc a b c = ground arith

  get_one-hits :
      (keys : Map Bool) (name n : Text) (s : State W V)
      → any (hits resource keys n) (get_one env (collect_id name) s).0
        ≡ (drops resource keys n name && present view s n)
  unfolding get_one
  get_one-hits keys name n s = elim (Option-cases (collect_id name)) [
    | inl e ↦ rw e (ground arith)
    | inr (id, e) ↦
        let print = collect_id-print name e in
        let missing = not (is_some (lookup name keys)) in
        rw e (
          found-hits keys name n (view s.world (resource name)) (env.get s.world id).0 (
            subst (λ k. Answers k (view s.world (resource k)) (env.get s.world id).0) print
              (cluster.get_answers s.world id))
          ∙ ap (λ b. missing && b) (at_name (resource name) n (present view s))
          ∙ and_assoc missing (text_eq (resource name) n && true) (present view s n))
  ]

  get_one-Keeps : (id : Option ResourceId) (s : State W V) → Keeps view s (get_one env id s).1
  unfolding get_one
  get_one-Keeps none s = (refl, refl)
  get_one-Keeps (some id) s = get-Keeps env resource view cluster id s

  any-append :
      {A : Type 0} → (p : A → Bool) (xs ys : List A) → any p (xs ++ ys) ≡ (any p xs || any p ys)
  any-append p [] ys = refl
  any-append p (x ∷ xs) ys = ground (arith, any-append p xs ys)

  and-or : (a b d : Bool) → ((a && d) || (b && d)) ≡ ((a || b) && d)
  and-or a b d = ground arith

  -- The collection of the children leaves the resources as they stand.
  pub get_each-Keeps :
      (parse : Text → Option ResourceId) (names : List Text) (s : State W V)
      → Keeps view s (get_each env parse names s).1
  unfolding get_each
  get_each-Keeps parse [] s = (refl, refl)
  get_each-Keeps parse (name ∷ names) s =
      let (c, h) = get_one-Keeps (parse name) s in
      let (d, g) = get_each-Keeps parse names (get_one env (parse name) s).1 in (d ∙ c, g ∙ h)

  get_each-hits :
      (keys : Map Bool) (n : Text) (names : List Text) (s : State W V)
      → any (hits resource keys n) (get_each env collect_id names s).0
        ≡ (is_dropped resource keys names n && present view s n)
  unfolding get_each
  get_each-hits keys n [] s = refl
  get_each-hits keys n (name ∷ names) s =
      let (os, t) = get_one env (collect_id name) s in
      any-append (hits resource keys n) os (get_each env collect_id names t).0
      ∙ ap (λ b. b || any (hits resource keys n) (get_each env collect_id names t).0)
          (get_one-hits keys name n s)
      ∙ ap (λ b. (drops resource keys n name && present view s n) || b)
          (get_each-hits keys n names t
            ∙ ap (λ v. is_dropped resource keys names n && exists (v n))
                ((get_one-Keeps (collect_id name) s).1))
      ∙ and-or (drops resource keys n name) (is_dropped resource keys names n) (present view s n)

  -- The collection and the pruning remove the resources of the listed names that are no keys of the
  -- pass.
  pub prune-Removed :
      (keys : Map Bool) (names : List Text) (s : State W V) (n : Text)
      → let (children, t) = get_each env collect_id names s in
        (prune_stale_resources env keys children t).0 ≡ []
        → Removed
            (is_dropped resource keys names n)
            (view s.world n)
            (view (prune_stale_resources env keys children t).1.world n)
  prune-Removed keys names s n e =
      let (children, t) = get_each env collect_id names s in
      Removed-absent (is_dropped resource keys names n) _ _ (
        subst
          (λ (b : Bool).
            Removed b (view s.world n) (view (prune_stale_resources env keys children t).1.world n))
          (get_each-hits keys n names s)
          (subst
            (λ (v : View).
              Removed (any (hits resource keys n) children) (v n)
                (view (prune_stale_resources env keys children t).1.world n))
            (get_each-Keeps collect_id names s).1
            (prune_stale_resources-Removed keys children t n e)))
