-- ===== src/Reconcile/Rows/Grown.antt =====
-- The resources that the loop over the rows adds to those present.
use db_query_operator.Prelude.{
  Bool, true, false, ◌||◌, ◌≡◌, refl, sym, ap, ◌∙◌, Bool-cases, inl, inr, List, [], ◌∷◌, arith,
}
use db_query_operator.Prelude.Lists.{any}
use db_query_operator.Prelude.Text.{Text, text_eq, text_eq_iff}
use db_query_operator.Prelude.Maps.{Map, insert}
use db_query_operator.Cluster.{
  Object, ApiError, is_not_found, Reply, ok, err, Codec, Env, State, Pass, pure, get,
}
use db_query_operator.Children.{object_id, get_object_key}
use db_query_operator.Server.{
  View, IsCluster, exists, present, Grows, Keeps, text_reply, get-Keeps, get_found, apply-Grows,
  apply_key,
}
use db_query_operator.Applied.{
  apply_desired_state, set_last_applied_config, should_update_resource, update_decision,
}
use db_query_operator.Applied.Grown.{
  get_object_key-apply_desired_state, update_with_conflict_retry-Grows,
}
use db_query_operator.Reconcile.Managed.{keys_of}
use db_query_operator.Reconcile.Rows.{
  applied_child, create_child, updated_child, write_child, write_if, sync_child, process_row,
  process_rows, managed_keys, desired_child,
}

-- What the outcome of one row adds to the resources.
abbrev pub added : {V : Type 0} → (Text → Text) → Reply Text (Object V) → Text → Bool → Bool
added resource (ok o) n b = text_eq (resource (get_object_key o)) n || b
added resource (err e) n b = b

abbrev added_all : {V : Type 0} → (Text → Text) → List (Reply Text (Object V)) → Text → Bool → Bool
added_all resource [] n b = b
added_all resource (r ∷ rs) n b = added_all resource rs n (added resource r n b)

-- One of the keys stands for the resource.
abbrev pub is_asked : (Text → Text) → Map Bool → Text → Bool
is_asked resource keys n = any (λ k. text_eq (resource k) n) (keys_of keys)

any-insert :
    (p : Text → Bool) (key : Text) (keys : Map Bool)
    → any p (keys_of (insert key true keys)) ≡ (p key || any p (keys_of keys))
unfolding keys_of insert
any-insert p key [] = refl
any-insert p key ((j, b) ∷ keys) = ground (arith, text_eq_iff j key, any-insert p key keys)

or_assoc : (a b c : Bool) → ((a || b) || c) ≡ (a || (b || c))
or_assoc a b c = ground arith

is_asked-managed_keys :
    {V : Type 0} (resource : Text → Text) (outcomes : List (Reply Text (Object V)))
    (keys : Map Bool) (n : Text) (b : Bool)
    → (is_asked resource (managed_keys keys outcomes) n || b)
      ≡ added_all resource outcomes n (is_asked resource keys n || b)
unfolding managed_keys
is_asked-managed_keys resource [] keys n b = refl
is_asked-managed_keys resource (err e ∷ rest) keys n b =
    is_asked-managed_keys resource rest keys n b
is_asked-managed_keys resource (ok o ∷ rest) keys n b =
    let key = get_object_key o in
    is_asked-managed_keys resource rest (insert key true keys) n b
    ∙ ap (λ c. added_all resource rest n (c || b))
        (any-insert (λ k. text_eq (resource k) n) key keys)
    ∙ ap (added_all resource rest n)
        (or_assoc (text_eq (resource key) n) (is_asked resource keys n) b)

module _ {W V : Type 0} (resource : Text → Text) (view : W → View) where
  pub record Adds (r : Reply Text (Object V)) (s t : State W V) : Type 0 where
    pub same_cr : t.cr ≡ s.cr
    pub names : (n : Text) → present view t n ≡ added resource r n (present view s n)

  Adds-err : (e : Text) (s t : State W V) → Keeps view s t → Adds (err e) s t
  Adds-err e s t (c, h) = record { same_cr = c; names = λ n. ap (λ v. exists (v n)) h }

  Adds-after_Keeps :
      (r : Reply Text (Object V)) (s t u : State W V) → Keeps view s t → Adds r t u → Adds r s u
  Adds-after_Keeps r s t u (c, h) g = record {
    same_cr = g.same_cr ∙ c;
    names = λ n. g.names n ∙ ap (λ v. added resource r n (exists (v n))) h;
  }

  absorbed :
      (s : State W V) (name n : Text)
      → present view s name ≡ true
      → present view s n ≡ (text_eq name n || present view s n)
  absorbed s name n h = elim (Bool-cases (text_eq name n)) [
    | inl e ↦ rw e (ap (present view s) (sym ((text_eq_iff name n).0 e)) ∙ h)
    | inr e ↦ rw e refl
  ]

-- Only an object that is there needs no write.
update_decision_found :
    {V : Type 0} (codec : Codec V) (o : Object V) (r : Reply ApiError (Object V))
    → update_decision codec o r ≡ ok false
    → (existing : Object V) × (r ≡ ok existing)
unfolding update_decision
update_decision_found codec o (ok existing) h = (existing, refl)
update_decision_found codec o (err e) h = elim (Bool-cases (is_not_found e)) [
  | inl f ↦ cc (rw f at h)
  | inr f ↦ cc (rw f at h)
]

module _ {W V D R : Type 0} (env : Env W V D R) (resource : Text → Text) (view : W → View)
    (cluster : IsCluster env resource view) where
  applied_child-Adds :
      (key : Text) (o : Object V) (r : Reply ApiError (Object V)) (s t : State W V)
      → ((stored : Object V) → r ≡ ok stored → get_object_key stored ≡ key)
      → Grows view (resource key) (text_reply r) s t
      → Adds resource view (applied_child env o r) s t
  unfolding applied_child
  applied_child-Adds key o (ok stored) s t e g = record {
    same_cr = g.same_cr;
    names =
        λ n. g.names n ∙ ap (λ j. text_eq (resource j) n || present view s n) (sym (e stored refl));
  }
  applied_child-Adds key o (err e) s t h g = record { same_cr = g.same_cr; names = g.names }

  create_child-Adds :
      (o : Object V) (r : Reply Text (Object V)) (s : State W V)
      → let u = create_child env o r s in Adds resource view u.0 s u.1
  unfolding create_child
  create_child-Adds o (err e) s = Adds-err resource view _ s s (refl, refl)
  create_child-Adds o (ok p) s =
      applied_child-Adds (get_object_key p) p _ s _ (apply_key env resource view cluster p s.world)
        (apply-Grows env resource view cluster p s)

  updated_child-Adds :
      (o : Object V) (r : Reply Text (Unit {0})) (s t : State W V)
      → Grows view (resource (get_object_key o)) r s t
      → Adds resource view (updated_child env o r) s t
  unfolding updated_child
  updated_child-Adds o (ok u) s t g = record { same_cr = g.same_cr; names = g.names }
  updated_child-Adds o (err e) s t g = record { same_cr = g.same_cr; names = g.names }

  missing_child-Adds :
      (o : Object V) (missing : Bool) (message : Text) (s : State W V)
      → let u =
          (elim missing as (λ b. Pass W V (Reply Text (Object V))) [
            | true ↦ create_child env o (set_last_applied_config env.codec o)
            | false ↦ pure (err message)
          ])
            s in
        Adds resource view u.0 s u.1
  missing_child-Adds o true message s = create_child-Adds o _ s
  missing_child-Adds o false message s = Adds-err resource view message s s (refl, refl)

  write_child-Adds :
      (o : Object V) (r : Reply ApiError (Object V)) (s : State W V)
      → ((existing : Object V) → r ≡ ok existing → get_object_key existing ≡ get_object_key o)
      → let u = write_child env o r s in Adds resource view u.0 s u.1
  unfolding write_child
  write_child-Adds o (ok existing) s h = updated_child-Adds o _ s _ (
      update_with_conflict_retry-Grows env resource view cluster o
        (apply_desired_state env.codec existing o) s
        (get_object_key-apply_desired_state env.codec existing o ∙ h existing refl))
  write_child-Adds o (err e) s h = missing_child-Adds o (is_not_found e) _ s

  write_if-Adds :
      (o : Object V) (r : Reply Text Bool) (s : State W V)
      → (r ≡ ok false → present view s (resource (get_object_key o)) ≡ true)
      → let u = write_if env o r s in Adds resource view u.0 s u.1
  unfolding write_if get_object_key
  write_if-Adds o (err e) s h = Adds-err resource view _ s s (refl, refl)
  write_if-Adds o (ok false) s h = record {
    same_cr = refl;
    names = λ n. absorbed resource view s (resource (get_object_key o)) n (h refl);
  }
  write_if-Adds o (ok true) s h =
      let (r, t) = get env (object_id o) s in
      Adds-after_Keeps resource view _ s t _ (get-Keeps env resource view cluster (object_id o) s) (
        write_child-Adds o r t
          (λ x e. (get_found env resource view cluster (object_id o) x s.world e).1))

  -- The check for a needed update finds none only if the child is there.
  needless-present :
      (o : Object V) (s : State W V)
      → (should_update_resource env o s).0 ≡ ok false
      → present view s (resource (get_object_key o)) ≡ true
  unfolding should_update_resource get_object_key
  needless-present o s h =
      let (existing, e) = update_decision_found env.codec o (env.get s.world (object_id o)).0 h in
      (get_found env resource view cluster (object_id o) existing s.world e).0

  should_update_resource-Keeps :
      (o : Object V) (s : State W V) → Keeps view s (should_update_resource env o s).1
  unfolding should_update_resource
  should_update_resource-Keeps o s = get-Keeps env resource view cluster (object_id o) s

  sync_child-Adds :
      (d : Reply Text (Object V)) (s : State W V)
      → let u = sync_child env d s in Adds resource view u.0 s u.1
  unfolding sync_child
  sync_child-Adds (err e) s = Adds-err resource view e s s (refl, refl)
  sync_child-Adds (ok o) s =
      let (needed, t) = should_update_resource env o s in
      let keeps = should_update_resource-Keeps o s in
      Adds-after_Keeps resource view _ s t _ keeps (
        write_if-Adds o needed t (λ h.
          ap (λ v. exists (v (resource (get_object_key o)))) keeps.1 ∙ needless-present o s h))

  process_row-Adds :
      (row : R) (s : State W V) → let u = process_row env row s in Adds resource view u.0 s u.1
  unfolding process_row
  process_row-Adds row s = sync_child-Adds (desired_child env s.cr row) s

  added_all-process_rows :
      (rows : List R) (s : State W V) (n : Text)
      → let (outcomes, t) = process_rows env rows s in
        (t.cr ≡ s.cr) × (present view t n ≡ added_all resource outcomes n (present view s n))
  unfolding process_rows
  added_all-process_rows [] s n = (refl, refl)
  added_all-process_rows (row ∷ rows) s n =
      let (r, t) = process_row env row s in
      let here = process_row-Adds row s in
      let (same, rest) = added_all-process_rows rows t n in
      (
        same ∙ here.same_cr,
        rest ∙ ap (added_all resource (process_rows env rows t).0 n) (here.names n),
      )

  -- The resources of the outcomes are added, and the custom resource is not touched.
  pub present-process_rows :
      (rows : List R) (s : State W V) (n : Text)
      → let (outcomes, t) = process_rows env rows s in
        (t.cr ≡ s.cr)
        × (present view t n ≡ (is_asked resource (managed_keys [] outcomes) n || present view s n))
  unfolding keys_of
  present-process_rows rows s n =
      let (outcomes, t) = process_rows env rows s in
      let (same, h) = added_all-process_rows rows s n in
      (same, h ∙ sym (is_asked-managed_keys resource outcomes [] n (present view s n)))
