-- ===== src/Server.antt =====
-- The API server as the controller of internal/controller sees it while nobody else writes to it:
-- how each resource stands, and what reads, writes and deletes make of that.
use db_query_operator.Prelude.{
  Bool, true, false, ◌||◌, ◌≡◌, refl, sym, ap, ◌∙◌, ◌⊎◌, Option, none, some,
}
use db_query_operator.Prelude.Text.{Text, text_eq}
use db_query_operator.Prelude.Maps.{Map}
use db_query_operator.Cluster.{
  Object, ResourceId, ApiError, is_not_found, Reply, ok, err, Env, State, get, update, apply,
}
use db_query_operator.Children.{print_id, get_object_key}

-- An object that was deleted and still waits for its finalizers, or for its graceful end, is
-- `leaving`: it is there, with a deletion timestamp.
pub data Standing : Type 0 where
  absent live leaving : Standing

abbrev pub exists : Standing → Bool
exists absent = false
exists live = true
exists leaving = true

abbrev pub is_live : Standing → Bool
is_live absent = false
is_live live = true
is_live leaving = false

-- How each resource stands, by the name of the resource.
abbrev pub View : Type 0
View = Text → Standing

-- What a write makes of a resource, if it is the one written.
abbrev pub Wrote : Bool → Standing → Standing → Type 0
Wrote true before after = exists after ≡ true
Wrote false before after = after ≡ before

-- What a delete makes of a resource, if it is the one deleted: gone, or about to go.
abbrev pub Removed : Bool → Standing → Standing → Type 0
Removed true before after = is_live after ≡ false
Removed false before after = after ≡ before

module _ {V : Type 0} where
  -- The answer to a read under a key: an object with this key, or that there is none.
  abbrev pub Answers : Text → Standing → Reply ApiError (Object V) → Type 0
  Answers key absent r = (e : ApiError) × (r ≡ err e) × (is_not_found e ≡ true)
  Answers key live r = (o : Object V) × (r ≡ ok o) × (get_object_key o ≡ key)
  Answers key leaving r = (o : Object V) × (r ≡ ok o) × (get_object_key o ≡ key)

-- `resource` names the resource that a key stands for: a kind that is served in several versions
-- has several keys for one resource.
module _ {V : Type 0} (resource : Text → Text) where
  -- A write that succeeds leaves the resource there, live or not, and answers with an object of the
  -- same key. One that fails changes nothing.
  abbrev pub Stores : View → Object V → Reply ApiError (Object V) → View → Type 0
  Stores before o (ok stored) after =
      (get_object_key stored ≡ get_object_key o)
      × ((n : Text) → Wrote (text_eq (resource (get_object_key o)) n) (before n) (after n))
  Stores before o (err e) after = after ≡ before

  -- A delete that succeeds removes the resource, at once or when its finalizers are through. One
  -- that fails changes nothing, and "not found" is true.
  abbrev pub Removes : View → Object V → Reply ApiError (Unit {0}) → View → Type 0
  Removes before o (ok u) after =
      (n : Text) → Removed (text_eq (resource (get_object_key o)) n) (before n) (after n)
  Removes before o (err e) after =
      (after ≡ before)
      × ((is_not_found e ≡ false) ⊎ (before (resource (get_object_key o)) ≡ absent))

-- The API server, as far as the children go, while nobody else writes and every read is answered.
-- Writes may fail.
pub record IsCluster {W V D R : Type 0} (env : Env W V D R) (resource : Text → Text)
    (view : W → View) : Type 0 where
  pub get_answers :
      (w : W) (id : ResourceId)
      → Answers (print_id id) (view w (resource (print_id id))) (env.get w id).0
  pub get_keeps : (w : W) (id : ResourceId) → view (env.get w id).1 ≡ view w
  pub apply_stores :
      (w : W) (o : Object V) → Stores resource (view w) o (env.apply w o).0 (view (env.apply w o).1)
  pub update_stores :
      (w : W) (o : Object V)
      → Stores resource (view w) o (env.update w o).0 (view (env.update w o).1)
  pub delete_removes :
      (w : W) (o : Object V)
      → Removes resource (view w) o (env.delete w o).0 (view (env.delete w o).1)

module _ {W V : Type 0} (view : W → View) where
  -- The resources that are there.
  abbrev pub present : State W V → Text → Bool
  present s n = exists (view s.world n)

-- A success adds a resource, a failure nothing.
abbrev pub grown : {A : Type 0} → Text → Reply Text A → Text → Bool → Bool
grown name (ok a) n b = text_eq name n || b
grown name (err e) n b = b

module _ {W V : Type 0} (view : W → View) where
  pub record Grows {A : Type 0} (name : Text) (r : Reply Text A) (s t : State W V) : Type 0 where
    pub same_cr : t.cr ≡ s.cr
    pub names : (n : Text) → present view t n ≡ grown name r n (present view s n)

  -- All resources stand as they did.
  abbrev pub Keeps : State W V → State W V → Type 0
  Keeps s t = (t.cr ≡ s.cr) × (view t.world ≡ view s.world)

  pub Grows-after_Keeps :
      {A : Type 0} (name : Text) (r : Reply Text A) (s t u : State W V)
      → Keeps s t
      → Grows name r t u
      → Grows name r s u
  Grows-after_Keeps name r s t u (c, h) g = record {
    same_cr = g.same_cr ∙ c;
    names = λ n. g.names n ∙ ap (λ v. grown name r n (exists (v n))) h;
  }

  -- A failed write grows nothing, and a growth behind it counts alone.
  pub Grows-after_err :
      {A B : Type 0} (name e : Text) (r : Reply Text A) (s t u : State W V)
      → Grows {A = B} name (err e) s t
      → Grows name r t u
      → Grows name r s u
  Grows-after_err name e r s t u h g = record {
    same_cr = g.same_cr ∙ h.same_cr;
    names = λ n. g.names n ∙ ap (grown name r n) (h.names n);
  }

  pub Grows-err : {A : Type 0} (name e : Text) (s : State W V) → Grows {A = A} name (err e) s s
  Grows-err name e s = record { same_cr = refl; names = λ n. refl }

  -- Which value a success has, does not matter.
  pub Grows-ok :
      {A B : Type 0} (name other : Text) (a : A) (b : B) (s t : State W V)
      → name ≡ other
      → Grows name (ok a) s t
      → Grows other (ok b) s t
  Grows-ok name other a b s t e g = record {
    same_cr = g.same_cr;
    names = λ n. g.names n ∙ ap (λ j. text_eq j n || present view s n) e;
  }

-- The answers of the API server to a write, as a result with an error text.
abbrev pub text_reply : {A : Type 0} → Reply ApiError A → Reply Text A
text_reply (ok a) = ok a
text_reply (err e) = err e.message

pub ok-same : {B E : Type 0} → (a b : B) → ◌≡◌ {A = Reply E B} (ok a) (ok b) → a ≡ b
ok-same a b h = cc h

exists-Wrote :
    (b : Bool) (before after : Standing)
    → Wrote b before after
    → exists after ≡ (b || exists before)
exists-Wrote true before after h = h
exists-Wrote false before after h = ap exists h

module _ {W V D R : Type 0} (env : Env W V D R) (resource : Text → Text) (view : W → View)
    (cluster : IsCluster env resource view) where
  pub get-Keeps : (id : ResourceId) (s : State W V) → Keeps view s (get env id s).1
  get-Keeps id s = (refl, cluster.get_keeps s.world id)

  Answers-ok :
      (key : Text) (v : Standing) (r : Reply ApiError (Object V)) (o : Object V)
      → Answers key v r
      → r ≡ ok o
      → (exists v ≡ true) × (get_object_key o ≡ key)
  Answers-ok key absent r o (e, f, n) h = cc (f, h)
  Answers-ok key live r o (p, f, k) h = (refl, ap get_object_key (ok-same o p (sym h ∙ f)) ∙ k)
  Answers-ok key leaving r o (p, f, k) h = (refl, ap get_object_key (ok-same o p (sym h ∙ f)) ∙ k)

  -- What a read finds is there, under the key that was asked for.
  pub get_found :
      (id : ResourceId) (o : Object V) (w : W)
      → (env.get w id).0 ≡ ok o
      → (exists (view w (resource (print_id id))) ≡ true) × (get_object_key o ≡ print_id id)
  get_found id o w h =
      Answers-ok (print_id id) (view w (resource (print_id id))) (env.get w id).0 o
        (cluster.get_answers w id) h

  Stores-Grows :
      (o : Object V) (r : Reply ApiError (Object V)) (s t : State W V)
      → t.cr ≡ s.cr
      → Stores resource (view s.world) o r (view t.world)
      → Grows view (resource (get_object_key o)) (text_reply r) s t
  Stores-Grows o (ok stored) s t c (e, h) = record {
    same_cr = c;
    names = λ n. exists-Wrote (text_eq (resource (get_object_key o)) n) _ _ (h n);
  }
  Stores-Grows o (err e) s t c h = record { same_cr = c; names = λ n. ap (λ v. exists (v n)) h }

  pub update-Grows :
      (o : Object V) (s : State W V)
      → Grows view
          (resource (get_object_key o))
          (text_reply (env.update s.world o).0)
          s
          (update env o s).1
  update-Grows o s = Stores-Grows o _ s _ refl (cluster.update_stores s.world o)

  pub apply-Grows :
      (o : Object V) (s : State W V)
      → Grows view
          (resource (get_object_key o))
          (text_reply (env.apply s.world o).0)
          s
          (apply env o s).1
  apply-Grows o s = Stores-Grows o _ s _ refl (cluster.apply_stores s.world o)

  Stores-key :
      (before after : View) (o : Object V) (r : Reply ApiError (Object V))
      → Stores resource before o r after
      → (stored : Object V) → r ≡ ok stored
      → get_object_key stored ≡ get_object_key o
  Stores-key before after o (ok p) (e, h) stored q =
      ap get_object_key (sym (ok-same p stored q)) ∙ e
  Stores-key before after o (err e) h stored q = cc q

  -- A created object has the key of the one sent.
  pub apply_key :
      (o : Object V) (w : W) (stored : Object V)
      → (env.apply w o).0 ≡ ok stored
      → get_object_key stored ≡ get_object_key o
  apply_key o w stored h = Stores-key _ _ o _ (cluster.apply_stores w o) stored h

-- The database and the clock are other systems than the API server.
module _ {W D : Type 0} (view : W → View) where
  abbrev pub KeepsView : Option (W → Text → Map Text → Reply Text D × W) → Type 0
  KeepsView none = Unit {0}
  KeepsView (some factory) =
      (w : W) (type : Text) (config : Map Text) → view (factory w type config).1 ≡ view w

pub record IsBystander {W V D R : Type 0} (env : Env W V D R) (view : W → View) : Type 0 where
  pub now_keeps : (w : W) → view (env.now w).1 ≡ view w
  pub factory_keeps : KeepsView view env.db_client_factory
  pub connect_keeps : (w : W) (config : Map Text) → view (env.connect_postgres w config).1 ≡ view w
  pub exec_keeps : (w : W) (db : D) (query : Text) → view (env.exec w db query).1 ≡ view w
  pub close_keeps : (w : W) (db : D) → view (env.close w db) ≡ view w
