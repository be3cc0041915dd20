-- ===== src/ChildStatus/Quiet.antt =====
-- `updateStatusForChildResources` leaves the cluster's objects alone.
use db_query_operator.Prelude.{
  ◌≡◌, refl, ◌∙◌, Bool-cases, inl, inr, Option, none, some, List, [], ◌∷◌, arith,
}
use db_query_operator.Prelude.Text.{Text}
use db_query_operator.Prelude.Maps.{Map}
use db_query_operator.Api.{ConditionStatus}
use db_query_operator.Cluster.{Object, Reply, ok, err, Env, State}
use db_query_operator.Conditions.{set_condition}
use db_query_operator.Database.{get_or_create_db_client, connect_with, is_postgres}
use db_query_operator.Server.{View, KeepsView, IsBystander}
use db_query_operator.ChildStatus.{
  after_exec, exec_rendered, render_and_exec, with_client, process, update_one, update_each,
  close_all, run_updates, update_status_for_child_resources, record_version,
}

module _ {W V D R : Type 0} (env : Env W V D R) (view : W → View)
    (bystander : IsBystander env view) where
  -- The same objects.
  abbrev pub Same : State W V → State W V → Type 0
  Same s t = view t.world ≡ view s.world

  pub set_condition-Same :
      (type : Text) (status : ConditionStatus) (reason message : Text) (s : State W V)
      → Same s (set_condition env type status reason message s).1
  unfolding set_condition
  set_condition-Same type status reason message s = bystander.now_keeps s.world

  connect_with-Same :
      (factory : Option (W → Text → Map Text → Reply Text D × W)) (type : Text) (config : Map Text)
      (w : W)
      → KeepsView view factory
      → view (connect_with env factory type config w).1 ≡ view w
  unfolding connect_with
  connect_with-Same (some factory) type config w h = h w type config
  connect_with-Same none type config w h = elim (Bool-cases (is_postgres type)) [
    | inl e ↦ rw e (bystander.connect_keeps w config)
    | inr e ↦ rw e refl
  ]

  get_or_create_db_client-Same :
      (config : Map Text) (s : State W V) → Same s (get_or_create_db_client env config s).1
  unfolding get_or_create_db_client
  get_or_create_db_client-Same config s =
      connect_with-Same env.db_client_factory s.cr.spec.database.type config s.world
        bystander.factory_keeps

  after_exec-Same :
      (o : Object V) (r : Reply Text (Unit {0})) (s : State W V) → Same s (after_exec env o r s).1
  unfolding after_exec record_version
  after_exec-Same o (err e) s = refl
  after_exec-Same o (ok u) s = set_condition-Same _ _ _ _ _

  exec_rendered-Same :
      (o : Object V) (db : D) (r : Reply Text Text) (s : State W V)
      → Same s (exec_rendered env o db r s).1
  unfolding exec_rendered
  exec_rendered-Same o db (err e) s = refl
  exec_rendered-Same o db (ok query) s =
      after_exec-Same o _ _ ∙ bystander.exec_keeps s.world db query

  render_and_exec-Same :
      (o : Object V) (db : D) (template : Text) (r : Reply Text (Unit {0})) (s : State W V)
      → Same s (render_and_exec env o db template r s).1
  unfolding render_and_exec
  render_and_exec-Same o db template (err e) s = refl
  render_and_exec-Same o db template (ok u) s = exec_rendered-Same o db _ s

  with_client-Same :
      (o : Object V) (r : Reply Text D) (s : State W V) → Same s (with_client env o r s).1
  unfolding with_client
  with_client-Same o (err e) s = refl
  with_client-Same o (ok db) s = render_and_exec-Same o db _ _ s

  process-Same :
      (config : Map Text) (o : Object V) (s : State W V) → Same s (process env config o s).1
  unfolding process
  process-Same config o s = with_client-Same o _ _ ∙ get_or_create_db_client-Same config s

  update_one-Same :
      (config : Map Text) (o : Object V) (s : State W V) → Same s (update_one env config o s).1
  unfolding update_one
  update_one-Same config o s = ground (arith, process-Same config o s)

  update_each-Same :
      (config : Map Text) (os : List (Object V)) (s : State W V)
      → Same s (update_each env config os s).1
  unfolding update_each
  update_each-Same config [] s = refl
  update_each-Same config (o ∷ os) s =
      update_each-Same config os (update_one env config o s).1 ∙ update_one-Same config o s

  close_all-Same : (dbs : List D) (s : State W V) → Same s (close_all env dbs s).1
  unfolding close_all
  close_all-Same [] s = refl
  close_all-Same (db ∷ dbs) s =
      bystander.close_keeps (close_all env dbs s).1.world db ∙ close_all-Same dbs s

  run_updates-Same :
      (config : Map Text) (os : List (Object V)) (s : State W V)
      → Same s (run_updates env config os s).1
  unfolding run_updates
  run_updates-Same config os s = close_all-Same _ _ ∙ update_each-Same config os _

  -- The status updates of the children leave the cluster's objects alone.
  pub update_status-Same :
      (config : Map Text) (os : List (Object V)) (s : State W V)
      → Same s (update_status_for_child_resources env config os s).1
  unfolding update_status_for_child_resources
  update_status-Same config os s = ground (arith, run_updates-Same config os s)
