-- ===== src/ChildStatus/Skips.antt =====
-- Which children the status update touches.
use db_query_operator.Prelude.{true, ◌≡◌, refl, some, List, [], ◌∷◌, arith}
use db_query_operator.Prelude.Lists.{All}
use db_query_operator.Prelude.Text.{Text, text_eq_refl}
use db_query_operator.Prelude.Maps.{Map, lookup-insert}
use db_query_operator.Cluster.{Object, Reply, ok, err, Env, State, exec}
use db_query_operator.Children.{get_object_key}
use db_query_operator.Conditions.{set_condition}
use db_query_operator.Database.{get_or_create_db_client}
use db_query_operator.ChildStatus.{
  versions_or_empty, is_seen, after_exec, exec_rendered, render_and_exec, with_client, process,
  update_one, update_each, run_updates, update_status_for_child_resources,
}

module _ {W V D R : Type 0} (env : Env W V D R) (config : Map Text) where
  -- The write of the version makes the child a seen one.
  after_exec-is_seen :
      (o : Object V) (r : Reply Text (Unit {0})) (s : State W V)
      → (after_exec env o r s).0 ≡ 1
      → is_seen o (after_exec env o r s).1.cr.status.resource_versions ≡ true
  unfolding after_exec set_condition is_seen
  after_exec-is_seen o (err e) s h = absurd (omega arith)
  after_exec-is_seen o (ok u) s h =
      let m = versions_or_empty s.cr.status.resource_versions in
      ground (
        arith,
        lookup-insert (get_object_key o) (get_object_key o) o.resource_version m,
        text_eq_refl (get_object_key o),
        text_eq_refl o.resource_version,
      )

  update_one-seen :
      (o : Object V) (s : State W V)
      → is_seen o s.cr.status.resource_versions ≡ true
      → update_one env config o s ≡ ((0, []), s)
  unfolding update_one
  update_one-seen o s h = ground arith

  update_each-seen :
      (os : List (Object V)) (s : State W V)
      → All (λ o. is_seen o s.cr.status.resource_versions ≡ true) os
      → update_each env config os s ≡ ((0, []), s)
  unfolding update_each
  update_each-seen [] s h = refl
  update_each-seen (o ∷ os) s h = rw (update_one-seen o s h.0) (rw (update_each-seen os s h.1))

  exec_rendered-is_seen :
      (o : Object V) (db : D) (query : Reply Text Text) (s : State W V)
      → (exec_rendered env o db query s).0 ≡ 1
      → is_seen o (exec_rendered env o db query s).1.cr.status.resource_versions ≡ true
  unfolding exec_rendered
  exec_rendered-is_seen o db (err e) s h = absurd (omega arith)
  exec_rendered-is_seen o db (ok query) s h =
      let (r, t) = exec env db query s in after_exec-is_seen o r t h

  render_and_exec-is_seen :
      (o : Object V) (db : D) (template : Text) (parsed : Reply Text (Unit {0})) (s : State W V)
      → (render_and_exec env o db template parsed s).0 ≡ 1
      → is_seen o (render_and_exec env o db template parsed s).1.cr.status.resource_versions ≡ true
  unfolding render_and_exec
  render_and_exec-is_seen o db template (err e) s h = absurd (omega arith)
  render_and_exec-is_seen o db template (ok u) s h =
      exec_rendered-is_seen o db (env.render_resource template o) s h

  with_client-is_seen :
      (o : Object V) (db : Reply Text D) (s : State W V)
      → (with_client env o db s).0.0 ≡ 1
      → is_seen o (with_client env o db s).1.cr.status.resource_versions ≡ true
  unfolding with_client
  with_client-is_seen o (err e) s h = absurd (omega arith)
  with_client-is_seen o (ok db) s h =
      let template = s.cr.spec.status_update_query_template in
      render_and_exec-is_seen o db template (env.parse_template template) s h

  process-is_seen :
      (o : Object V) (s : State W V)
      → (process env config o s).0.0 ≡ 1
      → is_seen o (process env config o s).1.cr.status.resource_versions ≡ true
  unfolding process
  process-is_seen o s h =
      let (db, t) = get_or_create_db_client env config s in with_client-is_seen o db t h

  counted-is_seen :
      (o : Object V) (s : State W V)
      → (update_one env config o s).0.0 ≡ 1
      → is_seen o (update_one env config o s).1.cr.status.resource_versions ≡ true
  unfolding update_one
  counted-is_seen o s h = ground (arith, process-is_seen o s)

  -- A child whose status query was run successfully is passed over from then on, with no
  -- connection and no query, for as long as its resource version is the same.
  pub update_one_once :
      (o : Object V) (s : State W V)
      → (update_one env config o s).0.0 ≡ 1
      → let t = (update_one env config o s).1 in update_one env config o t ≡ ((0, []), t)
  update_one_once o s h = update_one-seen o _ (counted-is_seen o s h)

  -- Where every child has been processed at its present version, the world is left alone and
  -- nothing is written.
  pub update_status-seen :
      (os : List (Object V)) (s : State W V)
      → All (λ o. is_seen o s.cr.status.resource_versions ≡ true) os
      → let r = update_status_for_child_resources env config os s in
        (r.0 ≡ 0) × (r.1.world ≡ s.world) × (r.1.calls ≡ s.calls)
  unfolding update_status_for_child_resources run_updates is_seen
  update_status-seen os s h =
      let t : State W V = record s {
        cr = record s.cr {
          status = record s.cr.status {
            resource_versions = some (versions_or_empty s.cr.status.resource_versions);
          };
        };
      } in
      ground (arith, update_each-seen os t (unfold is_seen in h))
