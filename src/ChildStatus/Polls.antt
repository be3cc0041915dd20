-- ===== src/ChildStatus/Polls.antt =====
-- What the status updates of the children leave alone in the custom resource: its spec, and the
-- times of the last poll and of the last reconciliation.
use db_query_operator.Prelude.{◌≡◌, refl, ◌∙◌, Bool-cases, inl, inr, some, List, [], ◌∷◌}
use db_query_operator.Prelude.Text.{Text, empty_text}
use db_query_operator.Prelude.Maps.{Map}
use db_query_operator.Cluster.{Object, Reply, ok, err, Env, State, exec}
use db_query_operator.Conditions.{set_condition}
use db_query_operator.Database.{get_or_create_db_client}
use db_query_operator.Children.Polls.{polled}
use db_query_operator.ChildStatus.{
  after_exec, exec_rendered, render_and_exec, with_client, process, update_one, update_each,
  close_all, run_updates, update_status_for_child_resources, record_version, is_seen,
  versions_or_empty,
}

module _ {W V D R : Type 0} (env : Env W V D R) where
  polled-after_exec :
      (o : Object V) (r : Reply Text (Unit {0})) (s : State W V)
      → polled (after_exec env o r s).1 ≡ polled s
  unfolding after_exec record_version set_condition
  polled-after_exec o (err e) s = refl
  polled-after_exec o (ok u) s = refl

  polled-exec_rendered :
      (o : Object V) (db : D) (r : Reply Text Text) (s : State W V)
      → polled (exec_rendered env o db r s).1 ≡ polled s
  unfolding exec_rendered
  polled-exec_rendered o db (err e) s = refl
  polled-exec_rendered o db (ok query) s =
      let (r, t) = exec env db query s in polled-after_exec o r t

  polled-render_and_exec :
      (o : Object V) (db : D) (template : Text) (r : Reply Text (Unit {0})) (s : State W V)
      → polled (render_and_exec env o db template r s).1 ≡ polled s
  unfolding render_and_exec
  polled-render_and_exec o db template (err e) s = refl
  polled-render_and_exec o db template (ok u) s =
      polled-exec_rendered o db (env.render_resource template o) s

  polled-with_client :
      (o : Object V) (r : Reply Text D) (s : State W V)
      → polled (with_client env o r s).1 ≡ polled s
  unfolding with_client
  polled-with_client o (err e) s = refl
  polled-with_client o (ok db) s =
      let template = s.cr.spec.status_update_query_template in
      polled-render_and_exec o db template (env.parse_template template) s

  polled-process :
      (config : Map Text) (o : Object V) (s : State W V)
      → polled (process env config o s).1 ≡ polled s
  unfolding process get_or_create_db_client
  polled-process config o s =
      let (r, t) = get_or_create_db_client env config s in polled-with_client o r t

  polled-update_one :
      (config : Map Text) (o : Object V) (s : State W V)
      → polled (update_one env config o s).1 ≡ polled s
  unfolding update_one
  polled-update_one config o s = elim (Bool-cases (is_seen o s.cr.status.resource_versions)) [
    | inl b ↦ rw (b, update_one) refl
    | inr b ↦ rw (b, update_one) (polled-process config o s)
  ]

  polled-update_each :
      (config : Map Text) (os : List (Object V)) (s : State W V)
      → polled (update_each env config os s).1 ≡ polled s
  unfolding update_each
  polled-update_each config [] s = refl
  polled-update_each config (o ∷ os) s =
      polled-update_each config os (update_one env config o s).1 ∙ polled-update_one config o s

  polled-close_all : (dbs : List D) (s : State W V) → polled (close_all env dbs s).1 ≡ polled s
  unfolding close_all
  polled-close_all [] s = refl
  polled-close_all (db ∷ dbs) s = polled-close_all dbs s

  polled-run_updates :
      (config : Map Text) (os : List (Object V)) (s : State W V)
      → polled (run_updates env config os s).1 ≡ polled s
  unfolding run_updates
  polled-run_updates config os s =
      let versions = some (versions_or_empty s.cr.status.resource_versions) in
      let s' : State W V = record s {
        cr = record s.cr { status = record s.cr.status { resource_versions = versions } };
      } in
      let (r, t) = update_each env config os s' in
      polled-close_all r.1 t ∙ polled-update_each config os s'

  pub polled-update_status :
      (config : Map Text) (os : List (Object V)) (s : State W V)
      → polled (update_status_for_child_resources env config os s).1 ≡ polled s
  unfolding update_status_for_child_resources
  polled-update_status config os s =
      elim (Bool-cases (empty_text s.cr.spec.status_update_query_template)) [
        | inl b ↦ rw (b, update_status_for_child_resources) refl
        | inr b ↦ rw (b, update_status_for_child_resources) (polled-run_updates config os s)
      ]
