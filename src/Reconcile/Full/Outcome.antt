-- ===== src/Reconcile/Full/Outcome.antt =====
-- How a full pass ends: the delay that it asks for, and whether it counts as a poll.
use db_query_operator.Prelude.{
  Bool, ◌≡◌, refl, ap, ◌∙◌, Bool-cases, inl, inr, List, [], ◌∷◌, ◌++◌, arith, some,
}
use db_query_operator.Prelude.Int.{ℤ, pos, ◌<ℤ◌, ◌≤ℤ◌, int_min}
use db_query_operator.Prelude.Text.{Text}
use db_query_operator.Prelude.Maps.{Map}
use db_query_operator.Api.{Time, get_prune}
use db_query_operator.Cluster.{Object, Reply, ok, err, Env, State}
use db_query_operator.Children.{
  collect_all_child_resources, collect_managed_children, collect_id, status_id, get_each,
}
use db_query_operator.Children.Collect.{get_each_writes_nothing}
use db_query_operator.Children.Polls.{polled, polled-prune_stale_resources}
use db_query_operator.ChildStatus.{update_status_for_child_resources}
use db_query_operator.ChildStatus.Polls.{polled-update_status}
use db_query_operator.Conditions.{set_condition}
use db_query_operator.Database.{get_or_create_db_client}
use db_query_operator.Schedule.{next_requeue_interval}
use db_query_operator.Schedule.Intervals.{next_requeue_interval_lem}
use db_query_operator.Secret.{get_db_config}
use db_query_operator.Reconcile.Managed.{record_managed, sort_strings, keys_of}
use db_query_operator.Reconcile.Rows.{managed_keys, row_errors}
use db_query_operator.Reconcile.Full.Dropped.{managed-finish}
use db_query_operator.Reconcile.Full.{
  Result, done, requeue_after, failed, prune_phase, conclude, finish, with_template, with_rows,
  with_client, with_config, full_reconcile, retry_interval,
}

-- The pass asks to be woken after a delay above zero that is at most the poll interval.
abbrev pub Wakes : ℤ → Result → Type 0
Wakes poll done = ⊥
Wakes poll (requeue_after d) = (pos 0 <ℤ d) × (d ≤ℤ poll)
Wakes poll (failed e) = ⊥

module _ {W V D R : Type 0} (env : Env W V D R) (poll : ℤ) (positive : pos 0 <ℤ poll) where
  conclude-Wakes : (errors : List Text) (s : State W V) → Wakes poll (conclude env poll errors s).0
  unfolding conclude set_condition
  conclude-Wakes [] s =
      let (above, below, which) = next_requeue_interval_lem env poll _ positive in (above, below)
  conclude-Wakes (e ∷ es) s =
      let (above, below, which) = next_requeue_interval_lem env poll _ positive in (above, below)

  finish-Wakes :
      (config : Map Text) (outcomes : List (Reply Text (Object V))) (s : State W V)
      → Wakes poll (finish env poll config outcomes s).0
  unfolding finish
  finish-Wakes config outcomes s = conclude-Wakes _ _

  with_template-Wakes :
      (config : Map Text) (rows : List R) (u : Unit {0}) (r : Reply Text (Unit {0})) (s : State W V)
      → r ≡ ok u
      → Wakes poll (with_template env poll config rows r s).0
  unfolding with_template
  with_template-Wakes config rows u (err e) s h = absurd (cc h)
  with_template-Wakes config rows u (ok v) s h = finish-Wakes config _ _

  retry_interval-Wakes : Wakes poll (requeue_after (retry_interval poll))
  unfolding int_min
  retry_interval-Wakes = ground arith

  with_rows-Wakes :
      (config : Map Text) (r : Reply Text (List R)) (u : Unit {0}) (s : State W V)
      → env.parse_template s.cr.spec.template ≡ ok u
      → Wakes poll (with_rows env poll config r s).0
  unfolding with_rows
  with_rows-Wakes config (err e) u s h = (positive, omega arith)
  with_rows-Wakes config (ok rows) u s h = with_template-Wakes config rows u _ s h

  with_client-Wakes :
      (config : Map Text) (r : Reply Text D) (u : Unit {0}) (s : State W V)
      → env.parse_template s.cr.spec.template ≡ ok u
      → Wakes poll (with_client env poll config r s).0
  unfolding with_client set_condition
  with_client-Wakes config (err e) u s h = retry_interval-Wakes
  with_client-Wakes config (ok db) u s h = with_rows-Wakes config _ u _ h

  with_config-Wakes :
      (r : Reply Text (Map Text)) (u : Unit {0}) (s : State W V)
      → env.parse_template s.cr.spec.template ≡ ok u
      → Wakes poll (with_config env poll r s).0
  unfolding with_config get_or_create_db_client
  with_config-Wakes (err e) u s h = retry_interval-Wakes
  with_config-Wakes (ok config) u s h = with_client-Wakes config _ u _ h

  -- However a full pass ends, also where the Secret, the database, the query or any row fails, it
  -- asks to be woken after a delay above zero and at most the poll interval: for a poll interval
  -- above zero and a template that parses.
  pub full_reconcile-Wakes :
      (u : Unit {0}) (s : State W V)
      → env.parse_template s.cr.spec.template ≡ ok u
      → Wakes poll (full_reconcile env poll s).0
  unfolding full_reconcile get_db_config
  full_reconcile-Wakes u s h = with_config-Wakes _ u _ h

-- A pass without errors counts as a poll, at a time that is recorded as that of the last poll and of
-- the last reconciliation. After one with errors both are as before.
abbrev pub Recorded : {W V : Type 0} → List Text → State W V → State W V → Type 0
Recorded [] s t =
    (now : Time) × (t.cr.status.last_poll_time ≡ some now)
    × (t.cr.status.last_reconcile_time ≡ some now)
Recorded (e ∷ es) s t =
    (t.cr.status.last_poll_time ≡ s.cr.status.last_poll_time)
    × (t.cr.status.last_reconcile_time ≡ s.cr.status.last_reconcile_time)

module _ {W V D R : Type 0} (env : Env W V D R) (poll : ℤ) where
  conclude-Recorded :
      (errors : List Text) (s : State W V)
      → let (result, t) = conclude env poll errors s in
        (result ≡ requeue_after (next_requeue_interval env s.cr poll)) × Recorded errors s t
  unfolding conclude set_condition next_requeue_interval
  conclude-Recorded [] s = (refl, ((env.now s.world).0, refl, refl))
  conclude-Recorded (e ∷ es) s = (refl, (refl, refl))

  polled-prune_phase :
      (keys : Map Bool) (s : State W V) → polled (prune_phase env keys s).1 ≡ polled s
  unfolding prune_phase collect_all_child_resources
  polled-prune_phase keys s = elim (Bool-cases (get_prune s.cr.spec)) [
    | inl b ↦
        let names = s.cr.status.managed_resources in
        let (children, t) = get_each env collect_id names s in
        let (calls, same) = get_each_writes_nothing env collect_id names s in
        rw (b, prune_phase)
          (polled-prune_stale_resources env keys children t
            ∙ ap (λ c. (c.spec, c.status.last_poll_time, c.status.last_reconcile_time)) same)
    | inr b ↦ rw (b, prune_phase) refl
  ]

  polled-collect_managed_children :
      (s : State W V) → polled (collect_managed_children env s).1 ≡ polled s
  unfolding collect_managed_children
  polled-collect_managed_children s =
      let (calls, same) = get_each_writes_nothing env status_id s.cr.status.managed_resources s in
      ap (λ c. (c.spec, c.status.last_poll_time, c.status.last_reconcile_time)) same

  -- The same ending, seen from an earlier state with the same spec and times.
  Recorded-since :
      (errors : List Text) (s s' t : State W V)
      → polled s' ≡ polled s
      → Recorded errors s' t
      → Recorded errors s t
  Recorded-since [] s s' t e h = h
  Recorded-since (x ∷ xs) s s' t e (a, b) = (a ∙ ap (λ p. p.1) e, b ∙ ap (λ p. p.2) e)

  requeue-since :
      (s s' : State W V)
      → polled s' ≡ polled s
      → requeue_after (next_requeue_interval env s'.cr poll)
        ≡ requeue_after (next_requeue_interval env s.cr poll)
  unfolding next_requeue_interval
  requeue-since s s' e = rw (ap (λ p. p.0) e) refl

  -- Behind its rows a pass asks for the configured interval, whether or not there are errors of the
  -- rows or of the pruning. It counts as a poll only where there are none: then one time is
  -- recorded as that of the last poll and of the last reconciliation, and else both stay as they
  -- were, through the pruning and the status updates of the children. In either case the managed
  -- resources are overwritten with the sorted keys of the rows that were not skipped.
  pub finish-Recorded :
      (config : Map Text) (outcomes : List (Reply Text (Object V))) (s : State W V)
      → let keys = managed_keys [] outcomes in
        let errors = row_errors outcomes ++ (prune_phase env keys s).0 in
        let (result, t) = finish env poll config outcomes s in
        (result ≡ requeue_after (next_requeue_interval env s.cr poll))
        × Recorded errors s t
        × (t.cr.status.managed_resources ≡ sort_strings (keys_of keys))
  unfolding finish record_managed
  finish-Recorded config outcomes s =
      let keys = managed_keys [] outcomes in
      let (errors, pruned) = prune_phase env keys s in
      let (children, read) = collect_managed_children env pruned in
      let (n, updated) = update_status_for_child_resources env config children read in
      let ended : State W V = record updated {
        cr = record updated.cr { status = record_managed keys updated.cr.status };
      } in
      let same : polled ended ≡ polled s =
        polled-update_status env config children read
        ∙ polled-collect_managed_children pruned
        ∙ polled-prune_phase keys s in
      let (result, recorded) = conclude-Recorded (row_errors outcomes ++ errors) ended in
      (
        result ∙ requeue-since s ended same,
        Recorded-since (row_errors outcomes ++ errors) s ended _ same recorded,
        managed-finish env poll config outcomes s,
      )
