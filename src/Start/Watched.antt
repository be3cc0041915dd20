-- ===== src/Start/Watched.antt =====
-- What a start that did not end in an error has done.
use mathlib.Core.Path.{subst}
use db_query_operator.Prelude.{◌≡◌, refl, sym, ap, ◌∙◌, List, [], ◌∷◌, map}
use db_query_operator.Prelude.Text.{Text}
use db_query_operator.Cluster.{Reply, ok, err}
use db_query_operator.Events.{
  Watch, status_change_predicate, spec_or_lifecycle_changed_predicate, owned_predicates,
  owned_watches, setup_with_manager_and_gvks,
}
use db_query_operator.Gvk.{GroupVersionKind, parse_gvks}
use db_query_operator.Start.{
  Ending, returned, Runtime, or_exit, run_manager, flags, with_logger, manager_options, main,
}

module _ {W : Type 0} where
  -- The step went well, and the rest ran on what it left.
  abbrev Passed : {A : Type 0} → Reply Text A × W → (A → W → Ending × W) → Ending × W → Type 0
  Passed {A} r next t = (a : A) × (r.0 ≡ ok a) × (next a r.1 ≡ t)

  or_exit-Passed :
      {A : Type 0} (r : Reply Text A × W) (next : A → W → Ending × W)
      → (or_exit r next).0 ≡ returned
      → Passed r next (or_exit r next)
  unfolding or_exit
  or_exit-Passed (ok a, w) next h = (a, refl, refl)
  or_exit-Passed (err e, w) next h = cc h

module _ {W M : Type 0} (runtime : Runtime W M) where
  -- The custom resource, filtered by generation, finalizers and deletion, and each of the kinds,
  -- filtered by five predicates.
  abbrev pub watched : List GroupVersionKind → List Watch
  watched gvks =
      let lib = runtime.predicates in
      record { gvk = runtime.primary; predicates = spec_or_lifecycle_changed_predicate ∷ [] }
      ∷ map
          (λ gvk. record {
            gvk = gvk;
            predicates =
                status_change_predicate ∷ lib.resource_version_changed ∷ lib.generation_changed
                ∷ lib.annotation_changed ∷ lib.label_changed ∷ [];
          })
          gvks

  owned_watches-map :
      (gvks : List GroupVersionKind)
      → owned_watches runtime.predicates gvks
        ≡ map (λ gvk. record { gvk = gvk; predicates = owned_predicates runtime.predicates }) gvks
  unfolding owned_watches
  owned_watches-map [] = refl
  owned_watches-map (gvk ∷ gvks) =
      ap (◌∷◌ (record { gvk = gvk; predicates = owned_predicates runtime.predicates }))
        (owned_watches-map gvks)

  setup-watched :
      (gvks : List GroupVersionKind)
      → setup_with_manager_and_gvks runtime.predicates runtime.primary gvks ≡ watched gvks
  unfolding setup_with_manager_and_gvks owned_predicates
  setup-watched gvks =
      ap
        (◌∷◌
          (record { gvk = runtime.primary; predicates = spec_or_lifecycle_changed_predicate ∷ [] }))
        (owned_watches-map gvks)

  -- The manager was given these watches, and then ran until it stopped without an error, in the state given.
  pub record Ran (gvks : List GroupVersionKind) (mgr : M) (made t : W) : Type 0 where
    pub set_up : (runtime.complete made mgr (watched gvks)).0 ≡ ok tt
    pub before : W
    pub stopped : (runtime.start before mgr).0 ≡ ok tt
    pub ended : (runtime.start before mgr).1 ≡ t

  run_manager-Ran :
      (gvks : List GroupVersionKind) (mgr : M) (w : W)
      → (run_manager runtime gvks mgr w).0 ≡ returned
      → Ran gvks mgr w (run_manager runtime gvks mgr w).1
  unfolding run_manager
  run_manager-Ran gvks mgr w h =
      let (_, set_up, n1) = or_exit-Passed _ _ h in
      let h1 = ap (λ r. r.0) n1 ∙ h in
      let (_, _, n2) = or_exit-Passed _ _ h1 in
      let h2 = ap (λ r. r.0) n2 ∙ h1 in
      let (_, _, n3) = or_exit-Passed _ _ h2 in
      let h3 = ap (λ r. r.0) n3 ∙ h2 in
      let (_, _, n4) = or_exit-Passed _ _ h3 in
      let h4 = ap (λ r. r.0) n4 ∙ h3 in
      let (_, stopped, n5) = or_exit-Passed _ _ h4 in
      record {
        set_up =
            ap (λ watches. (runtime.complete w mgr watches).0) (sym (setup-watched gvks)) ∙ set_up;
        before = _;
        stopped = stopped;
        ended = ap (λ r. r.1) (n5 ∙ n4 ∙ n3 ∙ n2 ∙ n1);
      }

  -- The process returns from `main` only if the pattern named a kind, the manager was made, it was
  -- given a watch of the custom resource with its own filter and one of each kind of the pattern
  -- with the five predicates of the children, and it stopped without an error as the last step.
  pub main-Ran :
      (w : W)
      → (main runtime w).0 ≡ returned
      → (gvks : List GroupVersionKind) × (mgr : M) × (parse_gvks (flags runtime).gvk_pattern
          ≡ ok gvks)
        × ((runtime.new_manager (with_logger runtime w) (manager_options (flags runtime))).0
            ≡ ok mgr)
        × Ran gvks mgr
            (runtime.new_manager (with_logger runtime w) (manager_options (flags runtime))).1
            (main runtime w).1
  unfolding main
  main-Ran w h =
      let (gvks, parsed, n1) = or_exit-Passed _ _ h in
      let h1 = ap (λ r. r.0) n1 ∙ h in
      let (mgr, made, n2) = or_exit-Passed _ _ h1 in
      let h2 = ap (λ r. r.0) n2 ∙ h1 in
      (
        gvks,
        mgr,
        parsed,
        made,
        subst (Ran gvks mgr _) (ap (λ r. r.1) (n2 ∙ n1)) (run_manager-Ran gvks mgr _ h2),
      )
