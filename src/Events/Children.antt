-- ===== src/Events/Children.antt =====
-- Which updates of the children start a pass.
use db_query_operator.Prelude.{Bool, true, false, ◌≡◌, Bool-cases, inl, inr, some, List, [], ◌∷◌}
use db_query_operator.Prelude.Lists.{All}
use db_query_operator.Gvk.{GroupVersionKind}
use db_query_operator.Events.{
  ObjectMeta, UpdateEvent, Predicate, Library, owned_predicates, owned_watches,
}

module _ (lib : Library) (passes : List Predicate → UpdateEvent → Bool)
    (all_pass : (ps : List Predicate) (e : UpdateEvent)
      → passes ps e ≡ true
      → All (λ p. p.update_func e ≡ true) ps)
    (skips_same_generation : (old new : ObjectMeta)
      → old.generation ≡ new.generation
      → lib.generation_changed.update_func (record { object_old = some old; object_new = some new })
        ≡ false) where
  owned_predicates-block :
      (old new : ObjectMeta)
      → old.generation ≡ new.generation
      → passes (owned_predicates lib) (record { object_old = some old; object_new = some new })
        ≡ false
  unfolding owned_predicates
  owned_predicates-block old new h =
      let e : UpdateEvent = record { object_old = some old; object_new = some new } in
      elim (Bool-cases (passes (owned_predicates lib) e)) [
        | inl p ↦
            let each = all_pass (owned_predicates lib) e p in
            cc (each.1.1.0, skips_same_generation old new h)
        | inr p ↦ p
      ]

  -- An update of a child that leaves its generation, such as a change of its status alone, passes
  -- the filter of no owned kind. The builder lets an event pass only if all predicates do, and the
  -- library's predicate on generations does not where the generation is the same.
  pub owned_watches_block :
      (owned : List GroupVersionKind) (old new : ObjectMeta)
      → old.generation ≡ new.generation
      → All
          (λ w.
            passes w.predicates (record { object_old = some old; object_new = some new }) ≡ false)
          (owned_watches lib owned)
  unfolding owned_watches
  owned_watches_block [] old new h = tt
  owned_watches_block (gvk ∷ owned) old new h =
      (owned_predicates-block old new h, owned_watches_block owned old new h)
