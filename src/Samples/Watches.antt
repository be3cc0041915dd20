-- ===== src/Samples/Watches.antt =====
-- Witnesses for the theorems on the predicates.
use db_query_operator.Prelude.{
  Bool, true, false, not, ◌==◌, ◌≡◌, refl, ◌↔◌, none, some, List, [], ◌∷◌, arith,
}
use db_query_operator.Prelude.Lists.{all, All}
use db_query_operator.Prelude.Text.{codes}
use db_query_operator.Gvk.{GroupVersionKind}
use db_query_operator.Events.{
  ObjectMeta, UpdateEvent, Predicate, Library, spec_or_lifecycle_changed_predicate, owned_watches,
}
use db_query_operator.Events.Own
use db_query_operator.Events.Children

abbrev old_meta : ObjectMeta
old_meta = record {
  resource_version = codes "1";
  generation = 1;
  finalizers = [];
  deletion_timestamp = none;
  labels = [];
  annotations = [];
}

abbrev new_meta : ObjectMeta
new_meta = record old_meta { resource_version = codes "2" }

abbrev generation_differs : UpdateEvent → Bool
generation_differs e = elim e.object_old [
  | none ↦ false
  | some old ↦ elim e.object_new [
    | none ↦ false
    | some new ↦ not (old.generation == new.generation)
  ]
]

abbrev by_generation : Predicate
by_generation = record {
  update_func = generation_differs;
  create_func = λ o. true;
  delete_func = λ o. true;
  generic_func = λ o. true;
}

abbrev pub library : Library
library = record {
  resource_version_changed = by_generation;
  generation_changed = by_generation;
  annotation_changed = by_generation;
  label_changed = by_generation;
}

abbrev conjunction : List Predicate → UpdateEvent → Bool
conjunction ps e = all (λ p. p.update_func e) ps

conjunction-All :
    (ps : List Predicate) (e : UpdateEvent)
    → conjunction ps e ≡ true
    → All (λ p. p.update_func e ≡ true) ps
conjunction-All [] e h = tt
conjunction-All (p ∷ ps) e h = (ground arith, conjunction-All ps e (ground arith))

abbrev services : List GroupVersionKind
services = record { group = []; version = codes "v1"; kind = codes "Service" } ∷ []

owned_watches_block_example :
    All
      (λ w.
        conjunction w.predicates (record { object_old = some old_meta; object_new = some new_meta })
        ≡ false)
      (owned_watches library services)
owned_watches_block_example =
    Children.owned_watches_block library conjunction conjunction-All
      (λ old new h. ground (arith, h)) services old_meta new_meta refl

spec_or_lifecycle_changed_iff_example :
    (spec_or_lifecycle_changed_predicate.update_func
        (record { object_old = some old_meta; object_new = some new_meta })
      ≡ false)
    ↔ ((old_meta.generation ≡ new_meta.generation)
        × (old_meta.finalizers ≡ new_meta.finalizers)
        × (old_meta.deletion_timestamp ≡ new_meta.deletion_timestamp))
spec_or_lifecycle_changed_iff_example = Own.spec_or_lifecycle_changed_iff old_meta new_meta
