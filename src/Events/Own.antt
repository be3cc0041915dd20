-- ===== src/Events/Own.antt =====
-- Which updates of the custom resource start a pass.
use db_query_operator.Prelude.{true, false, ◌≡◌, ◌↔◌, Option, none, some, List, [], ◌∷◌, arith}
use db_query_operator.Prelude.Text.{Text, text_eq_iff}
use db_query_operator.Api.{Time}
use db_query_operator.Events.{
  ObjectMeta, same_finalizers, same_time, lifecycle_changed, update_changed,
  spec_or_lifecycle_changed_predicate,
}

same_finalizers_iff : (a b : List Text) → (same_finalizers a b ≡ true) ↔ (a ≡ b)
unfolding same_finalizers
same_finalizers_iff [] [] = ground arith
same_finalizers_iff [] (g ∷ b) = ground arith
same_finalizers_iff (f ∷ a) [] = ground arith
same_finalizers_iff (f ∷ a) (g ∷ b) = ground (arith, same_finalizers_iff a b, text_eq_iff f g)

same_time_iff : (a b : Option Time) → (same_time a b ≡ true) ↔ (a ≡ b)
unfolding same_time
same_time_iff none none = ground arith
same_time_iff none (some u) = ground arith
same_time_iff (some t) none = ground arith
same_time_iff (some t) (some u) = ground arith

-- An update is passed over exactly when generation, finalizers and deletion timestamp are all
-- unchanged, whatever else has changed: so a write of the status, which leaves these three, does
-- not start another pass, while the events that the finalizer's cleanup waits for do.
pub spec_or_lifecycle_changed_iff :
    (old new : ObjectMeta)
    → (spec_or_lifecycle_changed_predicate.update_func
          (record { object_old = some old; object_new = some new })
        ≡ false)
      ↔ ((old.generation ≡ new.generation)
          × (old.finalizers ≡ new.finalizers)
          × (old.deletion_timestamp ≡ new.deletion_timestamp))
unfolding spec_or_lifecycle_changed_predicate update_changed lifecycle_changed
spec_or_lifecycle_changed_iff old new = ground (
  arith,
  same_finalizers_iff old.finalizers new.finalizers,
  same_time_iff old.deletion_timestamp new.deletion_timestamp,
)
