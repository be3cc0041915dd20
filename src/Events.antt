-- ===== src/Events.antt =====
-- internal/controller/databasequeryresource_controller.go: `SetupWithManagerAndGVKs` and the
-- predicates that filter the events of the custom resource and of its children. The predicates of
-- controller-runtime, and the way its builder puts several together, are parameters.
pub mod Own
pub mod Children
use db_query_operator.Prelude.{
  ℕ, Bool, true, false, not, ◌&&◌, ◌==◌, Option, none, some, List, [], ◌∷◌, if◌then◌else◌,
}
use db_query_operator.Prelude.Text.{Text, text_eq}
use db_query_operator.Prelude.Maps.{Map}
use db_query_operator.Api.{Time}
use db_query_operator.Gvk.{GroupVersionKind}

-- `client.Object`, by the metadata that a predicate may look at.
pub record ObjectMeta : Type 0 where
  pub resource_version : Text
  pub generation : ℕ
  pub finalizers : List Text
  pub deletion_timestamp : Option Time
  pub labels : Map Text
  pub annotations : Map Text

-- `event.UpdateEvent`; either object may be nil.
pub record UpdateEvent : Type 0 where
  pub object_old : Option ObjectMeta
  pub object_new : Option ObjectMeta

-- `predicate.Funcs`. An event of another kind than an update carries one object.
pub record Predicate : Type 0 where
  pub update_func : UpdateEvent → Bool
  pub create_func : Option ObjectMeta → Bool
  pub delete_func : Option ObjectMeta → Bool
  pub generic_func : Option ObjectMeta → Bool

unfoldable pub status_change_predicate : Predicate
status_change_predicate = record {
  update_func = λ e. true;
  create_func = λ o. true;
  delete_func = λ o. true;
  generic_func = λ o. false;
}

-- `reflect.DeepEqual` on two lists of finalizers; the decoder gives nil for the empty list.
unfoldable pub same_finalizers : List Text → List Text → Bool
same_finalizers [] [] = true
same_finalizers [] (g ∷ gs) = false
same_finalizers (f ∷ fs) [] = false
same_finalizers (f ∷ fs) (g ∷ gs) = text_eq f g && same_finalizers fs gs

-- `metav1.Time.Equal`, where both may be nil.
unfoldable pub same_time : Option Time → Option Time → Bool
same_time none none = true
same_time none (some u) = false
same_time (some t) none = false
same_time (some t) (some u) = t == u

unfoldable pub lifecycle_changed : ObjectMeta → ObjectMeta → Bool
lifecycle_changed old new =
    if not (old.generation == new.generation)
    then true
    else if not (same_finalizers old.finalizers new.finalizers)
    then true
    else not (same_time old.deletion_timestamp new.deletion_timestamp)

unfoldable pub update_changed : Option ObjectMeta → Option ObjectMeta → Bool
update_changed none new = false
update_changed (some old) none = false
update_changed (some old) (some new) = lifecycle_changed old new

unfoldable pub spec_or_lifecycle_changed_predicate : Predicate
spec_or_lifecycle_changed_predicate = record {
  update_func = λ e. update_changed e.object_old e.object_new;
  create_func = λ o. true;
  delete_func = λ o. true;
  generic_func = λ o. false;
}

-- The predicates of controller-runtime that the set-up names.
pub record Library : Type 0 where
  pub resource_version_changed : Predicate
  pub generation_changed : Predicate
  pub annotation_changed : Predicate
  pub label_changed : Predicate

-- What the builder is told to watch: a kind, and the predicates of its events.
pub record Watch : Type 0 where
  pub gvk : GroupVersionKind
  pub predicates : List Predicate

-- The `builder.WithPredicates` of every owned kind.
unfoldable pub owned_predicates : Library → List Predicate
owned_predicates lib =
    status_change_predicate ∷ lib.resource_version_changed ∷ lib.generation_changed
    ∷ lib.annotation_changed ∷ lib.label_changed ∷ []

-- The loop over the owned kinds.
unfoldable pub owned_watches : Library → List GroupVersionKind → List Watch
owned_watches lib [] = []
owned_watches lib (gvk ∷ gvks) =
    record { gvk = gvk; predicates = owned_predicates lib } ∷ owned_watches lib gvks

-- The watches of the controller: the custom resource, of the kind that `For` is given, and the
-- owned kinds.
unfoldable pub setup_with_manager_and_gvks :
    Library → GroupVersionKind → List GroupVersionKind → List Watch
setup_with_manager_and_gvks lib primary owned =
    record { gvk = primary; predicates = spec_or_lifecycle_changed_predicate ∷ [] }
    ∷ owned_watches lib owned
