-- ===== src/Applied/Overlay.antt =====
-- The overlay of the desired state on a live object.
use db_query_operator.Prelude.{
  ◌≡◌, refl, sym, ap, ◌∙◌, Option, none, some, [], ◌∷◌, arith, if◌then◌else◌, Bool-cases, inl, inr,
}
use db_query_operator.Prelude.Text.{Text, text_eq, text_eq_iff, empty_text}
use db_query_operator.Prelude.Maps.{Map, lookup, lookup-insert, lookup-delete}
use db_query_operator.Cluster.{Object, Codec}
use db_query_operator.Applied.{overlay_one, overlay, entries, apply_desired_state}

-- What the overlay makes of one key: the desired value, unless that is empty.
abbrev pub desired_or : Option Text → Option Text → Option Text
desired_or none old = old
desired_or (some v) old = if empty_text v then none else some v

-- No key stands twice.
abbrev pub HasDistinctKeys : Map Text → Type 0
HasDistinctKeys [] = Unit
HasDistinctKeys ((k, v) ∷ m) = (lookup k m ≡ none) × HasDistinctKeys m

lookup-overlay_one :
    (anns : Map Text) (k v j : Text)
    → lookup j (overlay_one anns k v)
      ≡ (if text_eq k j then desired_or (some v) (lookup j anns) else lookup j anns)
unfolding overlay_one
lookup-overlay_one anns k v j = ground (arith, lookup-insert k j v anns, lookup-delete k j anns)

lookup-overlay-none :
    (anns desired : Map Text) (j : Text)
    → lookup j desired ≡ none
    → lookup j (overlay anns desired) ≡ lookup j anns
unfolding overlay lookup
lookup-overlay-none anns [] j h = refl
lookup-overlay-none anns ((k, v) ∷ desired) j h =
    ground
      (arith, lookup-overlay-none (overlay_one anns k v) desired j, lookup-overlay_one anns k v j)

-- After the overlay each key has its desired value, is gone where that is empty, and is as before
-- where the desired annotations do not name it.
pub lookup-overlay :
    (anns desired : Map Text) (j : Text)
    → HasDistinctKeys desired
    → lookup j (overlay anns desired) ≡ desired_or (lookup j desired) (lookup j anns)
unfolding overlay lookup
lookup-overlay anns [] j h = refl
lookup-overlay anns ((k, v) ∷ desired) j h = elim (Bool-cases (text_eq k j)) [
  | inl e ↦
      let same = (text_eq_iff k j).0 e in
      rw e (
        lookup-overlay-none (overlay_one anns k v) desired j
          (ap (λ i. lookup i desired) (sym same) ∙ h.0)
        ∙ lookup-overlay_one anns k v j
        ∙ rw e)
  | inr e ↦ rw e (
      lookup-overlay (overlay_one anns k v) desired j h.1
      ∙ ap (desired_or (lookup j desired)) (lookup-overlay_one anns k v j ∙ rw e))
]

desired_or_idem : (d old : Option Text) → desired_or d (desired_or d old) ≡ desired_or d old
desired_or_idem none old = refl
desired_or_idem (some v) old = ground arith

module _ {V : Type 0} (codec : Codec V) (existing desired : Object V) where
  -- The first overlay of the code, before `updateWithConflictRetry` makes its own, is harmless:
  -- a second one changes no annotation. The desired annotations hold no key twice.
  pub apply_desired_state_idem :
      (k : Text)
      → HasDistinctKeys (entries desired.annotations)
      → let once = apply_desired_state codec existing desired in
        let twice = apply_desired_state codec once desired in
        lookup k (entries twice.annotations) ≡ lookup k (entries once.annotations)
  unfolding apply_desired_state
  apply_desired_state_idem k h =
      let old = entries existing.annotations in
      let new = entries desired.annotations in
      lookup-overlay (overlay old new) new k h
      ∙ ap (desired_or (lookup k new)) (lookup-overlay old new k h)
      ∙ desired_or_idem (lookup k new) (lookup k old)
      ∙ sym (lookup-overlay old new k h)
