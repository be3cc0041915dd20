-- ===== src/Applied/Converges.antt =====
-- When a pass that finds nothing changed writes nothing: the recorded configuration against the
-- desired one.
use db_query_operator.Prelude.{
  true, false, not, ◌≡◌, refl, ◌∙◌, ◌⊎◌, Option, none, some, arith, Option-cases, inl, inr,
  Bool-cases,
}
use db_query_operator.Prelude.Text.{Text, text_eq, text_eq_refl}
use db_query_operator.Prelude.Maps.{Map, lookup, lookup-insert, lookup-keep_keys, insert}
use db_query_operator.Cluster.{Object, ok, Codec, ManagedResourceConfig}
use db_query_operator.Applied.{
  raw, value, entries, last_applied_config_annotation, config_of, get_last_applied_config,
  decode_last_applied, set_last_applied_config, canonical_config, decoded, configs_equal,
  deep_equal, apply_desired_state, update_decision, without_last_applied, overlay,
}
use db_query_operator.Applied.Overlay.{HasDistinctKeys, lookup-overlay}

-- What `encoding/json` and `reflect.DeepEqual` are documented to do on configurations: what was
-- encoded decodes, to a value and to a configuration whose encoding decodes to the same value, and
-- a decoded value equals itself.
pub record IsJson {V : Type 0} (codec : Codec V) : Type 0 where
  pub decodes :
      (c : ManagedResourceConfig V) (t : Text)
      → codec.marshal_config c ≡ some t
      → (d : ManagedResourceConfig V) × (u : Text) × (v : V) × (codec.unmarshal_config t ≡ ok d)
        × (codec.marshal_config d ≡ some u)
        × (codec.unmarshal_value u ≡ some v)
        × (codec.unmarshal_value t ≡ some v)
  pub reflexive :
      (t : Text) (v : V) → codec.unmarshal_value t ≡ some v → codec.value_deep_equal v v ≡ true

-- And of a decoded configuration the annotations can be read.
pub record ShowsAnnotations {V : Type 0} (codec : Codec V) : Type 0 where
  pub annotation : V → Text → Option Text
  pub shown :
      (c : ManagedResourceConfig V) (t : Text) (v : V) (k : Text)
      → codec.marshal_config c ≡ some t
      → codec.unmarshal_value t ≡ some v
      → annotation v k ≡ lookup k (entries c.annotations)
  pub sound : (v w : V) → codec.value_deep_equal v w ≡ true → v ≡ w

module _ {V : Type 0} (codec : Codec V) where
  marshal-set_last_applied :
      (o o' : Object V)
      → set_last_applied_config codec o ≡ ok o'
      → (t : Text) × (codec.marshal_config (config_of codec o) ≡ some t)
        × (o'.annotations ≡ some (insert last_applied_config_annotation t (entries o.annotations)))
  unfolding set_last_applied_config
  marshal-set_last_applied o o' h = elim (Option-cases (codec.marshal_config (config_of codec o))) [
    | inl e ↦ ground arith
    | inr (t, e) ↦ (t, e, ground arith)
  ]

  get_last_applied_of :
      (o : Object V) (m : Map Text) (t : Text) (d : ManagedResourceConfig V)
      → o.annotations ≡ some m
      → lookup last_applied_config_annotation m ≡ some t
      → codec.unmarshal_config t ≡ ok d
      → get_last_applied_config codec o ≡ ok (some d)
  unfolding get_last_applied_config decode_last_applied
  get_last_applied_of o m t d a l u = ground arith

  canonical-value :
      (c : ManagedResourceConfig V) (t : Text) (v : V)
      → codec.marshal_config c ≡ some t
      → codec.unmarshal_value t ≡ some v
      → canonical_config codec c ≡ value v
  unfolding canonical_config decoded
  canonical-value c t v m u = ground arith

  recorded :
      (written live : Object V) (t : Text)
      → live.annotations
        ≡ some (insert last_applied_config_annotation t (entries written.annotations))
      → (d : ManagedResourceConfig V) → codec.unmarshal_config t ≡ ok d
      → get_last_applied_config codec live ≡ ok (some d)
  recorded written live t a d u =
      get_last_applied_of live _ t d a
        (lookup-insert last_applied_config_annotation last_applied_config_annotation t
            (entries written.annotations)
          ∙ rw (text_eq_refl last_applied_config_annotation))
        u

lookup-without_last_applied :
    (k : Text) (a : Option (Map Text))
    → text_eq k last_applied_config_annotation ≡ false
    → lookup k (entries (without_last_applied a)) ≡ lookup k (entries a)
unfolding without_last_applied
lookup-without_last_applied k none h = refl
lookup-without_last_applied k (some m) h =
    lookup-keep_keys (λ j. not (text_eq j last_applied_config_annotation)) k m ∙ rw h

module _ {V : Type 0} (codec : Codec V) (json : IsJson codec) where
  configs_equal_of_decoded :
      (c d : ManagedResourceConfig V) (t : Text) (v : V)
      → codec.marshal_config c ≡ some t
      → codec.unmarshal_value t ≡ some v
      → canonical_config codec d ≡ value v
      → configs_equal codec d c ≡ true
  unfolding configs_equal deep_equal
  configs_equal_of_decoded c d t v m u e =
      rw (e, canonical-value codec c t v m u) (json.reflexive t v u)

  update_decision_of_recorded :
      (desired live : Object V) (d : ManagedResourceConfig V)
      → get_last_applied_config codec live ≡ ok (some d)
      → update_decision codec desired (ok live)
        ≡ ok (not (configs_equal codec d (config_of codec desired)))
  unfolding update_decision
  update_decision_of_recorded desired live d e = rw e

  -- Once an object has been written with its configuration recorded, and the live object still has
  -- the annotations written, the next check of a desired state whose configuration encodes alike
  -- finds nothing to update.
  pub update_decision_after_write :
      (written o desired live : Object V)
      → set_last_applied_config codec written ≡ ok o
      → codec.marshal_config (config_of codec desired)
        ≡ codec.marshal_config (config_of codec written)
      → live.annotations ≡ o.annotations
      → update_decision codec desired (ok live) ≡ ok false
  update_decision_after_write written o desired live w same kept =
      let (t, m, a) = marshal-set_last_applied codec written o w in
      let (d, u, v, ud, md, uv, tv) = json.decodes _ t m in
      update_decision_of_recorded desired live d (recorded codec written live t (kept ∙ a) d ud)
      ∙ rw (
          configs_equal_of_decoded (config_of codec desired) d t v (same ∙ m) tv
            (canonical-value codec d u v md uv))

  module _ (shows : ShowsAnnotations codec) where
    annotations_of_decoded :
        (c : ManagedResourceConfig V) (v : V) (k : Text)
        → canonical_config codec c ≡ value v
        → shows.annotation v k ≡ lookup k (entries c.annotations)
    unfolding canonical_config decoded
    annotations_of_decoded c v k e = elim (Option-cases (codec.marshal_config c)) [
      | inl m ↦ ground (arith, m)
      | inr (t, m) ↦ elim (Option-cases (codec.unmarshal_value t)) [
        | inl u ↦ ground (arith, m, u)
        | inr (w, u) ↦ ground (arith, m, u, shows.shown c t w k m u)
      ]
    ]

    canonical-cases :
        (c : ManagedResourceConfig V)
        → (canonical_config codec c ≡ raw c) ⊎ ((v : V) × (canonical_config codec c ≡ value v))
    unfolding canonical_config decoded
    canonical-cases c = ground arith

    values_differ :
        (v w : V) (k : Text) {x : Text}
        → shows.annotation v k ≡ some x
        → shows.annotation w k ≡ none
        → codec.value_deep_equal v w ≡ false
    values_differ v w k p q = elim (Bool-cases (codec.value_deep_equal v w)) [
      | inl e ↦ absurd (cc (shows.sound v w e))
      | inr e ↦ e
    ]

    configs_differ :
        (d c : ManagedResourceConfig V) (v : V) (k : Text) {x : Text}
        → canonical_config codec d ≡ value v
        → shows.annotation v k ≡ some x
        → lookup k (entries c.annotations) ≡ none
        → configs_equal codec d c ≡ false
    unfolding configs_equal deep_equal
    configs_differ d c v k e p q = elim (canonical-cases c) [
      | inl r ↦ rw (e, r)
      | inr (w, r) ↦ rw (e, r) (values_differ v w k p (annotations_of_decoded c w k r ∙ q))
    ]

    annotation-recorded :
        (existing desired : Object V) (k : Text) {x : Text}
        → HasDistinctKeys (entries desired.annotations)
        → text_eq k last_applied_config_annotation ≡ false
        → lookup k (entries desired.annotations) ≡ none
        → lookup k (entries existing.annotations) ≡ some x
        → lookup k
            (entries (config_of codec (apply_desired_state codec existing desired)).annotations)
          ≡ some x
    unfolding apply_desired_state
    annotation-recorded existing desired k h ne none_desired there =
        let old = entries existing.annotations in
        let new = entries desired.annotations in
        lookup-without_last_applied k (some (overlay old new)) ne
        ∙ lookup-overlay old new k h
        ∙ rw none_desired there

    -- After an update of a live object that carries an annotation of another writer, the next check
    -- of the same desired state asks for an update again, as long as the live annotations stay as
    -- written.
    pub update_decision_foreign :
        (existing desired o live : Object V) (k : Text) {x : Text}
        → HasDistinctKeys (entries desired.annotations)
        → text_eq k last_applied_config_annotation ≡ false
        → lookup k (entries desired.annotations) ≡ none
        → lookup k (entries existing.annotations) ≡ some x
        → set_last_applied_config codec (apply_desired_state codec existing desired) ≡ ok o
        → live.annotations ≡ o.annotations
        → update_decision codec desired (ok live) ≡ ok true
    update_decision_foreign existing desired o live k h ne none_desired there w kept =
        let written = apply_desired_state codec existing desired in
        let (t, m, a) = marshal-set_last_applied codec written o w in
        let (d, u, v, ud, md, uv, tv) = json.decodes _ t m in
        let absent = lookup-without_last_applied k desired.annotations ne ∙ none_desired in
        let shown =
          shows.shown _ t v k m tv
          ∙ annotation-recorded existing desired k h ne none_desired there in
        update_decision_of_recorded desired live d (recorded codec written live t (kept ∙ a) d ud)
        ∙ rw (
            configs_differ d (config_of codec desired) v k (canonical-value codec d u v md uv) shown
              absent)
