-- ===== src/Children/Prune.antt =====
-- What `pruneStaleResources` deletes, reports and forgets.
use db_query_operator.Prelude.{
  Bool, true, false, ◌≡◌, refl, sym, ◌∙◌, Option, none, some, List, [], ◌∷◌, ◌++◌, arith, map,
  append-nil, append_assoc, if◌then◌else◌, ◌&&◌,
}
use db_query_operator.Prelude.Lists.{keep, All}
use db_query_operator.Prelude.Text.{Text, text_eq, text_eq_iff}
use db_query_operator.Prelude.Maps.{Map, lookup, lookup-delete}
use db_query_operator.Cluster.{Object, deleted, Env, State}
use db_query_operator.Children.{
  get_object_key, forget, after_delete, is_stale, prune_one, prune_stale_resources,
}

-- The version recorded for a key, if any.
unfoldable pub version : Text → Option (Map Text) → Option Text
version j none = none
version j (some m) = lookup j m

abbrev pub version_of : {W V : Type 0} → Text → State W V → Option Text
version_of j s = version j s.cr.status.resource_versions

pub version-forget :
    (key j : Text) (versions : Option (Map Text))
    → version j (forget key versions) ≡ (if text_eq key j then none else version j versions)
unfolding version forget
version-forget key j none = ground arith
version-forget key j (some m) = lookup-delete key j m

module _ {W V D R : Type 0} (env : Env W V D R) where
  calls-prune_one :
      (keys : Map Bool) (item : Object V) (s : State W V)
      → (prune_one env keys item s).1.calls
        ≡ s.calls ++ map deleted (if is_stale keys item then item ∷ [] else [])
  unfolding prune_one
  calls-prune_one keys item s = ground (arith, append-nil s.calls)

  pub calls-prune_stale_resources :
      (keys : Map Bool) (items : List (Object V)) (s : State W V)
      → (prune_stale_resources env keys items s).1.calls
        ≡ s.calls ++ map deleted (keep (is_stale keys) items)
  unfolding prune_stale_resources
  calls-prune_stale_resources keys [] s = sym (append-nil s.calls)
  calls-prune_stale_resources keys (item ∷ items) s =
      let s' = (prune_one env keys item s).1 in
      ground (
        arith,
        calls-prune_stale_resources keys items s',
        calls-prune_one keys item s,
        append_assoc s.calls (deleted item ∷ []) (map deleted (keep (is_stale keys) items)),
        append-nil s.calls,
      )

  -- The entry of the deleted child goes, unless there is an error, and no other changes.
  version-prune_one :
      (keys : Map Bool) (item : Object V) (j : Text) (s : State W V)
      → let r = prune_one env keys item s in
        ((is_stale keys item && text_eq (get_object_key item) j ≡ false)
          → version_of j r.1 ≡ version_of j s)
        × ((is_stale keys item ≡ true) → r.0 ≡ [] → version_of (get_object_key item) r.1 ≡ none)
  unfolding prune_one after_delete
  version-prune_one keys item j s =
      let key = get_object_key item in
      let versions = s.cr.status.resource_versions in
      (
        ground (arith, version-forget key j versions),
        ground (arith, version-forget key key versions, text_eq_iff key key),
      )

  -- A key of the pass belongs to no stale child.
  is_stale-of_key :
      (keys : Map Bool) (item : Object V) (j : Text) {b : Bool}
      → lookup j keys ≡ some b
      → (is_stale keys item && text_eq (get_object_key item) j) ≡ false
  unfolding is_stale
  is_stale-of_key keys item j h = ground (arith, text_eq_iff (get_object_key item) j)

  -- The resource version recorded for a key of the pass outlives the pruning.
  pub version-prune_of_key :
      (keys : Map Bool) (items : List (Object V)) (j : Text) (s : State W V) {b : Bool}
      → lookup j keys ≡ some b
      → version_of j (prune_stale_resources env keys items s).1 ≡ version_of j s
  unfolding prune_stale_resources
  version-prune_of_key keys [] j s h = refl
  version-prune_of_key keys (item ∷ items) j s h =
      version-prune_of_key keys items j (prune_one env keys item s).1 h
      ∙ (version-prune_one keys item j s).0 (is_stale-of_key keys item j h)

  version-prune_one-none :
      (keys : Map Bool) (item : Object V) (j : Text) (s : State W V)
      → version_of j s ≡ none
      → version_of j (prune_one env keys item s).1 ≡ none
  unfolding prune_one after_delete
  version-prune_one-none keys item j s h =
      ground (arith, version-forget (get_object_key item) j s.cr.status.resource_versions)

  version-prune_none :
      (keys : Map Bool) (items : List (Object V)) (j : Text) (s : State W V)
      → version_of j s ≡ none
      → version_of j (prune_stale_resources env keys items s).1 ≡ none
  unfolding prune_stale_resources
  version-prune_none keys [] j s h = h
  version-prune_none keys (item ∷ items) j s h =
      version-prune_none keys items j _ (version-prune_one-none keys item j s h)

  append-eq-nil : (xs ys : List Text) → xs ++ ys ≡ [] → (xs ≡ []) × (ys ≡ [])
  append-eq-nil [] ys h = (refl, h)
  append-eq-nil (x ∷ xs) ys h = cc

  prune_one-forgets :
      (keys : Map Bool) (item : Object V) (items : List (Object V)) (s : State W V)
      → is_stale keys item ≡ true
      → (prune_one env keys item s).0 ≡ []
      → version_of
          (get_object_key item)
          (prune_stale_resources env keys items (prune_one env keys item s).1).1
        ≡ none
  prune_one-forgets keys item items s stale h =
      version-prune_none keys items _ _ ((version-prune_one keys item [] s).1 stale h)

  All-keep-cons :
      (P : Object V → Type 0) (keys : Map Bool) (item : Object V) (items : List (Object V))
      → (is_stale keys item ≡ true → P item)
      → All P (keep (is_stale keys) items)
      → All P (keep (is_stale keys) (item ∷ items))
  All-keep-cons P keys item items h rest = go (is_stale keys item) h
    where
      go :
          (b : Bool)
          → (b ≡ true → P item)
          → All P (if b then item ∷ keep (is_stale keys) items else keep (is_stale keys) items)
      go true h = (h refl, rest)
      go false h = rest

  -- A pruning without errors leaves no resource version behind for any stale child.
  pub prune_forgets :
      (keys : Map Bool) (items : List (Object V)) (s : State W V)
      → (prune_stale_resources env keys items s).0 ≡ []
      → All
          (λ item.
            version_of (get_object_key item) (prune_stale_resources env keys items s).1 ≡ none)
          (keep (is_stale keys) items)
  unfolding prune_stale_resources
  prune_forgets keys [] s h = tt
  prune_forgets keys (item ∷ items) s h =
      let (r, s') = prune_one env keys item s in
      let e = append-eq-nil r (prune_stale_resources env keys items s').0 h in
      All-keep-cons
        (λ x. version_of (get_object_key x) (prune_stale_resources env keys items s').1 ≡ none) keys
        item items (λ stale. prune_one-forgets keys item items s stale e.0)
        (prune_forgets keys items s' e.1)
