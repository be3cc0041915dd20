-- ===== src/Reconcile/Managed/Sorted.antt =====
-- The managed resources of the status are sorted, and hold just the keys of the pass.
use db_query_operator.Prelude.{
  Bool, true, false, ◌||◌, ◌≡◌, refl, ap, ◌∙◌, Option, none, some, List, [], ◌∷◌, arith,
  if◌then◌else◌,
}
use db_query_operator.Prelude.Text.{Text, text_eq, text_le}
use db_query_operator.Prelude.Maps.{Map, lookup, lookup-keep_keys}
use db_query_operator.Api.{DatabaseQueryResourceStatus}
use db_query_operator.Children.Collect.{member}
use db_query_operator.Reconcile.Managed.{
  keys_of, insert_sorted, sort_strings, is_managed, keep_managed, record_managed,
}

-- Each text comes before the next one.
abbrev pub IsSorted : List Text → Type 0
IsSorted [] = Unit
IsSorted (k ∷ []) = Unit
IsSorted (k ∷ j ∷ ks) = (text_le k j ≡ true) × IsSorted (j ∷ ks)

text_le_total : (a b : Text) → text_le a b ≡ false → text_le b a ≡ true
unfolding text_le
text_le_total [] b h = cc
text_le_total (x ∷ a) [] h = refl
text_le_total (x ∷ a) (y ∷ b) h = ground (arith, text_le_total a b)

insert_sorted-IsSorted : (k : Text) (ks : List Text) → IsSorted ks → IsSorted (insert_sorted k ks)
unfolding insert_sorted
insert_sorted-IsSorted k [] h = tt
insert_sorted-IsSorted k (j ∷ []) h = ground (arith, text_le_total k j)
insert_sorted-IsSorted k (j ∷ i ∷ ks) h =
    ground (arith, text_le_total k j, insert_sorted-IsSorted k (i ∷ ks) h.1)

sort_strings-IsSorted : (ks : List Text) → IsSorted (sort_strings ks)
unfolding sort_strings
sort_strings-IsSorted [] = tt
sort_strings-IsSorted (k ∷ ks) =
    insert_sorted-IsSorted k (sort_strings ks) (sort_strings-IsSorted ks)

member-insert_sorted :
    (j k : Text) (ks : List Text) → member j (insert_sorted k ks) ≡ (text_eq k j || member j ks)
unfolding insert_sorted
member-insert_sorted j k [] = refl
member-insert_sorted j k (i ∷ ks) = ground (arith, member-insert_sorted j k ks)

-- Sorting keeps the members.
pub member-sort_strings : (j : Text) (ks : List Text) → member j (sort_strings ks) ≡ member j ks
unfolding sort_strings
member-sort_strings j [] = refl
member-sort_strings j (k ∷ ks) =
    member-insert_sorted j k (sort_strings ks) ∙ ap (◌||◌ (text_eq k j)) (member-sort_strings j ks)

-- The members of the list of keys are the keys of the map.
pub member-keys_of : (j : Text) (keys : Map Bool) → member j (keys_of keys) ≡ is_managed keys j
unfolding keys_of lookup
member-keys_of j [] = refl
member-keys_of j ((k, b) ∷ keys) = ground (arith, member-keys_of j keys)

pub lookup_version : Text → Option (Map Text) → Option Text
lookup_version k none = none
lookup_version k (some m) = lookup k m

module _ (keys : Map Bool) (st : DatabaseQueryResourceStatus) where
  version-keep_managed :
      (k : Text) (versions : Option (Map Text))
      → lookup_version k (keep_managed keys versions)
        ≡ (if is_managed keys k then lookup_version k versions else none)
  unfolding lookup_version keep_managed
  version-keep_managed k none = ground arith
  version-keep_managed k (some m) = lookup-keep_keys (is_managed keys) k m

  -- The managed resources recorded in the status are sorted and are just the keys of the pass, and
  -- the resource versions are as before for a managed key and gone for any other.
  pub record_managed_lem :
      let t = record_managed keys st in
      IsSorted t.managed_resources
      × ((k : Text) → member k t.managed_resources ≡ is_managed keys k)
      × ((k : Text)
          → lookup_version k t.resource_versions ≡ (
              if member k t.managed_resources then lookup_version k st.resource_versions else none))
  unfolding record_managed
  record_managed_lem =
      let same = λ (k : Text). member-sort_strings k (keys_of keys) ∙ member-keys_of k keys in
      (
        sort_strings-IsSorted (keys_of keys),
        same,
        λ k. version-keep_managed k st.resource_versions ∙ rw (← same k),
      )
