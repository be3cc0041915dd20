-- ===== src/Children/Keys.antt =====
-- `getObjectKey` and its two readers.
use db_query_operator.Prelude.{false, ◌≡◌, ap, ◌∙◌, some, List, [], ◌∷◌, arith}
use db_query_operator.Prelude.Text.{
  Text, contains, split, join, empty_text, split_none, split-append, join-split,
}
use db_query_operator.Cluster.{Object, ResourceId}
use db_query_operator.Children.{
  print_id, object_id, get_object_key, exact_id, collect_id, status_id,
}

-- No part of the id holds a slash.
pub record IsSlashFree (r : ResourceId) : Type 0 where
  pub group : contains b'/' r.group ≡ false
  pub version : contains b'/' r.version ≡ false
  pub kind : contains b'/' r.kind ≡ false
  pub namespace : contains b'/' r.namespace ≡ false
  pub name : contains b'/' r.name ≡ false

split-print_id :
    (r : ResourceId)
    → IsSlashFree r
    → split b'/' (print_id r) ≡ r.group ∷ r.version ∷ r.kind ∷ r.namespace ∷ r.name ∷ []
unfolding join
split-print_id r h =
    split-append _ _ _ h.group
    ∙ ap (◌∷◌ r.group) (
        split-append _ _ _ h.version
        ∙ ap (◌∷◌ r.version) (
            split-append _ _ _ h.kind
            ∙ ap (◌∷◌ r.kind)
                (split-append _ _ _ h.namespace ∙ ap (◌∷◌ r.namespace) (split_none _ _ h.name))))

-- The key of an object without slashes, whose kind and name are not empty, is read back as the
-- object's identity by the collection for pruning.
pub collect_id-get_object_key :
    {V : Type 0} (o : Object V)
    → IsSlashFree (object_id o)
    → empty_text o.kind ≡ false
    → empty_text o.name ≡ false
    → collect_id (get_object_key o) ≡ some (object_id o)
unfolding collect_id get_object_key
collect_id-get_object_key o h k n = rw (split-print_id (object_id o) h) (rw (k, n))

pub status_id-get_object_key :
    {V : Type 0} (o : Object V)
    → IsSlashFree (object_id o)
    → status_id (get_object_key o) ≡ some (object_id o)
unfolding status_id get_object_key
status_id-get_object_key o h = rw (split-print_id (object_id o) h)

-- Two objects without slashes have the same key only if they have the same identity.
pub get_object_key-injective :
    {V : Type 0} (a b : Object V)
    → IsSlashFree (object_id a)
    → IsSlashFree (object_id b)
    → get_object_key a ≡ get_object_key b
    → object_id a ≡ object_id b
get_object_key-injective a b ha hb e =
    cc (status_id-get_object_key a ha, status_id-get_object_key b hb, ap status_id e)

exact_id-join :
    (parts : List Text) {r : ResourceId}
    → exact_id parts ≡ some r
    → print_id r ≡ join (b'/' ∷ []) parts
unfolding exact_id join
exact_id-join (g ∷ v ∷ k ∷ ns ∷ n ∷ []) e = ground arith
exact_id-join _ e = cc

-- A key that is read as an id is that id's key.
pub collect_id-print : (key : Text) {r : ResourceId} → collect_id key ≡ some r → print_id r ≡ key
unfolding collect_id
collect_id-print key h = exact_id-join (split b'/' key) h ∙ join-split b'/' key
