-- ===== src/Samples/Json.antt =====
-- A codec that writes the annotations of a configuration and nothing else, each text shifted by
-- one and closed by a zero. It meets the laws that the theorems ask of `encoding/json`.
use db_query_operator.Prelude.{
  ℕ, zero, suc, Bool, true, false, ◌&&◌, ◌≡◌, refl, ap, none, some, List, [], ◌∷◌, ◌++◌, arith, map,
}
use db_query_operator.Prelude.Text.{
  Text, text_eq, text_eq_iff, text_eq_refl, contains, split, split-append,
}
use db_query_operator.Prelude.Maps.{Map, lookup}
use db_query_operator.Cluster.{ok, Codec, ManagedResourceConfig}
use db_query_operator.Applied.{entries}
use db_query_operator.Applied.Converges.{IsJson, ShowsAnnotations}

abbrev pub unshift : ℕ → ℕ
unshift zero = zero
unshift (suc n) = n

abbrev pub write_map : Map Text → Text
write_map [] = []
write_map ((k, v) ∷ m) = map suc k ++ 0 ∷ (map suc v ++ 0 ∷ write_map m)

abbrev pub pairs : List Text → Map Text
pairs [] = []
pairs (k ∷ []) = []
pairs (k ∷ v ∷ r) = (map unshift k, map unshift v) ∷ pairs r

abbrev pub read_map : Text → Map Text
unfolding split
read_map t = pairs (split 0 t)

contains-map-suc : (t : Text) → contains 0 (map suc t) ≡ false
unfolding contains
contains-map-suc [] = refl
contains-map-suc (c ∷ t) = ground (arith, contains-map-suc t)

map-unshift-suc : (t : Text) → map unshift (map suc t) ≡ t
map-unshift-suc [] = refl
map-unshift-suc (c ∷ t) = ap (◌∷◌ c) (map-unshift-suc t)

split-nil : split 0 [] ≡ [] ∷ []
unfolding split
split-nil = refl

pub pairs-write_map : (m : Map Text) → pairs (split 0 (write_map m)) ≡ m
pairs-write_map [] = rw split-nil
pairs-write_map ((k, v) ∷ m) =
    rw (split-append 0 (map suc k) (map suc v ++ 0 ∷ write_map m) (contains-map-suc k)) (
      rw (split-append 0 (map suc v) (write_map m) (contains-map-suc v))
        (rw (map-unshift-suc k, map-unshift-suc v) (ap (◌∷◌ (k, v)) (pairs-write_map m))))

abbrev pub map_eq : Map Text → Map Text → Bool
map_eq [] [] = true
map_eq [] (q ∷ m) = false
map_eq (p ∷ l) [] = false
map_eq ((j, v) ∷ l) ((k, w) ∷ m) = text_eq j k && (text_eq v w && map_eq l m)

pub map_eq_refl : (m : Map Text) → map_eq m m ≡ true
map_eq_refl [] = refl
map_eq_refl ((k, v) ∷ m) = ground (arith, text_eq_refl k, text_eq_refl v, map_eq_refl m)

pub map_eq_sound : (l m : Map Text) → map_eq l m ≡ true → l ≡ m
map_eq_sound [] [] h = refl
map_eq_sound [] (q ∷ m) h = cc
map_eq_sound (p ∷ l) [] h = cc
map_eq_sound ((j, v) ∷ l) ((k, w) ∷ m) h =
    ground (arith, text_eq_iff j k, text_eq_iff v w, map_eq_sound l m)

abbrev pub read_config : Text → ManagedResourceConfig (Map Text)
read_config t = record {
  spec = [];
  body = [];
  labels = none;
  annotations = some (pairs (split 0 t));
}

abbrev pub codec : Codec (Map Text)
codec = record {
  nil = [];
  is_nil = λ v. map_eq v [];
  marshal_config = λ c. some (write_map (entries c.annotations));
  marshal_error = λ c. [];
  unmarshal_config = λ t. ok (read_config t);
  unmarshal_value = λ t. some (pairs (split 0 t));
  config_deep_equal = λ c d. map_eq (entries c.annotations) (entries d.annotations);
  value_deep_equal = map_eq;
}

pub codec-IsJson : IsJson codec
codec-IsJson = record {
  decodes = λ c t m. (
    read_config t,
    write_map (pairs (split 0 t)),
    pairs (split 0 t),
    refl,
    refl,
    ap some (pairs-write_map (pairs (split 0 t))),
    refl,
  );
  reflexive = λ t v u. map_eq_refl v;
}

pub codec_shows : ShowsAnnotations codec
codec_shows = record {
  annotation = λ v k. lookup k v;
  shown = λ c t v k m u. written c t v k m u;
  sound = map_eq_sound;
}
  where
    written :
        (c : ManagedResourceConfig (Map Text)) (t : Text) (v : Map Text) (k : Text)
        → codec.marshal_config c ≡ some t
        → codec.unmarshal_value t ≡ some v
        → lookup k v ≡ lookup k (entries c.annotations)
    written c t v k m u = cc (m, u, pairs-write_map (entries c.annotations))
