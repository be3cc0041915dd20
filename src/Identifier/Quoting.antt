-- ===== src/Identifier/Quoting.antt =====
-- Which identifiers `sanitizePGIdentifier` accepts, and whether what it returns is one quoted name
-- for each part.
use db_query_operator.Prelude.{
  Bool, not, true, false, ◌≡◌, ◌≢◌, refl, ap, List, [], ◌∷◌, ◌++◌, arith, inl, inr, Bool-cases, map,
  append_assoc, ◌==◌, ◌&&◌, if◌then◌else◌, ℕ,
}
use db_query_operator.Prelude.Lists.{all}
use db_query_operator.Prelude.Text.{
  Text, codes, contains, split, split_none, all-split, join, empty_text, ends_by,
}
use db_query_operator.Cluster.{Reply, ok, err}
use db_query_operator.Identifier.{
  IdentifierError, is_letter, is_tail, valid_pg_unquoted_id, double_quotes, quote_pg_identifier,
  without_last, is_quoted, empty_identifier, empty_part, invalid_part, sanitize_part, prepend,
  sanitize_parts, joined, sanitize_pg_identifier,
}

-- How PostgreSQL reads a quoted name from behind its opening quote: a doubled quote stands for one,
-- a single one closes the name. True where the name is closed exactly at the end.
pub closes : Text → Bool
closes [] = false
closes (c ∷ []) = c == b'"'
closes (c ∷ d ∷ t) = if c == b'"' then d == b'"' && closes t else closes (d ∷ t)

-- The text is one quoted name.
abbrev pub is_one_name : Text → Bool
is_one_name [] = false
is_one_name (c ∷ t) = c == b'"' && closes t

closes-double_quotes : (t : Text) → closes (double_quotes t ++ b'"' ∷ []) ≡ true
unfolding closes double_quotes
closes-double_quotes [] = refl
closes-double_quotes (c ∷ []) = ground arith
closes-double_quotes (c ∷ d ∷ t) = ground (arith, closes-double_quotes (d ∷ t))

abbrev pub quoted : Text → Text
quoted p = b'"' ∷ (p ++ b'"' ∷ [])

double_quotes-is_tail : (t : Text) → all is_tail t ≡ true → double_quotes t ≡ t
unfolding double_quotes is_tail
double_quotes-is_tail [] h = refl
double_quotes-is_tail (c ∷ t) h = ground (arith, double_quotes-is_tail t)

contains-is_tail : (t : Text) → all is_tail t ≡ true → contains 0 t ≡ false
unfolding contains is_tail
contains-is_tail [] h = refl
contains-is_tail (c ∷ t) h = ground (arith, contains-is_tail t)

sanitize_part_valid : (p : Text) → valid_pg_unquoted_id p ≡ true → sanitize_part p ≡ ok (quoted p)
unfolding valid_pg_unquoted_id sanitize_part quote_pg_identifier is_letter
sanitize_part_valid [] h = cc
sanitize_part_valid (c ∷ []) h = ground arith
sanitize_part_valid (c ∷ d ∷ t) h =
    ground (arith, double_quotes-is_tail (d ∷ t), contains-is_tail (d ∷ t))

-- An error, whatever it is.
abbrev pub Fails {ℓ κ} : {E : Type ℓ} {A : Type κ} → Reply E A → Type (ℓ ⊔ κ)
Fails {E} r = (e : E) × (r ≡ err e)

sanitize_part_invalid :
    (p : Text) → valid_pg_unquoted_id p ≡ false → is_quoted p ≡ false → Fails (sanitize_part p)
unfolding sanitize_part
sanitize_part_invalid p v q = elim (Bool-cases (empty_text p)) [
  | inl e ↦ (empty_part, rw e)
  | inr e ↦ (invalid_part p, rw (e, q, v))
]

-- A part without quotes in it is sanitized exactly if it is a plain name.
Sanitizes : List Text → Type 0
Sanitizes ps =
    (all valid_pg_unquoted_id ps ≡ true → sanitize_parts ps ≡ ok (map quoted ps))
    × (all valid_pg_unquoted_id ps ≡ false → Fails (sanitize_parts ps))

no_quotes : Text → Bool
no_quotes p = not (contains b'"' p)

is_quoted-no_quotes : (p : Text) → no_quotes p ≡ true → is_quoted p ≡ false
unfolding no_quotes contains
is_quoted-no_quotes [] h = refl
is_quoted-no_quotes (c ∷ []) h = refl
is_quoted-no_quotes (c ∷ d ∷ t) h = ground arith

prepend-Fails :
    (r : Reply IdentifierError Text) (s : Reply IdentifierError (List Text))
    → Fails s
    → Fails (prepend r s)
unfolding prepend
prepend-Fails (err e) s h = (e, refl)
prepend-Fails (ok p) s (e, h) = (e, rw h)

sanitize_parts-plain : (ps : List Text) → all no_quotes ps ≡ true → Sanitizes ps
unfolding Sanitizes sanitize_parts prepend
sanitize_parts-plain [] h = (λ _. refl, λ x. cc)
sanitize_parts-plain (p ∷ ps) h = elim (Bool-cases (valid_pg_unquoted_id p)) [
  | inl v ↦
      let ih = sanitize_parts-plain ps (ground arith) in
      (
        λ a. rw (sanitize_part_valid p v, ih.0 (ground arith)),
        λ a. prepend-Fails (sanitize_part p) (sanitize_parts ps) (ih.1 (ground arith)),
      )
  | inr v ↦
      let (e, f) = sanitize_part_invalid p v (is_quoted-no_quotes p (ground arith)) in
      (λ a. absurd (ground arith), λ a. (e, rw f))
]

Sanitizes-parts : (id : Text) → contains b'"' id ≡ false → Sanitizes (split b'.' id)
unfolding no_quotes
Sanitizes-parts id h = sanitize_parts-plain (split b'.' id) (all-split b'"' b'.' id h)

-- An identifier with no double quote in it whose parts between the dots are all plain names is
-- accepted: the result is the parts, each in double quotes.
pub sanitize_pg_identifier_accepts :
    (id : Text)
    → contains b'"' id ≡ false
    → all valid_pg_unquoted_id (split b'.' id) ≡ true
    → sanitize_pg_identifier id ≡ ok (join (codes ".") (map quoted (split b'.' id)))
unfolding sanitize_pg_identifier joined split valid_pg_unquoted_id Sanitizes
sanitize_pg_identifier_accepts [] h v = cc
sanitize_pg_identifier_accepts (c ∷ t) h v = rw ((Sanitizes-parts (c ∷ t) h).0 v)

-- Any other identifier with no double quote in it is refused.
pub sanitize_pg_identifier_rejects :
    (id : Text)
    → contains b'"' id ≡ false
    → all valid_pg_unquoted_id (split b'.' id) ≡ false
    → (e : IdentifierError) × (sanitize_pg_identifier id ≡ err e)
unfolding sanitize_pg_identifier joined split valid_pg_unquoted_id Sanitizes
sanitize_pg_identifier_rejects [] h v = (empty_identifier, refl)
sanitize_pg_identifier_rejects (c ∷ t) h v =
    let (e, x) = (Sanitizes-parts (c ∷ t) h).1 v in (e, rw x)

ends_by-append : (c : ℕ) (xs : Text) → ends_by c (xs ++ c ∷ []) ≡ true
ends_by-append c [] = ground arith
ends_by-append c (x ∷ []) = ground arith
ends_by-append c (x ∷ y ∷ xs) = ends_by-append c (y ∷ xs)

without_last-append : (c : ℕ) (xs : Text) → without_last (xs ++ c ∷ []) ≡ xs
without_last-append c [] = refl
without_last-append c (x ∷ []) = refl
without_last-append c (x ∷ y ∷ xs) = ap (◌∷◌ x) (without_last-append c (y ∷ xs))

sanitize_part-quoted :
    (x : ℕ) (xs : Text)
    → contains 0 (x ∷ xs) ≡ false
    → sanitize_part (quoted (x ∷ xs)) ≡ ok (quoted (x ∷ xs))
unfolding sanitize_part
sanitize_part-quoted x xs h =
    rw (ends_by-append b'"' (x ∷ xs)) (rw (without_last-append b'"' (x ∷ xs)) (rw h))

closes_early :
    (name : Text) (c : ℕ) (rest : Text)
    → contains b'"' name ≡ false
    → c ≢ b'"'
    → closes (name ++ b'"' ∷ c ∷ rest) ≡ false
unfolding closes contains
closes_early [] c rest q ne = ground arith
closes_early (x ∷ []) c rest q ne = ground arith
closes_early (x ∷ y ∷ name) c rest q ne = ground (arith, closes_early (y ∷ name) c rest)

sanitize_quoted :
    (middle : Text)
    → empty_text middle ≡ false
    → contains b'.' (quoted middle) ≡ false
    → contains 0 middle ≡ false
    → sanitize_pg_identifier (quoted middle) ≡ ok (quoted middle)
unfolding sanitize_pg_identifier joined sanitize_parts prepend join
sanitize_quoted [] e d z = cc
sanitize_quoted (x ∷ xs) e d z =
    rw (split_none b'.' (quoted (x ∷ xs)) d) (rw (sanitize_part-quoted x xs z))

inner-ne-nil : (name rest : Text) → empty_text (name ++ b'"' ∷ rest) ≡ false
inner-ne-nil [] rest = refl
inner-ne-nil (x ∷ name) rest = refl

-- What stands between two double quotes, and holds no dot and no NUL, is let through as it is, so a
-- quote inside it closes the name: the rest of the identifier stands outside of it in the query.
pub sanitize_pg_identifier_lets_through :
    (name : Text) (c : ℕ) (rest : Text)
    → contains b'"' name ≡ false
    → c ≢ b'"'
    → let id = quoted (name ++ b'"' ∷ c ∷ rest) in
      contains b'.' id ≡ false
      → contains 0 (name ++ b'"' ∷ c ∷ rest) ≡ false
      → (sanitize_pg_identifier id ≡ ok id) × (is_one_name id ≡ false)
sanitize_pg_identifier_lets_through name c rest q ne d z = (
  sanitize_quoted (name ++ b'"' ∷ c ∷ rest) (inner-ne-nil name (c ∷ rest)) d z,
  rw (append_assoc name (b'"' ∷ c ∷ rest) (b'"' ∷ []))
      (closes_early name c (rest ++ b'"' ∷ []) q ne),
)
