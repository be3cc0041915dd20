-- ===== src/Identifier.antt =====
-- internal/controller/databasequeryresource_controller.go: `sanitizePGIdentifier`, which validates
-- and quotes the table and column names of the change detection query.
pub mod Quoting
use db_query_operator.Prelude.{
  Bool, true, false, not, ◌&&◌, ◌||◌, List, [], ◌∷◌, ◌++◌, ◌==◌, leb, if◌then◌else◌, ℕ,
}
use db_query_operator.Prelude.Lists.{all}
use db_query_operator.Prelude.Text.{
  Text, codes, contains, split, join, empty_text, starts_by, ends_by,
}
use db_query_operator.Cluster.{Reply, ok, err}

pub data IdentifierError : Type 0 where
  empty_identifier empty_part empty_quoted_part null_bytes : IdentifierError
  invalid_part : Text → IdentifierError

is_letter : ℕ → Bool
is_letter c = leb b'a' c && leb c b'z' || leb b'A' c && leb c b'Z' || c == b'_'

is_tail : ℕ → Bool
unfolding is_letter
is_tail c = is_letter c || leb b'0' c && leb c b'9' || c == b'$'

-- `validPGUnquotedID`: ^[a-zA-Z_][a-zA-Z0-9_$]*$
unfoldable pub valid_pg_unquoted_id : Text → Bool
unfolding is_tail
valid_pg_unquoted_id [] = false
valid_pg_unquoted_id (c ∷ t) = is_letter c && all is_tail t

-- `strings.ReplaceAll(part, "\"", "\"\"")`
unfoldable pub double_quotes : Text → Text
double_quotes [] = []
double_quotes (c ∷ t) = if c == b'"' then c ∷ c ∷ double_quotes t else c ∷ double_quotes t

unfoldable pub quote_pg_identifier : Text → Reply IdentifierError Text
unfolding double_quotes contains
quote_pg_identifier part =
    if empty_text part
    then err empty_part
    else if contains 0 part
    then err null_bytes
    else ok (b'"' ∷ (double_quotes part ++ b'"' ∷ []))

-- The text without its last code point.
abbrev pub without_last : Text → Text
without_last [] = []
without_last (c ∷ []) = []
without_last (c ∷ d ∷ t) = c ∷ without_last (d ∷ t)

-- `strings.HasPrefix(part, "\"") && strings.HasSuffix(part, "\"") && len(part) >= 2`, and the
-- text between the quotes.
abbrev pub is_quoted : Text → Bool
is_quoted [] = false
is_quoted (c ∷ []) = false
is_quoted (c ∷ d ∷ t) = c == b'"' && ends_by b'"' (d ∷ t)

abbrev pub inner : Text → Text
inner [] = []
inner (c ∷ t) = without_last t

-- One round of the loop over the parts.
unfoldable pub sanitize_part : Text → Reply IdentifierError Text
unfolding contains
sanitize_part part =
    if empty_text part
    then err empty_part
    else if is_quoted part
    then if empty_text (inner part)
      then err empty_quoted_part
      else if contains 0 (inner part)
      then err null_bytes
      else ok part
    else if not (valid_pg_unquoted_id part)
    then err (invalid_part part)
    else quote_pg_identifier part

prepend :
    Reply IdentifierError Text
    → Reply IdentifierError (List Text)
    → Reply IdentifierError (List Text)
prepend (err e) rest = err e
prepend (ok p) (err e) = err e
prepend (ok p) (ok ps) = ok (p ∷ ps)

unfoldable pub sanitize_parts : List Text → Reply IdentifierError (List Text)
unfolding prepend
sanitize_parts [] = ok []
sanitize_parts (p ∷ ps) = prepend (sanitize_part p) (sanitize_parts ps)

joined : Reply IdentifierError (List Text) → Reply IdentifierError Text
joined (ok ps) = ok (join (codes ".") ps)
joined (err e) = err e

unfoldable pub sanitize_pg_identifier : Text → Reply IdentifierError Text
unfolding joined
sanitize_pg_identifier identifier =
    if empty_text identifier
    then err empty_identifier
    else joined (sanitize_parts (split b'.' identifier))
