-- ===== src/Postgres.antt =====
-- internal/util/postgres_client.go: `splitStatements` and `redactPassword`, and in Client the
-- connections and the queries of the client.
pub mod Plain
pub mod Quotes
pub mod Redaction
pub mod Client
use db_query_operator.Prelude.{
  ℕ, zero, suc, ◌+◌, Bool, true, false, not, ◌&&◌, Option, none, some, List, [], ◌∷◌, ◌++◌, ◌==◌,
  ltb, if◌then◌else◌,
}
use db_query_operator.Prelude.Lists.{length, take, drop}
use db_query_operator.Prelude.Text.{Text, codes, text_eq, empty_text, trim_space, index, last_index}

-- The variables of the loop of `splitStatements`. `skip` is the number of runes that an assignment
-- `i = tagEnd` still passes over.
pub record Splitter : Type 0 where
  pub statements : List Text
  pub current : Text
  pub in_single_quote : Bool
  pub in_double_quote : Bool
  pub in_dollar_quote : Bool
  pub dollar_tag : Text
  pub skip : ℕ

abbrev pub start : Splitter
start = record {
  statements = [];
  current = [];
  in_single_quote = false;
  in_double_quote = false;
  in_dollar_quote = false;
  dollar_tag = [];
  skip = 0;
}

-- The runes up to the next dollar and with it, where there is one.
unfoldable pub to_dollar : Text → Option Text
to_dollar [] = none
to_dollar (c ∷ t) = elim (c == b'$') [
  | true ↦ some (c ∷ [])
  | false ↦ elim (to_dollar t) [ none ↦ none | some p ↦ some (c ∷ p) ]
]

unfoldable pub write_rune : ℕ → Splitter → Splitter
write_rune ch s = record s { current = s.current ++ ch ∷ [] }

-- A statement that is not blank goes on the list.
unfoldable pub add_statement : Text → List Text → List Text
add_statement current statements =
    let stmt = trim_space current in if empty_text stmt then statements else statements ++ stmt ∷ []

unfoldable pub flush : Splitter → Splitter
flush s = record s { statements = add_statement s.current s.statements; current = [] }

-- The tests on quotes and semicolons.
unfoldable pub plain_rune : ℕ → Splitter → Splitter
plain_rune ch s =
    if ch == b'\'' && (not s.in_double_quote && not s.in_dollar_quote)
    then write_rune ch (record s { in_single_quote = not s.in_single_quote })
    else if ch == b'"' && (not s.in_single_quote && not s.in_dollar_quote)
    then write_rune ch (record s { in_double_quote = not s.in_double_quote })
    else if ch == b';'
        && (not s.in_single_quote && (not s.in_double_quote && not s.in_dollar_quote))
    then flush s
    else write_rune ch s

-- A dollar outside of other quotes, with the runes from it to the next dollar.
unfoldable pub dollar_rune : Text → Splitter → Splitter
dollar_rune current_tag s =
    if not s.in_dollar_quote
    then record s {
      in_dollar_quote = true;
      dollar_tag = current_tag;
      current = s.current ++ current_tag;
      skip = length (drop 1 current_tag);
    }
    else if text_eq current_tag s.dollar_tag
    then record s {
      in_dollar_quote = false;
      current = s.current ++ current_tag;
      dollar_tag = [];
      skip = length (drop 1 current_tag);
    }
    else plain_rune b'$' s

-- One round of the loop, at a rune and those behind it.
unfoldable pub round : ℕ → Text → Splitter → Splitter
round ch rest s =
    if ch == b'$' && (not s.in_single_quote && not s.in_double_quote)
    then elim (to_dollar rest) [ some p ↦ dollar_rune (ch ∷ p) s | none ↦ plain_rune ch s ]
    else plain_rune ch s

-- One round, or one rune less to pass over.
unfoldable pub advance : ℕ → ℕ → Text → Splitter → Splitter
advance (suc n) ch rest s = record s { skip = n }
advance zero ch rest s = round ch rest s

unfoldable pub scan : Text → Splitter → Splitter
scan [] s = s
scan (ch ∷ rest) s = scan rest (advance s.skip ch rest s)

-- What follows the loop.
unfoldable pub last_statement : Splitter → List Text
last_statement s = add_statement s.current s.statements

unfoldable pub split_statements : Text → List Text
split_statements query = last_statement (scan query start)

-- `connString[:colonIdx+1] + "***" + connString[atIdx:]`, once both indexes are known.
unfoldable pub redact_at : Text → (at colon : ℕ) → Option ℕ → Text
redact_at conn at colon none = conn
redact_at conn at colon (some scheme) =
    if ltb colon (scheme + 3) then conn else take (suc colon) conn ++ (codes "***" ++ drop at conn)

unfoldable pub redact_before : Text → ℕ → Option ℕ → Text
redact_before conn at none = conn
redact_before conn at (some colon) = redact_at conn at colon (index conn (codes "://"))

unfoldable pub redact_from : Text → Option ℕ → Text
redact_from conn none = conn
redact_from conn (some at) = redact_before conn at (last_index (take at conn) b':')

unfoldable pub redact_password : Text → Text
redact_password conn = redact_from conn (last_index conn b'@')
