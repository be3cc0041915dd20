-- ===== src/Postgres/Quotes.antt =====
-- `splitStatements` inside quotes.
use db_query_operator.Prelude.{
  ℕ, true, false, List, [], ◌∷◌, ◌++◌, ◌==◌, ◌≡◌, refl, sym, ap, ◌∙◌, append_assoc, append-nil,
  arith,
}
use db_query_operator.Prelude.Text.{Text, contains, split, prefix_first}
use db_query_operator.Prelude.Lists.{all}
use db_query_operator.Postgres.Plain.{is_plain, trimmed, outside, advance-other, scan-plain}
use db_query_operator.Postgres.{
  Splitter, start, plain_rune, write_rune, round, advance, scan, last_statement, split_statements,
}

-- The state inside single quotes.
abbrev in_literal : List Text → Text → Splitter
in_literal statements current = record start {
  statements = statements;
  current = current;
  in_single_quote = true;
}

advance-literal :
    (c : ℕ) (rest : Text) (statements : List Text) (current : Text)
    → (c == b'\'') ≡ false
    → advance 0 c rest (in_literal statements current) ≡ in_literal statements (current ++ c ∷ [])
unfolding advance round plain_rune write_rune
advance-literal c rest statements current e = ground arith

advance-close :
    (rest : Text) (statements : List Text) (current : Text)
    → advance 0 b'\'' rest (in_literal statements current)
      ≡ outside statements (current ++ b'\'' ∷ [])
unfolding advance round plain_rune write_rune
advance-close rest statements current = refl

advance-open :
    (rest : Text) (statements : List Text) (current : Text)
    → advance 0 b'\'' rest (outside statements current)
      ≡ in_literal statements (current ++ b'\'' ∷ [])
unfolding advance round plain_rune write_rune
advance-open rest statements current = refl

scan-in_literal :
    (p t : Text) (statements : List Text) (current : Text)
    → contains b'\'' p ≡ false
    → scan (p ++ b'\'' ∷ t) (in_literal statements current)
      ≡ scan t (outside statements (current ++ (p ++ b'\'' ∷ [])))
unfolding scan contains
scan-in_literal [] t statements current h = ap (scan t) (advance-close t statements current)
scan-in_literal (c ∷ p) t statements current h =
    ap (scan (p ++ b'\'' ∷ t))
      (advance-literal c (p ++ b'\'' ∷ t) statements current (ground arith))
    ∙ scan-in_literal p t statements (current ++ c ∷ []) (ground arith)
    ∙ ap (λ q. scan t (outside statements q)) (append_assoc current (c ∷ []) (p ++ b'\'' ∷ []))

-- A single-quoted literal.
abbrev pub literal : Text → Text
literal p = b'\'' ∷ (p ++ b'\'' ∷ [])

scan-literal :
    (p t : Text) (statements : List Text) (current : Text)
    → contains b'\'' p ≡ false
    → scan (literal p ++ t) (outside statements current)
      ≡ scan t (outside statements (current ++ literal p))
unfolding scan
scan-literal p t statements current h =
    ap (λ q. scan (b'\'' ∷ q) (outside statements current)) (append_assoc p (b'\'' ∷ []) t)
    ∙ ap (scan (p ++ b'\'' ∷ t)) (advance-open (p ++ b'\'' ∷ t) statements current)
    ∙ scan-in_literal p t statements (current ++ b'\'' ∷ []) h
    ∙ ap (λ q. scan t (outside statements q)) (append_assoc current (b'\'' ∷ []) (p ++ b'\'' ∷ []))

scan_front :
    (a t : Text) (statements : List Text) (current : Text)
    → all is_plain a ≡ true
    → contains b';' a ≡ false
    → scan (a ++ t) (outside statements current) ≡ scan t (outside statements (current ++ a))
unfolding scan contains
scan_front [] t statements current h n =
    ap (λ q. scan t (outside statements q)) (sym (append-nil current))
scan_front (c ∷ a) t statements current h n =
    ap (scan (a ++ t)) (advance-other c (a ++ t) statements current (ground arith) (ground arith))
    ∙ scan_front a t statements (current ++ c ∷ []) (ground arith) (ground arith)
    ∙ ap (λ q. scan t (outside statements q)) (append_assoc current (c ∷ []) a)

-- A semicolon inside a single-quoted literal ends no statement: with plain text in front that has
-- no semicolon, and plain text behind, the first statement runs through the whole literal to the
-- first semicolon behind it.
pub split_statements-literal :
    (a p b : Text)
    → all is_plain a ≡ true
    → contains b';' a ≡ false
    → contains b'\'' p ≡ false
    → all is_plain b ≡ true
    → split_statements (a ++ (literal p ++ b))
      ≡ trimmed (prefix_first (a ++ literal p) (split b';' b))
unfolding split_statements
split_statements-literal a p b ha na hp hb =
    ap last_statement (scan_front a (literal p ++ b) [] [] ha na ∙ scan-literal p b [] a hp)
    ∙ scan-plain b [] (a ++ literal p) hb
