-- ===== src/Postgres/Plain.antt =====
-- `splitStatements` on queries without quotes and dollars.
use db_query_operator.Prelude.{
  ℕ, Bool, true, false, not, ◌||◌, Bool-cases, inl, inr, List, [], ◌∷◌, ◌++◌, map, ◌==◌, ◌≡◌, refl,
  sym, ap, ◌∙◌, append-nil, append_assoc, arith,
}
use db_query_operator.Prelude.Lists.{all, keep}
use db_query_operator.Prelude.Text.{
  Text, empty_text, trim_space, split, split-ne-nil, prefix_first, prefix_first_nil,
  prefix_first-split_separator, prefix_first-split_other,
}
use db_query_operator.Postgres.{
  Splitter, start, add_statement, flush, write_rune, plain_rune, round, advance, scan,
  last_statement, split_statements,
}

-- Neither a quote nor a dollar.
abbrev pub is_plain : ℕ → Bool
is_plain c = not (c == b'\'' || (c == b'"' || c == b'$'))

-- The parts without the white space around them, less the empty ones.
abbrev pub trimmed : List Text → List Text
trimmed parts = keep (λ p. not (empty_text p)) (map trim_space parts)

-- The state outside of every quote.
abbrev pub outside : List Text → Text → Splitter
outside statements current = record start { statements = statements; current = current }

add_statement-trimmed :
    (current : Text) (statements parts : List Text)
    → add_statement current statements ++ trimmed parts ≡ statements ++ trimmed (current ∷ parts)
unfolding add_statement
add_statement-trimmed current statements parts =
    elim (Bool-cases (empty_text (trim_space current))) [
      | inl e ↦ rw e refl
      | inr e ↦ rw e (append_assoc statements (trim_space current ∷ []) (trimmed parts))
    ]

advance-separator :
    (c : ℕ) (rest : Text) (statements : List Text) (current : Text)
    → (c == b';') ≡ true
    → advance 0 c rest (outside statements current) ≡ outside (add_statement current statements) []
unfolding advance round plain_rune flush
advance-separator c rest statements current e = ground arith

-- Outside of quotes a plain rune that ends no statement goes on the current one.
pub advance-other :
    (c : ℕ) (rest : Text) (statements : List Text) (current : Text)
    → is_plain c ≡ true
    → (c == b';') ≡ false
    → advance 0 c rest (outside statements current) ≡ outside statements (current ++ c ∷ [])
unfolding advance round plain_rune write_rune
advance-other c rest statements current p e = ground arith

-- Outside of quotes, the plain rest of a query is cut at every semicolon.
pub scan-plain :
    (t : Text) (statements : List Text) (current : Text)
    → all is_plain t ≡ true
    → last_statement (scan t (outside statements current))
      ≡ statements ++ trimmed (prefix_first current (split b';' t))
unfolding scan last_statement split
scan-plain [] statements current h =
    sym (append-nil (add_statement current statements))
    ∙ add_statement-trimmed current statements []
    ∙ ap (λ q. statements ++ trimmed (q ∷ [])) (sym (append-nil current))
scan-plain (c ∷ t) statements current h = elim (Bool-cases (c == b';')) [
  | inl e ↦
      ap (λ s. last_statement (scan t s)) (advance-separator c t statements current e)
      ∙ scan-plain t (add_statement current statements) [] (ground arith)
      ∙ add_statement-trimmed current statements (prefix_first [] (split b';' t))
      ∙ ap (λ ps. statements ++ trimmed ps) (sym (prefix_first-split_separator b';' c current t e))
  | inr e ↦
      ap (λ s. last_statement (scan t s)) (advance-other c t statements current (ground arith) e)
      ∙ scan-plain t statements (current ++ c ∷ []) (ground arith)
      ∙ ap (λ ps. statements ++ trimmed ps) (sym (prefix_first-split_other b';' c current t e))
]

-- A query without quotes and dollars is cut at every semicolon: the statements are the parts that
-- are not blank, without the white space around them, in order.
pub split_statements-plain :
    (query : Text) → all is_plain query ≡ true → split_statements query ≡ trimmed (split b';' query)
unfolding split_statements
split_statements-plain query h =
    rw (prefix_first_nil (split b';' query) (split-ne-nil b';' query)) at (scan-plain query [] [] h)
