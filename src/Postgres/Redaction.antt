-- ===== src/Postgres/Redaction.antt =====
-- What `redactPassword` hides.
use db_query_operator.Prelude.{
  ℕ, suc, ◌+◌, false, none, some, [], ◌∷◌, ◌++◌, ◌≡◌, refl, sym, ap, ◌∙◌, append_assoc, ltb, arith,
}
use db_query_operator.Prelude.Lists.{length, take, drop}
use db_query_operator.Prelude.Text.{Text, codes, contains, index, has_prefix, last_index}
use db_query_operator.Postgres.{length, redact_at, redact_before, redact_from, redact_password}

last_index_absent : (c : ℕ) (t : Text) → contains c t ≡ false → last_index t c ≡ none
unfolding last_index contains
last_index_absent c [] h = refl
last_index_absent c (x ∷ t) h = rw (last_index_absent c t (ground arith)) (ground arith)

-- The last occurrence, with none behind it.
last_index-append :
    (c : ℕ) (p t : Text) → contains c t ≡ false → last_index (p ++ c ∷ t) c ≡ some (length p)
unfolding last_index
last_index-append c [] t h = rw (last_index_absent c t h) (ground arith)
last_index-append c (x ∷ p) t h = rw (last_index-append c p t h) refl

take-length : (p t : Text) → take (length p) (p ++ t) ≡ p
take-length [] t = refl
take-length (x ∷ p) t = ap (◌∷◌ x) (take-length p t)

drop-length : (p t : Text) → drop (length p) (p ++ t) ≡ t
drop-length [] t = refl
drop-length (x ∷ p) t = drop-length p t

take-suc-length : (p : Text) (x : ℕ) (t : Text) → take (suc (length p)) (p ++ x ∷ t) ≡ p ++ x ∷ []
take-suc-length [] x t = refl
take-suc-length (y ∷ p) x t = ap (◌∷◌ y) (take-suc-length p x t)

abbrev pub scheme : Text
scheme = codes "postgres://"

-- A connection string, by what stands in front of a colon, behind it, and behind an at sign.
abbrev pub connection_string : Text → Text → Text → Text
connection_string before secret behind = scheme ++ (before ++ b':' ∷ (secret ++ b'@' ∷ behind))

index-scheme : (t : Text) → index (scheme ++ t) (codes "://") ≡ some 8
unfolding index has_prefix
index-scheme t = refl

not_before_scheme : (before : Text) → ltb (length (scheme ++ before)) (8 + 3) ≡ false
not_before_scheme before = ground arith

-- What stays of a connection string that is cut behind the colon and in front of the at sign.
kept_parts :
    (a secret behind : Text)
    → take (suc (length a)) (a ++ b':' ∷ (secret ++ b'@' ∷ behind))
        ++ (codes "***"
            ++ drop (length (a ++ b':' ∷ secret)) (a ++ b':' ∷ (secret ++ b'@' ∷ behind)))
      ≡ a ++ b':' ∷ (codes "***" ++ b'@' ∷ behind)
kept_parts a secret behind =
    rw
      (
        take-suc-length a b':' (secret ++ b'@' ∷ behind),
        sym (append_assoc a (b':' ∷ secret) (b'@' ∷ behind)),
        drop-length (a ++ b':' ∷ secret) (b'@' ∷ behind),
      )
      (append_assoc a (b':' ∷ []) (codes "***" ++ b'@' ∷ behind))

redact_at-prefix :
    (before secret behind : Text)
    → redact_at
        (connection_string before secret behind)
        (length (scheme ++ (before ++ b':' ∷ secret)))
        (length (scheme ++ before))
        (some 8)
      ≡ connection_string before (codes "***") behind
unfolding redact_at
redact_at-prefix before secret behind =
    rw (not_before_scheme before) (kept_parts (scheme ++ before) secret behind)

-- What stands between the last colon in front of the last at sign and that sign is replaced by
-- three asterisks, and the rest of the connection string stays.
pub redact_password_lem :
    (before secret behind : Text)
    → contains b':' secret ≡ false
    → contains b'@' behind ≡ false
    → redact_password (connection_string before secret behind)
      ≡ connection_string before (codes "***") behind
unfolding redact_password redact_from redact_before
redact_password_lem before secret behind s b =
    let whole = scheme ++ (before ++ b':' ∷ secret) in
    let conn = connection_string before secret behind in
    let cut : conn ≡ whole ++ b'@' ∷ behind =
      ap (λ t. scheme ++ t) (sym (append_assoc before (b':' ∷ secret) (b'@' ∷ behind))) in
    let at = ap (λ t. last_index t b'@') cut ∙ last_index-append b'@' whole behind b in
    let taken = ap (take (length whole)) cut ∙ take-length whole (b'@' ∷ behind) in
    let colon =
      ap (λ t. last_index t b':') taken ∙ last_index-append b':' (scheme ++ before) secret s in
    rw (at, colon, index-scheme (before ++ b':' ∷ (secret ++ b'@' ∷ behind)))
      (redact_at-prefix before secret behind)

connection_string_shift :
    (user leaked secret behind : Text)
    → connection_string user (leaked ++ b':' ∷ secret) behind
      ≡ connection_string (user ++ b':' ∷ leaked) secret behind
connection_string_shift user leaked secret behind =
    ap (λ t. scheme ++ t)
      (ap (λ t. user ++ b':' ∷ t) (append_assoc leaked (b':' ∷ secret) (b'@' ∷ behind))
        ∙ sym (append_assoc user (b':' ∷ leaked) (b':' ∷ (secret ++ b'@' ∷ behind))))

-- Of a password that holds a colon, the part in front of the last colon is not hidden.
pub redact_password_leaks :
    (user leaked secret behind : Text)
    → contains b':' secret ≡ false
    → contains b'@' behind ≡ false
    → redact_password (connection_string user (leaked ++ b':' ∷ secret) behind)
      ≡ connection_string user (leaked ++ codes ":***") behind
redact_password_leaks user leaked secret behind s b =
    ap redact_password (connection_string_shift user leaked secret behind)
    ∙ redact_password_lem (user ++ b':' ∷ leaked) secret behind s b
    ∙ sym (connection_string_shift user leaked (codes "***") behind)
