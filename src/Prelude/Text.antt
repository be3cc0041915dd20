-- ===== src/Prelude/Text.antt =====
-- Go strings, read as the lists of their code points, and the functions of the packages `strings`,
-- `sort` and `unicode` that the operator calls.
use Prim.Native.Nat.{ℕ, suc}
use Prim.Native.Char.{code}
use Prim.Native.String.{String}
use mathlib.Core.Path.{◌≡◌, refl, sym, ap, ◌∙◌}
use mathlib.Core.Logic.{◌↔◌, ◌≢◌, inl, inr}
use mathlib.Core.Bool.{Bool, true, false, not, ◌&&◌, ◌||◌}
use mathlib.Core.Option.{Option, none, some}
use mathlib.Core.List.{List, [], ◌∷◌, ◌++◌, append-nil, append_assoc}
use native.Mathlib.Omega.{arith}
use db_query_operator.Prelude.Lists.{all}
use db_query_operator.Prelude.Tests.{ltb, leb, ◌==◌, if◌then◌else◌, Bool-cases}

abbrev pub Text : Type 0
Text = List ℕ

-- The code points of a literal.
abbrev pub codes : String → Text
codes String.[] = []
codes (String.◌∷◌ c s) = code c ∷ codes s

unfoldable pub text_eq : Text → Text → Bool
text_eq [] [] = true
text_eq [] (y ∷ ys) = false
text_eq (x ∷ xs) [] = false
text_eq (x ∷ xs) (y ∷ ys) = x == y && text_eq xs ys

pub text_eq_iff : (a b : Text) → (text_eq a b ≡ true) ↔ (a ≡ b)
unfolding text_eq
text_eq_iff [] [] = ground arith
text_eq_iff [] (y ∷ b) = ground arith
text_eq_iff (x ∷ a) [] = ground arith
text_eq_iff (x ∷ a) (y ∷ b) = ground (arith, text_eq_iff a b)

pub text_eq_refl : (a : Text) → text_eq a a ≡ true
text_eq_refl a = (text_eq_iff a a).1 refl

-- Does the code point occur in the text?
unfoldable pub contains : ℕ → Text → Bool
contains c [] = false
contains c (x ∷ xs) = x == c || contains c xs

abbrev pub empty_text : Text → Bool
empty_text [] = true
empty_text (x ∷ xs) = false

push_front : ℕ → List Text → List Text
push_front x [] = (x ∷ []) ∷ []
push_front x (p ∷ ps) = (x ∷ p) ∷ ps

-- `strings.Split` by a separator of one code point.
unfoldable pub split : ℕ → Text → List Text
unfolding push_front
split c [] = [] ∷ []
split c (x ∷ xs) = let rest = split c xs in if x == c then [] ∷ rest else push_front x rest

-- `strings.Join`.
unfoldable pub join : Text → List Text → Text
join sep [] = []
join sep (p ∷ []) = p
join sep (p ∷ q ∷ r) = p ++ (sep ++ join sep (q ∷ r))

push_front-ne-nil : (x : ℕ) (ps : List Text) → push_front x ps ≢ []
unfolding push_front
push_front-ne-nil x [] e = cc
push_front-ne-nil x (p ∷ ps) e = cc

pub split-ne-nil : (c : ℕ) (t : Text) → split c t ≢ []
split-ne-nil c [] = unfold split in λ e. cc
split-ne-nil c (x ∷ t) = unfold split in ground (arith, push_front-ne-nil x (split c t))

-- A text with no separator is one part.
pub split_none : (c : ℕ) (p : Text) → contains c p ≡ false → split c p ≡ p ∷ []
unfolding split contains
split_none c [] h = refl
split_none c (x ∷ p) h = ground (arith, split_none c p)

-- The first part ends at the first separator.
pub split-append :
    (c : ℕ) (p t : Text) → contains c p ≡ false → split c (p ++ c ∷ t) ≡ p ∷ split c t
unfolding split contains
split-append c [] t h = ground arith
split-append c (x ∷ p) t h = ground (arith, split-append c p t)

join-push_front :
    (sep : Text) (x : ℕ) (ps : List Text) → join sep (push_front x ps) ≡ x ∷ join sep ps
unfolding push_front join
join-push_front sep x [] = refl
join-push_front sep x (p ∷ []) = refl
join-push_front sep x (p ∷ q ∷ r) = refl

join-nil-cons :
    (c x : ℕ) (ps : List Text)
    → ps ≢ []
    → (x == c) ≡ true
    → join (c ∷ []) ([] ∷ ps) ≡ x ∷ join (c ∷ []) ps
unfolding join
join-nil-cons c x [] h e = absurd (h refl)
join-nil-cons c x (p ∷ ps) h e = ground arith

join-split-cons :
    (c x : ℕ) (t : Text) → join (c ∷ []) (split c t) ≡ t → join (c ∷ []) (split c (x ∷ t)) ≡ x ∷ t
unfolding split
join-split-cons c x t ih = elim (Bool-cases (x == c)) [
  | inl e ↦ rw e (join-nil-cons c x (split c t) (split-ne-nil c t) e ∙ ap (◌∷◌ x) ih)
  | inr e ↦ rw e (join-push_front (c ∷ []) x (split c t) ∙ ap (◌∷◌ x) ih)
]

join-split-nil : (c : ℕ) → join (c ∷ []) (split c []) ≡ []
unfolding split join
join-split-nil c = refl

-- Joining the parts by the separator gives the text back.
pub join-split : (c : ℕ) (t : Text) → join (c ∷ []) (split c t) ≡ t
join-split c [] = join-split-nil c
join-split c (x ∷ t) = join-split-cons c x t (join-split c t)

all-push_front :
    (c x : ℕ) (ps : List Text)
    → (x == c) ≡ false
    → all (λ p. not (contains c p)) ps ≡ true
    → all (λ p. not (contains c p)) (push_front x ps) ≡ true
unfolding push_front contains
all-push_front c x [] e h = ground arith
all-push_front c x (p ∷ ps) e h = ground arith

-- The parts hold no code point that the text does not hold.
pub all-split :
    (c d : ℕ) (t : Text) → contains c t ≡ false → all (λ p. not (contains c p)) (split d t) ≡ true
unfolding split contains
all-split c d [] h = refl
all-split c d (x ∷ t) h = ground (arith, all-split c d t, all-push_front c x (split d t))

pub contains-append :
    (c : ℕ) (xs ys : Text) → contains c (xs ++ ys) ≡ (contains c xs || contains c ys)
unfolding contains
contains-append c [] ys = refl
contains-append c (x ∷ xs) ys = ground (arith, contains-append c xs ys)

-- `unicode.IsSpace`.
unfoldable pub is_space : ℕ → Bool
is_space c =
    leb 9 c && leb c 13
    || c == 32
    || c == 0x85
    || c == 0xa0
    || c == 0x1680
    || leb 0x2000 c && leb c 0x200a
    || c == 0x2028
    || c == 0x2029
    || c == 0x202f
    || c == 0x205f
    || c == 0x3000

unfoldable pub trim_left : Text → Text
trim_left [] = []
trim_left (c ∷ t) = let rest = trim_left t in if is_space c then rest else c ∷ t

unfoldable pub trim_right : Text → Text
trim_right [] = []
trim_right (c ∷ t) =
    let rest = trim_right t in if empty_text rest && is_space c then [] else c ∷ rest

-- `strings.TrimSpace`.
unfoldable pub trim_space : Text → Text
trim_space t = trim_right (trim_left t)

-- `strings.HasPrefix` and `strings.HasSuffix` for one code point.
abbrev pub starts_by : ℕ → Text → Bool
starts_by c [] = false
starts_by c (x ∷ t) = x == c

abbrev pub ends_by : ℕ → Text → Bool
ends_by c [] = false
ends_by c (x ∷ []) = x == c
ends_by c (x ∷ y ∷ t) = ends_by c (y ∷ t)

-- `strings.HasPrefix`.
unfoldable pub has_prefix : Text → Text → Bool
has_prefix t [] = true
has_prefix [] (p ∷ ps) = false
has_prefix (x ∷ t) (p ∷ ps) = x == p && has_prefix t ps

-- `strings.Index`; `none` stands for -1.
unfoldable pub index : Text → Text → Option ℕ
unfolding has_prefix
index [] p = if empty_text p then some 0 else none
index (x ∷ t) p =
    let rest = index t p in
    if has_prefix (x ∷ t) p then some 0 else elim rest [ none ↦ none | some i ↦ some (suc i) ]

-- `strings.LastIndex` for one code point.
unfoldable pub last_index : Text → ℕ → Option ℕ
last_index [] c = none
last_index (x ∷ t) c = elim (last_index t c) [
  | none ↦ if x == c then some 0 else none
  | some i ↦ some (suc i)
]

-- The order of Go strings: byte by byte, and so by code points.
unfoldable pub text_le : Text → Text → Bool
text_le [] ys = true
text_le (x ∷ xs) [] = false
text_le (x ∷ xs) (y ∷ ys) = if x == y then text_le xs ys else ltb x y

-- The text in front of the first part.
abbrev pub prefix_first : Text → List Text → List Text
prefix_first t [] = t ∷ []
prefix_first t (p ∷ ps) = (t ++ p) ∷ ps

prefix_first-push_front :
    (t : Text) (x : ℕ) (ps : List Text)
    → prefix_first t (push_front x ps) ≡ prefix_first (t ++ x ∷ []) ps
unfolding push_front
prefix_first-push_front t x [] = refl
prefix_first-push_front t x (p ∷ ps) = ap (λ q. q ∷ ps) (sym (append_assoc t (x ∷ []) p))

pub prefix_first_nil : (ps : List Text) → ps ≢ [] → prefix_first [] ps ≡ ps
prefix_first_nil [] h = absurd (h refl)
prefix_first_nil (p ∷ ps) h = refl

pub prefix_first-split_separator :
    (c x : ℕ) (t r : Text)
    → (x == c) ≡ true
    → prefix_first t (split c (x ∷ r)) ≡ t ∷ prefix_first [] (split c r)
unfolding split
prefix_first-split_separator c x t r e =
    rw (e, append-nil t, prefix_first_nil (split c r) (split-ne-nil c r)) refl

pub prefix_first-split_other :
    (c x : ℕ) (t r : Text)
    → (x == c) ≡ false
    → prefix_first t (split c (x ∷ r)) ≡ prefix_first (t ++ x ∷ []) (split c r)
unfolding split
prefix_first-split_other c x t r e = rw e (prefix_first-push_front t x (split c r))
