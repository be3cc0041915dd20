-- ===== src/Gvk/Parts.antt =====
-- What a pattern gives, entry by entry.
use db_query_operator.Prelude.{
  Bool, true, false, not, ◌&&◌, Bool-cases, inl, inr, List, [], ◌∷◌, ◌++◌, ◌≡◌, refl, sym, ap, ◌∙◌,
  append-nil, map, append_assoc, arith,
}
use db_query_operator.Prelude.Lists.{keep}
use db_query_operator.Prelude.Text.{Text, split, empty_text, trim_space}
use db_query_operator.Gvk.{
  GroupVersionKind, of_parts, add_gvk, add_entry, add_entries, some_gvks, parse_gvks,
}

-- Whether an entry names a version and a kind.
abbrev pub is_named : GroupVersionKind → Bool
is_named g = not (empty_text g.version) && not (empty_text g.kind)

abbrev pub of_entry : Text → GroupVersionKind
of_entry entry = of_parts (split b'/' (trim_space entry))

-- What the entries name, in order.
abbrev pub named : List Text → List GroupVersionKind
named entries = keep is_named (map of_entry entries)

-- An entry of white space names nothing, tested or not.
blank_entry : (t : Text) → empty_text t ≡ true → is_named (of_parts (split b'/' t)) ≡ false
unfolding split of_parts
blank_entry [] h = refl
blank_entry (c ∷ t) h = cc h

add_gvk-named :
    (g : GroupVersionKind) (gvks : List GroupVersionKind)
    → add_gvk g gvks ≡ gvks ++ keep is_named (g ∷ [])
unfolding add_gvk
add_gvk-named g gvks = elim (Bool-cases (is_named g)) [
  | inl e ↦ ground (arith, append-nil gvks)
  | inr e ↦ ground (arith, append-nil gvks)
]

add_entry-named :
    (entry : Text) (gvks : List GroupVersionKind)
    → add_entry entry gvks ≡ gvks ++ named (entry ∷ [])
unfolding add_entry
add_entry-named entry gvks = elim (Bool-cases (empty_text (trim_space entry))) [
  | inl e ↦ rw (e, blank_entry (trim_space entry) e) (sym (append-nil gvks))
  | inr e ↦ rw e (add_gvk-named (of_entry entry) gvks)
]

named-cons :
    (entry : Text) (entries : List Text)
    → named (entry ∷ []) ++ named entries ≡ named (entry ∷ entries)
named-cons entry entries = elim (Bool-cases (is_named (of_entry entry))) [
  | inl e ↦ rw e refl
  | inr e ↦ rw e refl
]

add_entries-named :
    (entries : List Text) (gvks : List GroupVersionKind)
    → add_entries entries gvks ≡ gvks ++ named entries
unfolding add_entries
add_entries-named [] gvks = sym (append-nil gvks)
add_entries-named (entry ∷ entries) gvks =
    ap (add_entries entries) (add_entry-named entry gvks)
    ∙ add_entries-named entries (gvks ++ named (entry ∷ []))
    ∙ append_assoc gvks (named (entry ∷ [])) (named entries)
    ∙ ap (λ n. gvks ++ n) (named-cons entry entries)

-- The result holds, in order, what the entries between the semicolons name, where that is a
-- version and a kind; the others are skipped, and it is an error if none is left.
pub parse_gvks_lem : (pattern : Text) → parse_gvks pattern ≡ some_gvks (named (split b';' pattern))
unfolding parse_gvks
parse_gvks_lem pattern = ap some_gvks (add_entries-named (split b';' pattern) [])
