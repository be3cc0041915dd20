-- ===== src/Gvk/Printing.antt =====
-- The printed form of a kind and its reading.
use db_query_operator.Prelude.{true, false, [], ◌∷◌, ◌++◌, ◌≡◌, refl, ap, ◌∙◌}
use db_query_operator.Prelude.Lists.{keep}
use db_query_operator.Prelude.Text.{Text, contains, split, split_none, split-append, trim_space}
use db_query_operator.Cluster.{ok}
use db_query_operator.Gvk.{GroupVersionKind, of_parts, some_gvks, parse_gvks}
use db_query_operator.Gvk.Parts.{is_named, of_entry, named, parse_gvks_lem}

-- The form `group/version/kind`.
abbrev pub print_gvk : GroupVersionKind → Text
print_gvk g = g.group ++ b'/' ∷ (g.version ++ b'/' ∷ g.kind)

-- A kind whose printed form can be told apart in a list: no name holds a slash or a semicolon,
-- white space is neither in front nor behind, and the version and the kind have a name.
pub record IsPrintable (g : GroupVersionKind) : Type 0 where
  pub group_slash : contains b'/' g.group ≡ false
  pub version_slash : contains b'/' g.version ≡ false
  pub kind_slash : contains b'/' g.kind ≡ false
  pub semicolon : contains b';' (print_gvk g) ≡ false
  pub trimmed : trim_space (print_gvk g) ≡ print_gvk g
  pub complete : is_named g ≡ true

split-print_gvk :
    (g : GroupVersionKind)
    → IsPrintable g
    → split b'/' (print_gvk g) ≡ g.group ∷ g.version ∷ g.kind ∷ []
split-print_gvk g p =
    split-append b'/' g.group (g.version ++ b'/' ∷ g.kind) p.group_slash
    ∙ ap (◌∷◌ g.group) (
        split-append b'/' g.version g.kind p.version_slash
        ∙ ap (◌∷◌ g.version) (split_none b'/' g.kind p.kind_slash))

of_entry-print_gvk : (g : GroupVersionKind) → IsPrintable g → of_entry (print_gvk g) ≡ g
unfolding of_parts
of_entry-print_gvk g p =
    ap (λ t. of_parts (split b'/' t)) p.trimmed ∙ ap of_parts (split-print_gvk g p)

-- Reading the printed form of a kind gives that kind back, where no name holds a slash or a
-- semicolon, white space is neither in front nor behind, and the version and the kind have a name.
pub parse_gvks-print_gvk :
    (g : GroupVersionKind) → IsPrintable g → parse_gvks (print_gvk g) ≡ ok (g ∷ [])
unfolding some_gvks
parse_gvks-print_gvk g p =
    parse_gvks_lem (print_gvk g)
    ∙ ap (λ ts. some_gvks (named ts)) (split_none b';' (print_gvk g) p.semicolon)
    ∙ ap (λ h. some_gvks (keep is_named (h ∷ []))) (of_entry-print_gvk g p)
    ∙ rw p.complete refl
