-- ===== src/Secret/Fields.antt =====
-- The connection details read field by field.
use db_query_operator.Prelude.{
  Bool, true, false, ◌&&◌, ◌≡◌, ◌⊎◌, refl, sym, ap, ◌∙◌, Option, none, some, not, Bool-cases,
  Option-cases, inl, inr, [], ◌∷◌, arith, if◌then◌else◌,
}
use db_query_operator.Prelude.Text.{Text, codes, text_eq, text_eq_iff, empty_text}
use db_query_operator.Prelude.Maps.{Map, lookup, lookup-insert}
use db_query_operator.Api.{DatabaseConnectionSecretRef}
use db_query_operator.Cluster.{Reply, ok, err}
use db_query_operator.Secret.{
  and_then, get_value, value_or_empty, readonly_host, set_some, assemble, fields_config,
}

and_then-eq-ok :
    {A B : Type 0} (m : Reply Text A) (f : A → Reply Text B) {b : B}
    → and_then m f ≡ ok b
    → (a : A) × (m ≡ ok a) × (f a ≡ ok b)
and_then-eq-ok (ok a) f h = (a, refl, h)
and_then-eq-ok (err e) f h = cc

and-eq-true : (a b : Bool) → (a && b) ≡ true → (a ≡ true) × (b ≡ true)
and-eq-true a b h = ground arith

ok-injective : {A : Type 0} {a b : A} → ◌≡◌ {A = Reply Text A} (ok a) (ok b) → a ≡ b
ok-injective h = cc

lookup-set_some :
    (k j : Text) (v : Option Text) (config : Map Text)
    → text_eq k j ≡ false
    → lookup j (set_some k v config) ≡ lookup j config
lookup-set_some k j none config h = refl
lookup-set_some k j (some v) config h = lookup-insert k j v config ∙ rw h

lookup-readonly_host :
    (ref : DatabaseConnectionSecretRef) (secret : Map Text) (place j : Text) (config : Map Text)
    → text_eq (codes "readonly_host") j ≡ false
    → lookup j (readonly_host ref secret place config) ≡ lookup j config
unfolding readonly_host
lookup-readonly_host ref secret place j config h =
    let field = codes "readonly_host" in
    let given = value_or_empty (get_value ref secret place ref.readonly_host_key field) in
    elim (Bool-cases (not (empty_text ref.readonly_host_key))) [
      | inl e ↦ rw e (lookup-insert field j given config ∙ rw h)
      | inr e ↦ rw e (lookup-set_some field j (lookup field secret) config h)
    ]

module _ (ref : DatabaseConnectionSecretRef) (secret : Map Text) (place : Text) where
  -- The key under which a detail is looked for.
  abbrev pub named : Text → Text → Text
  named [] default = default
  named (c ∷ key) default = c ∷ key

  -- The Secret has the value under that key; or it has none there, the key is "sslmode", the
  -- reference names no key for the SSL mode, and the value is "prefer".
  abbrev pub IsRead : Text → Text → Text → Type 0
  IsRead key default v =
      (lookup (named key default) secret ≡ some v)
      ⊎ ((lookup (named key default) secret ≡ none)
          × (named key default ≡ codes "sslmode")
          × (ref.ssl_mode_key ≡ [])
          × (v ≡ codes "prefer"))

  -- The configuration has such a value for a detail.
  abbrev pub Holds : Text → Text → Map Text → Type 0
  Holds key field config = (v : Text) × IsRead key field v × (lookup field config ≡ some v)

  empty_text-nil : (t : Text) → empty_text t ≡ true → t ≡ []
  empty_text-nil [] h = refl
  empty_text-nil (c ∷ t) h = cc h

  get_value-missing :
      (name v message : Text)
      → (if text_eq name (codes "sslmode") && empty_text ref.ssl_mode_key
          then ok (codes "prefer")
          else err message)
        ≡ ok v
      → (name ≡ codes "sslmode") × (ref.ssl_mode_key ≡ []) × (v ≡ codes "prefer")
  get_value-missing name v message h =
      elim (Bool-cases (text_eq name (codes "sslmode") && empty_text ref.ssl_mode_key)) [
        | inl e ↦
            let (same, empty) = and-eq-true _ _ e in
            (
              (text_eq_iff name (codes "sslmode")).0 same,
              empty_text-nil ref.ssl_mode_key empty,
              sym (ok-injective (rw e at h)),
            )
        | inr e ↦ cc (rw e at h)
      ]

  get_value-IsRead :
      (key default v : Text) → get_value ref secret place key default ≡ ok v → IsRead key default v
  unfolding get_value
  get_value-IsRead [] default v h = elim (Option-cases (lookup default secret)) [
    | inl e ↦
        let (same, empty, prefer) = get_value-missing default v _ (rw (e, get_value) at h) in
        inr (e, same, empty, prefer)
    | inr (w, e) ↦ inl (e ∙ ap some (ok-injective (rw (e, get_value) at h)))
  ]
  get_value-IsRead (c ∷ key) default v h = elim (Option-cases (lookup (c ∷ key) secret)) [
    | inl e ↦
        let (same, empty, prefer) = get_value-missing (c ∷ key) v _ (rw (e, get_value) at h) in
        inr (e, same, empty, prefer)
    | inr (w, e) ↦ inl (e ∙ ap some (ok-injective (rw (e, get_value) at h)))
  ]

  lookup-assemble :
      (host port username password dbname sslmode : Text)
      → let c = assemble ref secret place host port username password dbname sslmode in
        (lookup (codes "host") c ≡ some host)
        × (lookup (codes "port") c ≡ some port)
        × (lookup (codes "username") c ≡ some username)
        × (lookup (codes "password") c ≡ some password)
        × (lookup (codes "dbname") c ≡ some dbname)
        × (lookup (codes "sslmode") c ≡ some sslmode)
  unfolding assemble text_eq
  lookup-assemble host port username password dbname sslmode = (
    simp lookup-insert
        (lookup-readonly_host ref secret place (codes "host") _ refl ∙ simp lookup-insert),
    simp lookup-insert,
    simp lookup-insert,
    simp lookup-insert,
    simp lookup-insert,
    simp lookup-insert,
  )

  -- If the fields of the Secret are accepted, each of the six details in the configuration is what
  -- the Secret has under the key that the reference names, or under the default key where it names
  -- none. Only where the Secret has nothing under a key that is "sslmode", and the reference names
  -- no key for the SSL mode, it is "prefer" instead.
  pub fields_config-Holds :
      (config : Map Text)
      → fields_config ref secret place ≡ ok config
      → Holds ref.host_key (codes "host") config
        × Holds ref.port_key (codes "port") config
        × Holds ref.user_key (codes "username") config
        × Holds ref.password_key (codes "password") config
        × Holds ref.db_name_key (codes "dbname") config
        × Holds ref.ssl_mode_key (codes "sslmode") config
  unfolding fields_config
  fields_config-Holds config h =
      let (host, eh, h1) = and_then-eq-ok _ _ h in
      let (port, ep, h2) = and_then-eq-ok _ _ h1 in
      let (username, eu, h3) = and_then-eq-ok _ _ h2 in
      let (password, ew, h4) = and_then-eq-ok _ _ h3 in
      let (dbname, ed, h5) = and_then-eq-ok _ _ h4 in
      let (sslmode, es, h6) = and_then-eq-ok _ _ h5 in
      let e = sym (ok-injective h6) in
      let looked = lookup-assemble host port username password dbname sslmode in
      (
        (host, get_value-IsRead _ _ _ eh, ap (lookup (codes "host")) e ∙ looked.0),
        (port, get_value-IsRead _ _ _ ep, ap (lookup (codes "port")) e ∙ looked.1),
        (username, get_value-IsRead _ _ _ eu, ap (lookup (codes "username")) e ∙ looked.2),
        (password, get_value-IsRead _ _ _ ew, ap (lookup (codes "password")) e ∙ looked.3),
        (dbname, get_value-IsRead _ _ _ ed, ap (lookup (codes "dbname")) e ∙ looked.4),
        (sslmode, get_value-IsRead _ _ _ es, ap (lookup (codes "sslmode")) e ∙ looked.5),
      )
