-- ===== src/Validation/Accepts.antt =====
-- Which specs pass the admission checks.
use db_query_operator.Prelude.{
  true, false, Bool-cases, Option, none, some, List, [], ◌∷◌, ◌++◌, ◌≡◌, refl, ◌↔◌, ◌≢◌, ◌⊎◌, inl,
  inr, arith,
}
use db_query_operator.Prelude.Int.{ℤ, pos, int_leb, ◌<ℤ◌}
use db_query_operator.Prelude.Text.{Text, codes, empty_text, trim_space, trim_left, trim_right}
use db_query_operator.Api.{DatabaseQueryResourceSpec, ChangeDetectionConfig}
use db_query_operator.Cluster.{Reply, ok, err}
use db_query_operator.Validation.{
  FieldError, invalid, truncate, is_blank, reported, check_secret, check_query, parsed_duration,
  validate_duration, validate_template, check_template, check_status_template, check_detection,
  detection_report, validate_spec,
}

reported-none : (e : Option FieldError) → reported e ≡ [] → e ≡ none
reported-none none h = refl
reported-none (some e) h = cc

module _ (parse_duration : Text → Reply Text ℤ) where
  -- The text is a duration above zero.
  abbrev pub IsInterval : Text → ℤ → Type 0
  IsInterval value d = (is_blank value ≡ false) × (parse_duration value ≡ ok d) × (pos 0 <ℤ d)

  abbrev pub IsDetection : Option ChangeDetectionConfig → Type 0
  IsDetection none = Unit {0}
  IsDetection (some cd) = (d : ℤ) × IsInterval cd.change_poll_interval d

  parsed_duration-none :
      (path : List Text) (value : Text) (r : Reply Text ℤ)
      → (parsed_duration path value r).1 ≡ none
      → (r ≡ ok (parsed_duration path value r).0) × (pos 0 <ℤ (parsed_duration path value r).0)
  unfolding parsed_duration
  parsed_duration-none path value (err e) h = cc
  parsed_duration-none path value (ok d) h = elim (Bool-cases (int_leb d (pos 0))) [
    | inl e ↦ cc (rw e at h)
    | inr e ↦ rw e (refl, ground arith)
  ]

  pub validate_duration-none :
      (path : List Text) (name value : Text)
      → (validate_duration parse_duration path name value).1 ≡ none
      → IsInterval value (validate_duration parse_duration path name value).0
  unfolding validate_duration
  validate_duration-none path name value h = elim (Bool-cases (is_blank value)) [
    | inl e ↦ cc (rw e at h)
    | inr e ↦
        let (r, p) = parsed_duration-none path value (parse_duration value) (rw e at h) in
        rw e (refl, r, p)
  ]

  above_zero : (d : ℤ) → pos 0 <ℤ d → int_leb d (pos 0) ≡ false
  above_zero d p = ground arith

  pub validate_duration_of_interval :
      (path : List Text) (name value : Text) (d : ℤ)
      → IsInterval value d
      → validate_duration parse_duration path name value ≡ (d, none)
  unfolding validate_duration parsed_duration
  validate_duration_of_interval path name value d (b, e, p) = rw (b, e, above_zero d p) refl

  IsInterval-iff :
      (path : List Text) (name value : Text)
      → (reported (validate_duration parse_duration path name value).1 ≡ [])
        ↔ ((d : ℤ) × IsInterval value d)
  IsInterval-iff path name value = (
    λ h.
        let none_reported = reported-none _ h in
        (_, validate_duration-none path name value none_reported),
    λ h. rw (validate_duration_of_interval path name value h.0 h.1) refl,
  )

  detection_report_iff :
      (e : Option FieldError) (warnings : List Text)
      → ((detection_report parse_duration e warnings).0 ≡ []) ↔ (reported e ≡ [])
  unfolding detection_report
  detection_report_iff none warnings = (λ h. refl, λ h. refl)
  detection_report_iff (some e) warnings = (λ h. h, λ h. h)

  check_detection_iff :
      (spec : DatabaseQueryResourceSpec) (cd : Option ChangeDetectionConfig)
      → ((check_detection parse_duration spec cd).0 ≡ []) ↔ IsDetection cd
  unfolding check_detection
  check_detection_iff spec none = (λ h. tt, λ h. refl)
  check_detection_iff spec (some cd) =
      let r = detection_report_iff _ _ in
      let i = IsInterval-iff _ _ cd.change_poll_interval in (λ h. i.0 (r.0 h), λ h. r.1 (i.1 h))

-- An append is empty when both sides are.
append_empty : {A : Type 0} → (xs ys : List A) → (xs ++ ys ≡ []) ↔ ((xs ≡ []) × (ys ≡ []))
append_empty [] ys = (λ h. (refl, h), λ h. h.1)
append_empty (x ∷ xs) ys = (λ h. cc, λ h. cc h.0)

-- A text that is not blank is not empty.
pub nonblank : (s : Text) → is_blank s ≡ false → empty_text s ≡ false
unfolding is_blank trim_space trim_left trim_right
nonblank [] h = cc
nonblank (c ∷ s) h = refl

check_secret_iff :
    (spec : DatabaseQueryResourceSpec)
    → (check_secret spec ≡ []) ↔ (is_blank spec.database.connection_secret_ref.name ≡ false)
unfolding check_secret
check_secret_iff spec = ground arith

check_query_iff :
    (spec : DatabaseQueryResourceSpec) → (check_query spec ≡ []) ↔ (is_blank spec.query ≡ false)
unfolding check_query
check_query_iff spec = ground (arith, nonblank spec.query)

module _ (parse_template : Text → Text → Reply Text (Unit {0})) where
  abbrev pub IsTemplate : Text → Text → Type 0
  IsTemplate name tmpl = (u : Unit {0}) × (parse_template name tmpl ≡ ok u)

  validate_template_iff :
      (path : List Text) (name tmpl : Text)
      → (reported (validate_template parse_template path name tmpl) ≡ []) ↔ IsTemplate name tmpl
  unfolding validate_template
  validate_template_iff path name tmpl = by_reply (parse_template name tmpl)
    where
      by_reply :
          (r : Reply Text (Unit {0}))
          → (reported (elim r [
            | ok u ↦ none
            | err e ↦
                some (invalid path (truncate tmpl) (codes "must be a valid Go template: " ++ e))
          ])
              ≡ [])
            ↔ ((u : Unit {0}) × (r ≡ ok u))
      by_reply (ok u) = (λ h. (u, refl), λ h. refl)
      by_reply (err e) = (λ h. cc, λ h. cc h.1)

  check_template_blank :
      (spec : DatabaseQueryResourceSpec)
      → is_blank spec.template ≡ true
      → check_template parse_template spec ≢ []
  unfolding check_template
  check_template_blank spec b h = ground arith

  check_template_iff :
      (spec : DatabaseQueryResourceSpec)
      → (check_template parse_template spec ≡ [])
        ↔ ((is_blank spec.template ≡ false) × IsTemplate (codes "resourceTemplate") spec.template)
  unfolding check_template
  check_template_iff spec = elim (Bool-cases (is_blank spec.template)) [
    | inl e ↦ (λ h. absurd (check_template_blank spec e h), λ h. cc (e, h.0))
    | inr e ↦
        let v =
          validate_template_iff (codes "spec" ∷ codes "template" ∷ []) (codes "resourceTemplate")
            spec.template in
        rw (nonblank spec.template e, e) (λ h. (refl, v.0 h), λ h. v.1 h.1)
  ]

  check_status_template_iff :
      (spec : DatabaseQueryResourceSpec)
      → (check_status_template parse_template spec ≡ []) ↔ (
          (is_blank spec.status_update_query_template ≡ true)
          ⊎ IsTemplate (codes "statusUpdateQuery") spec.status_update_query_template)
  unfolding check_status_template
  check_status_template_iff spec = elim (Bool-cases (is_blank spec.status_update_query_template)) [
    | inl e ↦ rw e (λ h. inl refl, λ h. refl)
    | inr e ↦
        let v =
          validate_template_iff (codes "spec" ∷ codes "statusUpdateQueryTemplate" ∷ [])
            (codes "statusUpdateQuery") spec.status_update_query_template in
        rw e (λ h. inr (v.0 h), λ h. elim h [ inl f ↦ cc f | inr u ↦ v.1 u ])
  ]

module _ (parse_duration : Text → Reply Text ℤ)
    (parse_template : Text → Text → Reply Text (Unit {0})) where
  -- What the reconciler needs of a spec.
  pub record IsValid (spec : DatabaseQueryResourceSpec) : Type 0 where
    pub interval : (d : ℤ) × IsInterval parse_duration spec.poll_interval d
    pub secret : is_blank spec.database.connection_secret_ref.name ≡ false
    pub query : is_blank spec.query ≡ false
    pub template :
        (is_blank spec.template ≡ false)
        × IsTemplate parse_template (codes "resourceTemplate") spec.template
    pub status_template :
        (is_blank spec.status_update_query_template ≡ true)
        ⊎ IsTemplate parse_template (codes "statusUpdateQuery") spec.status_update_query_template
    pub detection : IsDetection parse_duration spec.change_detection

  -- A spec has no violation exactly when it is one that the reconciler can work with: both
  -- intervals are durations above zero, the secret has a name, the query and the template are not
  -- blank, and the templates parse.
  pub validate_spec_iff :
      (spec : DatabaseQueryResourceSpec)
      → ((validate_spec parse_duration parse_template spec).0 ≡ []) ↔ IsValid spec
  unfolding validate_spec
  validate_spec_iff spec = (
    λ h.
        let (p, h1) = (append_empty _ _).0 h in
        let (s, h2) = (append_empty _ _).0 h1 in
        let (q, h3) = (append_empty _ _).0 h2 in
        let (t, h4) = (append_empty _ _).0 h3 in
        let (u, d) = (append_empty _ _).0 h4 in
        record {
          interval = (IsInterval-iff parse_duration _ _ spec.poll_interval).0 p;
          secret = (check_secret_iff spec).0 s;
          query = (check_query_iff spec).0 q;
          template = (check_template_iff parse_template spec).0 t;
          status_template = (check_status_template_iff parse_template spec).0 u;
          detection = (check_detection_iff parse_duration spec spec.change_detection).0 d;
        },
    λ v.
        let p = (IsInterval-iff parse_duration _ _ spec.poll_interval).1 v.interval in
        let d = (check_detection_iff parse_duration spec spec.change_detection).1 v.detection in
        (append_empty _ _).1 (
          p,
          (append_empty _ _).1 (
            (check_secret_iff spec).1 v.secret,
            (append_empty _ _).1 (
              (check_query_iff spec).1 v.query,
              (append_empty _ _).1 (
                (check_template_iff parse_template spec).1 v.template,
                (append_empty _ _).1
                    ((check_status_template_iff parse_template spec).1 v.status_template, d),
              ),
            ),
          ),
        ),
  )
