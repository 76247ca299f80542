-- ===== src/Http/Observability/Observed.antt =====
-- That a field of the context is the first header that is not empty.
use go_service_template.Common.{
  ◌≡◌, refl, ap, ◌∙◌, inl, inr, String, string_eq, ◌==◌, ==_refl, false, List, [], ◌∷◌, ◌++◌, map,
  All, if◌then◌else◌, Bool-cases,
}
use go_service_template.Http.Observability.{
  Extractor, header_extractor, extract_field, extract_fields, with_observability,
}
use go_service_template.Observability.{
  Field, Context, ObserverConfig, new_observer, field_of, configured,
}
use go_service_template.Observability.Laws.{field_of-set_field}

-- The first header that is not empty, or "".
abbrev pub first_header : {R : Type 0} → (String → R → String) → List String → R → String
first_header get_header [] r = ""
first_header get_header (name ∷ names) r =
    if get_header name r == "" then first_header get_header names r else get_header name r

module _ {R V : Type 0} (opts : List (ObserverConfig → ObserverConfig)) (f : Field) (r : R) where
  extract_field-other :
      (g : Field) (extractors : List (Extractor R V)) (c : Context) (v : V)
      → (g == f) ≡ false
      → field_of (extract_field (new_observer opts) g extractors r (c, v)).0 f ≡ field_of c f
  unfolding extract_field new_observer
  extract_field-other g [] c v h = refl
  extract_field-other g (extractor ∷ extractors) c v h =
      elim (Bool-cases ((extractor r c v).0 == "")) [
        | inl e ↦ rw (e) (extract_field-other g extractors c (extractor r c v).1 h)
        | inr e ↦
            rw (e) (rw (e, h) at (field_of-set_field (configured opts) c f g (extractor r c v).0))
      ]

  extract_fields-other :
      (fields : List (Field × List (Extractor R V))) (w : Context × V)
      → All (λ entry. (entry.0 == f) ≡ false) fields
      → field_of (extract_fields (new_observer opts) fields r w).0 f ≡ field_of w.0 f
  unfolding extract_fields
  extract_fields-other [] w h = refl
  extract_fields-other ((g, extractors) ∷ fields) (c, v) h =
      extract_fields-other fields (extract_field (new_observer opts) g extractors r (c, v)) h.1
      ∙ extract_field-other g extractors c v h.0

  extract_field-header :
      (get_header : String → R → String) (names : List String) (c : Context) (v : V)
      → field_of
          (extract_field (new_observer opts) f (map (header_extractor get_header) names) r (c, v)).0
          f
        ≡ (if first_header get_header names r == ""
            then field_of c f
            else first_header get_header names r)
  unfolding extract_field header_extractor new_observer
  extract_field-header get_header [] c v = refl
  extract_field-header get_header (name ∷ names) c v = elim (Bool-cases (get_header name r == "")) [
    | inl e ↦ rw (e) (extract_field-header get_header names c v)
    | inr e ↦
        rw (e, e)
          (rw (e, ==_refl f) at (field_of-set_field (configured opts) c f f (get_header name r)))
  ]

  extract_fields-append :
      (before after : List (Field × List (Extractor R V))) (w : Context × V)
      → extract_fields (new_observer opts) (before ++ after) r w
        ≡ extract_fields (new_observer opts) after r (extract_fields (new_observer opts) before r w)
  unfolding extract_fields
  extract_fields-append [] after w = refl
  extract_fields-append ((g, extractors) ∷ before) after w =
      extract_fields-append before after (extract_field (new_observer opts) g extractors r w)

  -- Whatever fields of other names are extracted before and after it, a field that is extracted from headers
  -- has in the context of the handler the first of these headers that is not empty, and its old value if
  -- all are empty.
  pub with_observability-observed :
      {B : Type 0}
      → (get_header : String → R → String) (names : List String)
        (before after : List (Field × List (Extractor R V))) (handler : R → Context × V → B × V)
        (w : Context × V)
      → All (λ entry. (entry.0 == f) ≡ false) before
      → All (λ entry. (entry.0 == f) ≡ false) after
      → (seen : Context × V) × (with_observability
            (new_observer opts)
            (before ++ (f, map (header_extractor get_header) names) ∷ after)
            handler
            r
            w
          ≡ handler r seen)
        × (field_of seen.0 f ≡ (
            if first_header get_header names r == ""
            then field_of w.0 f
            else first_header get_header names r))
  unfolding with_observability extract_fields
  with_observability-observed get_header names before after handler w b a =
      let start = extract_fields (new_observer opts) before r w in
      let fields = map (header_extractor {R = R} {V = V} get_header) names in
      let next = extract_field (new_observer opts) f fields r start in
      (
        extract_fields (new_observer opts) (before ++ (f, fields) ∷ after) r w,
        refl,
        ap (λ x. field_of x.0 f) (extract_fields-append before ((f, fields) ∷ after) w)
            ∙ extract_fields-other after next a
            ∙ extract_field-header get_header names start.0 start.1
            ∙ ap
                (λ x.
                  if first_header get_header names r == ""
                  then x
                  else first_header get_header names r)
                (extract_fields-other before w b),
      )
