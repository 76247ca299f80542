-- ===== src/Http/Observability.antt =====
-- The middleware of pkg/http/observability.go: fields of the context from the headers of a request.
pub mod Observed
mod Examples
use go_service_template.Common.{
  String, string_eq, ◌==◌, Option, none, some, List, [], ◌∷◌, if◌then◌else◌,
}
use go_service_template.Observability.{Field, Context, Observer}

-- An `ObservabilityFieldExtractor`, of a request without and with its context. It may read what changes,
-- such as a source of random numbers.
abbrev pub Extractor : Type 0 → Type 0 → Type 0
Extractor R V = R → Context → V → String × V

module _ {R V : Type 0} where
  -- `ObservabilityFieldHeaderExtractor`, where `get_header` is `Header.Get`.
  unfoldable pub header_extractor : (String → R → String) → String → Extractor R V
  header_extractor get_header header r c v = (get_header header r, v)

  -- `ObservabilityFieldRandomUUIDExtractor`, where `new_uuid` is the text of a new UUID.
  unfoldable pub random_uuid_extractor : (V → String × V) → Extractor R V
  random_uuid_extractor new_uuid r c v = new_uuid v

  -- The loop over the extractors of a field, up to its `break`.
  unfoldable pub extract_field :
      Observer → Field → List (Extractor R V) → R → Context × V → Context × V
  extract_field o field [] r (c, v) = (c, v)
  extract_field o field (extractor ∷ extractors) r (c, v) =
      let (value, w) = extractor r c v in
      let rest = extract_field o field extractors r (c, w) in
      if value == "" then rest else (o.with_field c field value, w)

  -- The loop over the entries of the map of extractors, in the order of `range`.
  unfoldable pub extract_fields :
      Observer → List (Field × List (Extractor R V)) → R → Context × V → Context × V
  unfolding extract_field
  extract_fields o [] r w = w
  extract_fields o ((field, extractors) ∷ fields) r w =
      extract_fields o fields r (extract_field o field extractors r w)

  -- `WithObservability`; a handler gets the request with its context.
  unfoldable pub with_observability :
      {B : Type 0}
      → Observer
      → List (Field × List (Extractor R V))
      → (R → Context × V → B × V)
      → R
      → Context × V
      → B × V
  unfolding extract_fields
  with_observability o fields handler r w = handler r (extract_fields o fields r w)
