-- ===== src/Http/Observability/Examples.antt =====
-- A request whose second header holds its id.
use go_service_template.Common.{
  ◌≡◌, refl, String, string_eq, ◌==◌, List, [], ◌∷◌, ◌++◌, map, if◌then◌else◌, ℕ, ◌+◌,
}
use go_service_template.Common.Assoc.{lookup}
use go_service_template.Http.Observability.{
  Extractor, header_extractor, random_uuid_extractor, with_observability,
}
use go_service_template.Http.Observability.Observed.{first_header, with_observability-observed}
use go_service_template.Observability.{Field, Context, new_observer, field_of, text_of}

abbrev Headers : Type 0
Headers = List (String × String)

abbrev header_of : String → Headers → String
header_of name headers = text_of (lookup name headers)

abbrev names : List String
names = "X-Request-ID" ∷ "Request-ID" ∷ []

abbrev traced : List (Field × List (Extractor Headers ℕ))
traced = ("traceID", random_uuid_extractor (λ n. ("u", n + 1)) ∷ []) ∷ []

abbrev headers : Headers
headers = ("Request-ID", "r1") ∷ []

abbrev start : Context × ℕ
start = (record { values = []; log_fields = [] }, 0)

abbrev show : Headers → Context × ℕ → String × ℕ
show r (c, n) = (field_of c "requestID", n)

with_observability-observed_example :
    (seen : Context × ℕ) × (with_observability
        (new_observer [])
        (traced ++ ("requestID", map (header_extractor header_of) names) ∷ [])
        show
        headers
        start
      ≡ show headers seen)
    × (field_of seen.0 "requestID" ≡ (
        if first_header header_of names headers == ""
        then field_of start.0 "requestID"
        else first_header header_of names headers))
with_observability-observed_example =
    with_observability-observed [] "requestID" headers header_of names traced [] show start
      (refl, tt) tt
