-- ===== src/Http/Parser.antt =====
-- The parameters of queries, the cookies and the bodies that pkg/http/parser.go reads. `parse` is
-- `ParseTypedValue` at the type of the value, and `decode` the decoder of JSON.
mod Tests
use go_service_template.Common.{
  ◌≡◌, ℕ, String, string_eq, Bool, Option, none, some, List, [], ◌∷◌, if◌then◌else◌, ◌==◌, Error,
  Sentinel, Result, ok, err,
}
use go_service_template.Common.Assoc.{lookup}
use go_service_template.Message.{Time}
use go_service_template.Http.{parse_typed_value_impl}

-- The fields of an `http.Cookie` that the code sets or reads.
pub record Cookie : Type 0 where
  pub cookie_name : String
  pub cookie_value : String
  pub cookie_path : String
  pub expires : Time
  pub http_only : Bool

-- `url.Values`, and what `Get` returns of the values of a parameter.
abbrev pub Values : Type 0
Values = List (String × List String)

abbrev pub first_value : Option (List String) → String
first_value none = ""
first_value (some []) = ""
first_value (some (value ∷ values)) = value

unfoldable pub parsing_error : String → Error
parsing_error text = Error.wrap text (Error.sentinel Sentinel.parsing_error)

-- The loops of `Cookie` and `CookieValue`, which keep the last cookie of the name.
unfoldable pub last_cookie : String → Option Cookie → List Cookie → Option Cookie
last_cookie name found [] = found
last_cookie name found (c ∷ cookies) =
    last_cookie name (if c.cookie_name == name then some c else found) cookies

-- `Cookie`.
unfoldable pub cookie : String → List Cookie → Result Cookie
unfolding last_cookie parsing_error
cookie name cookies = elim (last_cookie name none cookies) [
  | some c ↦ ok c
  | none ↦ err (parsing_error "%w: cookie with name %s not found")
]

module _ {A : Type 0} where
  unfoldable pub parse_query_value : (String → Result A) → String → Result A
  unfolding parse_typed_value_impl parsing_error
  parse_query_value parse value =
      if value == ""
      then err (parsing_error "%w: query parameter %s not found")
      else parse_typed_value_impl (parse value)

  -- `QueryParameter`.
  unfoldable pub query_parameter : (String → Result A) → String → Values → Result A
  unfolding parse_query_value
  query_parameter parse param query = parse_query_value parse (first_value (lookup param query))

  unfoldable pub add_value : Result A → Result (List A) → Result (List A)
  add_value (err e) rest = err e
  add_value (ok v) (err e) = err e
  add_value (ok v) (ok vs) = ok (v ∷ vs)

  -- The loop of `QueryParameters`: the first value that is not parsed ends it.
  unfoldable pub parse_values : (String → Result A) → List String → Result (List A)
  unfolding add_value parse_typed_value_impl
  parse_values parse [] = ok []
  parse_values parse (value ∷ values) =
      add_value (parse_typed_value_impl (parse value)) (parse_values parse values)

  -- `QueryParameters`.
  unfoldable pub query_parameters : (String → Result A) → String → Values → Result (List A)
  unfolding parse_values parsing_error
  query_parameters parse param query = elim (lookup param query) [
    | none ↦ err (parsing_error "%w: query parameter %s not found")
    | some values ↦ parse_values parse values
  ]

  -- `CookieValue`.
  unfoldable pub cookie_value_of : (String → Result A) → String → List Cookie → Result A
  unfolding last_cookie parse_typed_value_impl parsing_error
  cookie_value_of parse name cookies = elim (last_cookie name none cookies) [
    | some c ↦ parse_typed_value_impl (parse c.cookie_value)
    | none ↦ err (parsing_error "%w: cookie with name %s not found")
  ]

  -- `JSONBody`, on what the decoder makes of the body.
  unfoldable pub json_body : Result A → Result A
  json_body (ok v) = ok v
  json_body (err e) =
      err (Error.wrap_both "%w: encode json body: %w" (Error.sentinel Sentinel.parsing_error) e)

  abbrev pub to_option : Result A → Option A
  to_option (ok v) = some v
  to_option (err e) = none

  -- `ParseRequestOptional`, where `extracted` is what the extractor makes of the request.
  unfoldable pub parse_request_optional : Result A → Option Error → Option A
  parse_request_optional extracted (some e) = none
  parse_request_optional extracted none = to_option extracted

  -- `ParseResponse` and `ParseResponseOptional`, where `extracted` is what the extractor makes of the
  -- response.
  unfoldable pub parse_response : Result A → Option Error → Result A
  parse_response extracted (some e) = err e
  parse_response extracted none = extracted

  unfoldable pub parse_response_optional : Result A → Option Error → Option A
  parse_response_optional extracted (some e) = none
  parse_response_optional extracted none = to_option extracted

pub json_body-ok : {A : Type 0} → (r : Result A) (a : A) → json_body r ≡ ok a → r ≡ ok a
unfolding json_body
json_body-ok (ok b) a h = h
json_body-ok (err e) a h = cc
