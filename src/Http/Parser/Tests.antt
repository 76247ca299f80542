-- ===== src/Http/Parser/Tests.antt =====
-- Cookies and parameters at concrete inputs.
use go_service_template.Common.{◌≡◌, refl, String, string_eq, true, [], ◌∷◌, ok, Result}
use go_service_template.Common.Assoc.{lookup}
use go_service_template.Http.Parser.{
  Cookie, last_cookie, cookie_value_of, query_parameters, parse_values, add_value,
}
use go_service_template.Http.{parse_typed_value_impl}

abbrev session : String → Cookie
session value = record {
  cookie_name = "ust";
  cookie_value = value;
  cookie_path = "/";
  expires = 5;
  http_only = true;
}

abbrev text : String → Result String
text value = ok value

last_test : cookie_value_of text "ust" (session "a" ∷ session "b" ∷ []) ≡ ok "b"
unfolding cookie_value_of last_cookie parse_typed_value_impl
last_test = refl

all_test : query_parameters text "id" (("id", "1" ∷ "2" ∷ []) ∷ []) ≡ ok ("1" ∷ "2" ∷ [])
unfolding query_parameters parse_values add_value lookup parse_typed_value_impl
all_test = refl
