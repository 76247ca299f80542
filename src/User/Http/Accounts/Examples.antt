-- ===== src/User/Http/Accounts/Examples.antt =====
-- A registration, a session and its verification at concrete inputs.
use go_service_template.Common.{ℕ, String, true, none, List, [], ◌∷◌, Result, ok}
use go_service_template.User.{User, UserRepository}
use go_service_template.User.Session.{TokenData}
use go_service_template.User.Authentication.{AuthenticationService}
use go_service_template.User.Examples.{service, table}
use go_service_template.Http.{serve}
use go_service_template.Http.Parser.{Cookie}
use go_service_template.User.Http.Accounts.{
  Headers, CredentialsIn, register_user, handle_authenticate, handle_verify,
}
use go_service_template.User.Http.Accounts.Created.{Creates, register_user-Creates}
use go_service_template.User.Http.Accounts.Session.{
  LetsIn, handle_authenticate-LetsIn, Verifies, handle_verify-Verifies,
}

-- The texts " a" and "b".
abbrev body : CredentialsIn
body = record { login = 32 ∷ 97 ∷ []; password = 98 ∷ [] }

abbrev encode_id : ℕ → Result (List ℕ)
encode_id id = ok (id ∷ [])

register_user-Creates_example :
    Creates service table encode_id none
      (ok body)
      none
      (serve (register_user service encode_id none (ok body)) none)
register_user-Creates_example = register_user-Creates service table encode_id none (ok body) none

abbrev somebody : User
somebody = record { id = 3; login = 97 ∷ []; password_hash = "b"; deleted_at = none; changes = [] }

abbrev repository : UserRepository ℕ ℕ
repository = record {
  next_id = λ w. (w, w);
  store = λ c u w. (none, w);
  find = λ c spec w. (ok (somebody ∷ []), w);
  find_one = λ c spec w. (ok somebody, w);
}

abbrev token : TokenData
token = record { encoded_token = "t"; user_id = 3; created_at = 4; valid_till = 9 }

abbrev sessions : AuthenticationService ℕ ℕ
sessions = record {
  user_repo = repository;
  generate = λ id ttl now. (ok token, now);
  decode = λ s now. ok token;
  compare_hash = λ hash password. true;
  to_lower = λ login. login;
  now = λ w. w;
}

abbrev add_cookie : Cookie → Headers → Headers
add_cookie cookie headers = ("Set-Cookie", cookie.cookie_value) ∷ headers

handle_authenticate-LetsIn_example :
    LetsIn sessions add_cookie 0
      (ok body)
      5
      (serve (handle_authenticate sessions add_cookie 0 (ok body)) 5)
handle_authenticate-LetsIn_example = handle_authenticate-LetsIn sessions add_cookie 0 (ok body) 5

abbrev session : Cookie
session = record {
  cookie_name = "ust";
  cookie_value = "t";
  cookie_path = "/";
  expires = 9;
  http_only = true;
}

abbrev id_string : ℕ → String
id_string id = "3"

handle_verify-Verifies_example :
    Verifies sessions add_cookie id_string 0
      (session ∷ [])
      5
      (serve (handle_verify sessions add_cookie id_string 0 (session ∷ [])) 5)
handle_verify-Verifies_example =
    handle_verify-Verifies sessions add_cookie id_string 0 (session ∷ []) 5
