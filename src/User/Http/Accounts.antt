-- ===== src/User/Http/Accounts.antt =====
-- The handlers of internal/user/infra/http that register and authenticate: registeruserhandler.go,
-- authenticatehandler.go and verifyauthenticationhandler.go, with the cookie of auth.go. `parsed` is
-- what the JSON decoder makes of the body, and `add_cookie` is `http.SetCookie` on headers.
pub mod Created
pub mod Session
mod Examples
use go_service_template.Common.{
  ℕ, String, string_eq, Bool, true, false, Option, none, some, List, Error, Sentinel, is, Result,
  ok, err, if◌then◌else◌,
}
use go_service_template.Common.Text.{Text, is_empty, trim_space}
use go_service_template.Message.{Uuid}
use go_service_template.User.Service.{UserService, UserCredentials, register}
use go_service_template.User.Authentication.{
  SessionTokenData, AuthenticationData, AuthenticationService, authenticate_user,
  verify_authentication,
}
use go_service_template.Http.{
  Response, Handler, Ending, set_header, set_status_code, set_json_body, parse_request,
}
use go_service_template.Http.Parser.{Cookie, json_body, cookie_value_of}

abbrev pub Headers : Type 0
Headers = List (String × String)

-- `RegisterUserIn` and `authenticateIn`.
pub record CredentialsIn : Type 0 where
  pub login : Text
  pub password : Text

unfoldable pub new_user_session_cookie : SessionTokenData → Cookie
new_user_session_cookie token = record {
  cookie_name = "ust";
  cookie_value = token.token;
  cookie_path = "/";
  expires = token.valid_till;
  http_only = true;
}

-- A handler that sets the status, unless it is none, and returns the error.
abbrev pub refuse : {W : Type 0} → (Response → Response) → Error → Handler W
refuse change e r w = ((Ending.returned (some e), change r), w)

-- What the handler answers to an error of `Register`.
unfoldable pub set_register_status : Error → Response → Response
unfolding set_status_code
set_register_status e r =
    if is e Sentinel.invalid_user_credentials
    then set_status_code 400 r
    else if is e Sentinel.user_is_already_deleted
    then set_status_code 403 r
    else if is e Sentinel.user_already_exists
    then set_status_code 409 r
    else r

module _ {C W : Type 0} (s : UserService C W) (to_out : Uuid → Result (List ℕ)) where
  unfoldable pub after_register : Response → Result Uuid × W → (Ending × Response) × W
  unfolding set_register_status set_json_body set_status_code
  after_register r (err e, w) = refuse (set_register_status e) e r w
  after_register r (ok id, w) =
      ((Ending.returned none, set_status_code 201 (set_json_body (to_out id) r)), w)

  -- The handler with the trimmed login and password.
  unfoldable pub register_trimmed : C → Text → Text → Handler W
  unfolding after_register set_status_code
  register_trimmed c login password r w =
      if is_empty login
      then refuse (set_status_code 400) (Error.message "login must be not empty") r w
      else if is_empty password
      then refuse (set_status_code 400) (Error.message "password must be not empty") r w
      else after_register r (register s c (record { login = login; password = password }) w)

  unfoldable pub register_parsed : C → Result CredentialsIn → Handler W
  unfolding register_trimmed
  register_parsed c (err e) r w = refuse (λ x. x) e r w
  register_parsed c (ok body) r w =
      register_trimmed c (trim_space body.login) (trim_space body.password) r w

  -- `RegisterUserHandler.Handle`.
  unfoldable pub register_user : C → Result CredentialsIn → Handler W
  unfolding register_parsed parse_request json_body
  register_user c parsed = register_parsed c (parse_request (json_body parsed) none)

module _ {C W : Type 0} (s : AuthenticationService C W)
    (add_cookie : Cookie → Headers → Headers) where
  unfoldable pub set_cookie : Cookie → Response → Response
  set_cookie cookie r = record r { headers = add_cookie cookie r.headers }

  unfoldable pub after_authenticate :
      Response → Result SessionTokenData × W → (Ending × Response) × W
  unfolding set_cookie new_user_session_cookie
  after_authenticate r (err e, w) = refuse (λ x. x) e r w
  after_authenticate r (ok token, w) =
      ((Ending.returned none, set_cookie (new_user_session_cookie token) r), w)

  unfoldable pub authenticate_trimmed : C → Text → Text → Handler W
  unfolding after_authenticate set_status_code
  authenticate_trimmed c login password r w =
      if is_empty login
      then refuse (set_status_code 401) (Error.message "login must be not empty") r w
      else if is_empty password
      then refuse (set_status_code 401) (Error.message "password must be not empty") r w
      else after_authenticate r (authenticate_user s c login password w)

  unfoldable pub authenticate_parsed : C → Result CredentialsIn → Handler W
  unfolding authenticate_trimmed set_status_code
  authenticate_parsed c (err e) r w = refuse (set_status_code 401) e r w
  authenticate_parsed c (ok body) r w =
      authenticate_trimmed c (trim_space body.login) (trim_space body.password) r w

  -- `AuthenticateHandler.Handle`.
  unfoldable pub handle_authenticate : C → Result CredentialsIn → Handler W
  unfolding authenticate_parsed parse_request json_body
  handle_authenticate c parsed = authenticate_parsed c (parse_request (json_body parsed) none)

  unfoldable pub set_renewed : Option SessionTokenData → Response → Response
  unfolding set_cookie
  set_renewed none r = r
  set_renewed (some token) r = set_cookie (new_user_session_cookie token) r

  -- The end of `VerifyAuthenticationHandler.Handle`; `uuid_string` is `String` of an id.
  unfoldable pub after_verify :
      (Uuid → String) → Response → Result AuthenticationData × W → (Ending × Response) × W
  unfolding set_renewed set_header
  after_verify uuid_string r (err e, w) = refuse (λ x. x) e r w
  after_verify uuid_string r (ok d, w) = (
    (
      Ending.returned none,
      set_header "X-Auth-User-ID" (uuid_string d.user_id) (set_renewed d.renewed_token r),
    ),
    w,
  )

  unfoldable pub verify_parsed : (Uuid → String) → C → Result String → Handler W
  unfolding after_verify set_status_code
  verify_parsed uuid_string c (err e) r w = refuse (set_status_code 401) e r w
  verify_parsed uuid_string c (ok token) r w =
      after_verify uuid_string r (verify_authentication s c token w)

  -- `VerifyAuthenticationHandler.Handle`, on the cookies of the request.
  unfoldable pub handle_verify : (Uuid → String) → C → List Cookie → Handler W
  unfolding verify_parsed parse_request cookie_value_of
  handle_verify uuid_string c cookies =
      verify_parsed uuid_string c
        (parse_request (cookie_value_of (λ value. ok value) "ust" cookies) none)
