-- ===== src/User/Http/Accounts/Session.antt =====
-- Who gets a session, and for whom a request is let through: the handlers that authenticate, down to
-- the authentication service.
use mathlib.Core.Path.{subst}
use go_service_template.Common.{
  ◌≡◌, ◌≢◌, refl, ap, ◌∙◌, inl, inr, String, string_eq, none, some, List, [], ◌∷◌, Error, Sentinel,
  is, Result, ok, err, Bool-cases, Option-cases, arith,
}
use go_service_template.Common.Text.{Text, is_empty, trim_space, trim_space-trim_space}
use go_service_template.Common.Assoc.{lookup, lookup-insert}
use go_service_template.Message.{Uuid}
use go_service_template.User.Session.{TokenData}
use go_service_template.User.Authentication.{
  SessionTokenData, AuthenticationData, AuthenticationService, authenticate_user,
  verify_authentication,
}
use go_service_template.User.Authentication.Sound.{
  LogsIn, find_by_login, authenticate_user-LogsIn, IsVerified, verify_authentication-IsVerified,
}
use go_service_template.Http.{
  Response, new_response, set_header, set_status_code, HandlerMetadata, Answer, status_of,
  status_code, encode_body, persist_write, finish_write, write, after_handle, serve, parse_request,
}
use go_service_template.Http.Parser.{Cookie, json_body, json_body-ok, cookie_value_of}
use go_service_template.User.Http.Accounts.{
  Headers, CredentialsIn, new_user_session_cookie, set_cookie, after_authenticate,
  authenticate_trimmed, authenticate_parsed, handle_authenticate, set_renewed, after_verify,
  verify_parsed, handle_verify,
}

-- An error is never answered with 200.
status_of-error :
    (e : Error) (r : Response) → status_code (record r { http_code = status_of (some e) 0 }) ≢ 200
unfolding status_of status_code
status_of-error e r = elim (Bool-cases (is e Sentinel.parsing_error)) [
  | inl a ↦ rw (a, status_of) (λ h. omega (arith, h))
  | inr a ↦ elim (Bool-cases (is e Sentinel.unauthenticated)) [
    | inl b ↦ rw (a, b, status_of) (λ h. omega (arith, h))
    | inr b ↦ elim (Bool-cases (is e Sentinel.permission_denied)) [
      | inl d ↦ rw (a, b, d, status_of) (λ h. omega (arith, h))
      | inr d ↦ rw (a, b, d, status_of) (λ h. omega (arith, h))
    ]
  ]
]

-- An answer that lets nobody in.
pub record Refuses (a : Answer) : Type 0 where
  pub status : a.status ≢ 200
  pub no_headers : a.answer_headers ≡ []
  pub no_body : a.answer_body ≡ []

error-Refuses : (e : Error) → Refuses (write (some e) new_response).1
unfolding write finish_write encode_body persist_write new_response
error-Refuses e = record {
  status = status_of-error e new_response;
  no_headers = refl;
  no_body = refl;
}

unauthorized-Refuses : (e : Error) → Refuses (write (some e) (set_status_code 401 new_response)).1
unfolding write finish_write encode_body persist_write new_response set_status_code status_of
    status_code
unauthorized-Refuses e = record {
  status = λ h. omega (arith, h);
  no_headers = refl;
  no_body = refl;
}

new_code : new_response.http_code ≡ 0
unfolding new_response
new_code = refl

new_body : new_response.body ≡ none
unfolding new_response
new_body = refl

module _ {C W : Type 0} (s : AuthenticationService C W)
    (add_cookie : Cookie → Headers → Headers) where
  -- The answers to a request for a session: a refusal, or the cookie of a token of a user that logs in
  -- with the credentials of the body.
  pub data LetsIn (c : C) (parsed : Result CredentialsIn) (w : W)
      : (HandlerMetadata × Answer) × W → Type 0 where
    refused :
        (m : HandlerMetadata) (a : Answer) (w' : W) → Refuses a → LetsIn c parsed w ((m, a), w')
    logged_in :
        (body : CredentialsIn) (token : SessionTokenData) (m : HandlerMetadata) (a : Answer)
        (w' : W)
        → parsed ≡ ok body
        → LogsIn s (trim_space body.password) (find_by_login s c body.login w).0
        → a.status ≡ 200
        → a.answer_headers ≡ add_cookie (new_user_session_cookie token) []
        → LetsIn c parsed w ((m, a), w')

  -- The service trims what the handler has trimmed.
  trimmed-LogsIn :
      (c : C) (login password : Text) (w : W)
      → LogsIn s (trim_space (trim_space password)) (find_by_login s c (trim_space login) w).0
      → LogsIn s (trim_space password) (find_by_login s c login w).0
  trimmed-LogsIn c login password w h =
      subst (λ x. LogsIn s x (find_by_login s c login w).0) (trim_space-trim_space password)
        (subst
          (λ x.
            LogsIn s (trim_space (trim_space password))
              (s.user_repo.find_one c (record { ids = []; logins = s.to_lower x ∷ [] }) w).0)
          (trim_space-trim_space login) h)

  after_authenticate-LetsIn :
      (c : C) (parsed : Result CredentialsIn) (w : W) (body : CredentialsIn)
      (r : Result SessionTokenData × W)
      → parsed ≡ ok body
      → authenticate_user s c (trim_space body.login) (trim_space body.password) w ≡ r
      → LetsIn c parsed w (after_handle (after_authenticate s add_cookie new_response r))
  unfolding after_authenticate after_handle write finish_write encode_body persist_write status_of
      status_code new_response set_cookie
  after_authenticate-LetsIn c parsed w body (err e, w') p h =
      LetsIn.refused _ _ w' (error-Refuses e)
  after_authenticate-LetsIn c parsed w body (ok token, w') p h =
      let l =
        authenticate_user-LogsIn s c (trim_space body.login) (trim_space body.password) w w' token
          h in
      LetsIn.logged_in body token _ _ w' p (trimmed-LogsIn c body.login body.password w l) refl refl

  authenticate_parsed-LetsIn :
      (c : C) (parsed : Result CredentialsIn) (w : W) (read : Result CredentialsIn)
      → ((body : CredentialsIn) → read ≡ ok body → parsed ≡ ok body)
      → LetsIn c parsed w (after_handle (authenticate_parsed s add_cookie c read new_response w))
  unfolding authenticate_parsed authenticate_trimmed after_handle
  authenticate_parsed-LetsIn c parsed w (err e) p = LetsIn.refused _ _ w (unauthorized-Refuses e)
  authenticate_parsed-LetsIn c parsed w (ok body) p =
      elim (Bool-cases (is_empty (trim_space body.login))) [
        | inl l ↦ rw (l, authenticate_trimmed) (LetsIn.refused _ _ w (unauthorized-Refuses _))
        | inr l ↦ elim (Bool-cases (is_empty (trim_space body.password))) [
          | inl q ↦ rw (l, q, authenticate_trimmed) (LetsIn.refused _ _ w (unauthorized-Refuses _))
          | inr q ↦
              rw (l, q, authenticate_trimmed)
                (after_authenticate-LetsIn c parsed w body
                  (authenticate_user s c (trim_space body.login) (trim_space body.password) w)
                  (p body refl) refl)
        ]
      ]

  -- Every request for a session is refused without a header or a body, or answered with 200 and the cookie
  -- of a session token: then the body is read, and `FindOne` with its trimmed login in lower case finds a
  -- user that is not deleted and whose hash matches the trimmed password.
  pub handle_authenticate-LetsIn :
      (c : C) (parsed : Result CredentialsIn) (w : W)
      → LetsIn c parsed w (serve (handle_authenticate s add_cookie c parsed) w)
  unfolding serve handle_authenticate parse_request
  handle_authenticate-LetsIn c parsed w =
      authenticate_parsed-LetsIn c parsed w (json_body parsed)
        (λ body h. json_body-ok parsed body h)

  -- The answers to a verification of the session cookie: a refusal, or the id of the user of its token.
  pub data Verifies (uuid_string : Uuid → String) (c : C) (cookies : List Cookie) (w : W)
      : (HandlerMetadata × Answer) × W → Type 0 where
    refused :
        (m : HandlerMetadata) (a : Answer) (w' : W)
        → Refuses a
        → Verifies uuid_string c cookies w ((m, a), w')
    verified :
        (token : String) (t : TokenData) (d : AuthenticationData) (m : HandlerMetadata) (a : Answer)
        (w' : W)
        → cookie_value_of (λ value. ok value) "ust" cookies ≡ ok token
        → s.decode token w ≡ ok t
        → IsVerified s c w t d
        → a.status ≡ 200
        → lookup "X-Auth-User-ID" a.answer_headers ≡ some (uuid_string t.user_id)
        → Verifies uuid_string c cookies w ((m, a), w')

  -- What is answered to data of a token.
  verified-status :
      (uuid_string : Uuid → String) (r : Response) (d : AuthenticationData) (w : W)
      → r.http_code ≡ 0
      → r.body ≡ none
      → let a = (after_handle (after_verify s add_cookie uuid_string r (ok d, w))).0.1 in
        (a.status ≡ 200) × (lookup "X-Auth-User-ID" a.answer_headers ≡ some (uuid_string d.user_id))
  unfolding after_handle after_verify write finish_write encode_body persist_write status_of
      status_code set_header set_renewed set_cookie
  verified-status uuid_string r d w k b = elim (Option-cases d.renewed_token) [
    | inl n ↦ rw (n, k, b) (refl, lookup-insert _ _ _ _)
    | inr (t, n) ↦ rw (n, k, b) (refl, lookup-insert _ _ _ _)
  ]

  after_verify-Verifies :
      (uuid_string : Uuid → String) (c : C) (cookies : List Cookie) (w : W) (token : String)
      (r : Result AuthenticationData × W)
      → cookie_value_of (λ value. ok value) "ust" cookies ≡ ok token
      → verify_authentication s c token w ≡ r
      → Verifies uuid_string c cookies w
          (after_handle (after_verify s add_cookie uuid_string new_response r))
  unfolding after_verify after_handle
  after_verify-Verifies uuid_string c cookies w token (err e, w') k h =
      Verifies.refused _ _ w' (error-Refuses e)
  after_verify-Verifies uuid_string c cookies w token (ok d, w') k h =
      let (t, decoded, v) = verify_authentication-IsVerified s c token w w' d h in
      let (status, header) = verified-status uuid_string new_response d w' new_code new_body in
      Verifies.verified token t d _ _ w' k decoded v status
        (header ∙ ap (λ id. some (uuid_string id)) v.0)

  parsed-Verifies :
      (uuid_string : Uuid → String) (c : C) (cookies : List Cookie) (w : W) (read : Result String)
      → cookie_value_of (λ value. ok value) "ust" cookies ≡ read
      → Verifies uuid_string c cookies w
          (after_handle (verify_parsed s add_cookie uuid_string c read new_response w))
  unfolding verify_parsed after_handle
  parsed-Verifies uuid_string c cookies w (err e) k =
      Verifies.refused _ _ w (unauthorized-Refuses e)
  parsed-Verifies uuid_string c cookies w (ok token) k =
      after_verify-Verifies uuid_string c cookies w token (verify_authentication s c token w) k refl

  -- Every verification of a session cookie is refused without a header or a body, or answered with 200 and
  -- the id of the user of the token: then the last session cookie holds the token, it is decoded, and it
  -- is younger than the renewal interval or `FindOne` finds its user and it is not deleted.
  pub handle_verify-Verifies :
      (uuid_string : Uuid → String) (c : C) (cookies : List Cookie) (w : W)
      → Verifies uuid_string c cookies w
          (serve (handle_verify s add_cookie uuid_string c cookies) w)
  unfolding serve handle_verify parse_request
  handle_verify-Verifies uuid_string c cookies w = parsed-Verifies uuid_string c cookies w _ refl
