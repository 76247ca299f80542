-- ===== src/Http/Authentication.antt =====
-- The authentication of requests: the middlewares of pkg/http/auth.go, and the tokens that
-- internal/pkg/http/authtoken.go finds in the headers. A context is the authentication that it carries,
-- and `refuse` is `writeHandlerResult`.
mod Examples
use go_service_template.Common.{
  ℕ, String, Bool, true, false, ◌≡◌, refl, Option, none, some, List, [], ◌∷◌, Error, Sentinel,
  Result, ok, err, string_eq, ◌==◌, nat_beq, if◌then◌else◌, Option-cases, inl, inr,
}
use go_service_template.Common.Assoc.{lookup}
use go_service_template.Message.{Uuid}
use go_service_template.Auth.{Authentication, Token, authenticate, is_authenticated}
use go_service_template.Auth.Stored.{with_authentication, is_context_authenticated}
use go_service_template.Http.{parse_typed_value_impl}

-- `Get` of a header, which is empty if it is missing.
abbrev value_or_empty : Option String → String
value_or_empty none = ""
value_or_empty (some value) = value

unfoldable pub get_header : String → List (String × String) → String
get_header key headers = value_or_empty (lookup key headers)

module _ {A : Type 0} where
  -- `Header`, where `parse` is `ParseTypedValue` at its type.
  unfoldable pub parse_header : (String → Result A) → String → String → Result A
  unfolding parse_typed_value_impl
  parse_header parse key value =
      if value == ""
      then err
          (Error.wrap "%w: header with key %s not found" (Error.sentinel Sentinel.parsing_error))
      else parse_typed_value_impl (parse value)

  unfoldable pub header : (String → Result A) → String → List (String × String) → Result A
  unfolding parse_header get_header
  header parse key headers = parse_header parse key (get_header key headers)

-- The token made of a header, unless it is not parsed, or is `uuid.Nil` or the empty text.
unfoldable pub user_id_token_of : Result Uuid → Option Token
user_id_token_of (err e) = none
user_id_token_of (ok id) = if nat_beq id 0 then none else some (Token.user_id_token id)

unfoldable pub admin_user_id_token_of : Result String → Option Token
admin_user_id_token_of (err e) = none
admin_user_id_token_of (ok id) = if id == "" then none else some (Token.admin_user_id_token id)

unfoldable pub service_name_token_of : Result String → Option Token
service_name_token_of (err e) = none
service_name_token_of (ok name) = if name == "" then none else some (Token.service_name_token name)

-- `UserIDTokenProvider`, `AdminUserIDTokenProvider` and `ServiceNameTokenProvider`, on the headers.
unfoldable pub user_id_token_provider :
    (String → Result Uuid) → List (String × String) → Option Token
unfolding user_id_token_of header
user_id_token_provider parse headers = user_id_token_of (header parse "X-Auth-User-ID" headers)

unfoldable pub admin_user_id_token_provider : List (String × String) → Option Token
unfolding admin_user_id_token_of header
admin_user_id_token_provider headers =
    admin_user_id_token_of (header (λ value. ok value) "X-Auth-AdminUser-ID" headers)

unfoldable pub service_name_token_provider : List (String × String) → Option Token
unfolding service_name_token_of header
service_name_token_provider headers =
    service_name_token_of (header (λ value. ok value) "X-Auth-Service-Name" headers)

-- The loop over the token providers, for a request of type `R`.
unfoldable pub first_token : {R : Type 0} → List (R → Option Token) → R → Option Token
first_token [] request = none
first_token (provider ∷ providers) request =
    let rest = first_token providers request in
    elim (provider request) [ some token ↦ some token | none ↦ rest ]

-- The first of the providers that makes a token of a request.
pub data FirstToken {R : Type 0} (request : R)
    : List (R → Option Token) → Option Token → Type 0 where
  nowhere : FirstToken request [] none
  here :
      (provider : R → Option Token) (providers : List (R → Option Token)) (token : Token)
      → provider request ≡ some token
      → FirstToken request (provider ∷ providers) (some token)
  later :
      (provider : R → Option Token) (providers : List (R → Option Token)) (found : Option Token)
      → provider request ≡ none
      → FirstToken request providers found
      → FirstToken request (provider ∷ providers) found

first_token-FirstToken :
    {R : Type 0}
    → (providers : List (R → Option Token)) (request : R)
    → FirstToken request providers (first_token providers request)
unfolding first_token
first_token-FirstToken [] request = FirstToken.nowhere
first_token-FirstToken (provider ∷ providers) request = elim (Option-cases (provider request)) [
  | inl e ↦
      rw (e, first_token)
        (FirstToken.later provider providers _ e (first_token-FirstToken providers request))
  | inr (token, e) ↦ rw (e, first_token) (FirstToken.here provider providers token e)
]

-- A handler, on the authentication of its context; `B` is what it leaves behind.
module _ {W B : Type 0} (refuse : ℕ → Error → W → B × W) where
  unfoldable pub after_authenticate :
      Result Authentication
      → Option Authentication
      → (Option Authentication → W → B × W)
      → W
      → B × W
  unfolding with_authentication
  after_authenticate (err e) c handler w = refuse 500 e w
  after_authenticate (ok a) c handler w = handler (with_authentication c a) w

  -- `WithAuth`.
  unfoldable pub with_auth :
      {R : Type 0}
      → List (R → Option Token)
      → R
      → (Option Authentication → W → B × W)
      → Option Authentication
      → W
      → B × W
  unfolding first_token after_authenticate authenticate with_authentication
  with_auth providers request handler c w = elim (first_token providers request) [
    | none ↦ handler (with_authentication c (record { principal = none })) w
    | some token ↦ after_authenticate (authenticate token) c handler w
  ]

  unfoldable pub after_requirement :
      Result Bool → Option Authentication → (Option Authentication → W → B × W) → W → B × W
  after_requirement (err e) c handler w = refuse 500 e w
  after_requirement (ok true) c handler w = handler c w
  after_requirement (ok false) c handler w = refuse 401 (Error.sentinel Sentinel.unauthenticated) w

  -- `WithAuthenticationRequirement`.
  unfoldable pub with_authentication_requirement :
      (Option Authentication → W → B × W) → Option Authentication → W → B × W
  unfolding after_requirement is_context_authenticated
  with_authentication_requirement handler c w =
      after_requirement (is_context_authenticated c) c handler w

  -- What a handler behind both middlewares is given, or the refusal instead of it.
  abbrev pub protected : Option Token → (Option Authentication → W → B × W) → W → B × W
  protected none handler w = refuse 401 (Error.sentinel Sentinel.unauthenticated) w
  protected (some (Token.user_id_token id)) handler w =
      handler
        (some (record {
          principal =
              some (record { user_id = some id; admin_user_id = none; service_name = none });
        }))
        w
  protected (some (Token.admin_user_id_token id)) handler w =
      handler
        (some (record {
          principal =
              some (record { user_id = none; admin_user_id = some id; service_name = none });
        }))
        w
  protected (some (Token.service_name_token name)) handler w =
      handler
        (some (record {
          principal =
              some (record { user_id = none; admin_user_id = none; service_name = some name });
        }))
        w
  protected (some (Token.other_token t)) handler w =
      refuse 500 (Error.message "unknown token with type %s") w

  authenticated-handler :
      (token : Token) (c : Option Authentication) (handler : Option Authentication → W → B × W)
      (w : W)
      → after_authenticate (authenticate token) c (with_authentication_requirement handler) w
        ≡ protected (some token) handler w
  unfolding after_authenticate authenticate with_authentication with_authentication_requirement
      after_requirement is_context_authenticated is_authenticated
  authenticated-handler (Token.user_id_token id) c handler w = refl
  authenticated-handler (Token.admin_user_id_token id) c handler w = refl
  authenticated-handler (Token.service_name_token name) c handler w = refl
  authenticated-handler (Token.other_token t) c handler w = refl

  -- Behind both middlewares a handler runs exactly for a request whose first token, that of the first provider
  -- that makes one, is of a known type, and then with the principal of this token: the user, the
  -- administrator or the service that it names, and nothing else. A request without a token is answered with
  -- 401, and one whose first token is of an unknown type with 500.
  pub with_auth-protected :
      {R : Type 0} (providers : List (R → Option Token)) (request : R) (c : Option Authentication)
      (handler : Option Authentication → W → B × W) (w : W)
      → (found : Option Token) × FirstToken request providers found
        × (with_auth providers request (with_authentication_requirement handler) c w
            ≡ protected found handler w)
  unfolding with_auth with_authentication with_authentication_requirement after_requirement
      is_context_authenticated is_authenticated
  with_auth-protected providers request c handler w = (
    first_token providers request,
    first_token-FirstToken providers request,
    elim (Option-cases (first_token providers request)) [
      | inl e ↦ rw (e, with_auth)
      | inr (token, e) ↦ rw (e, with_auth) (authenticated-handler token c handler w)
    ],
  )
