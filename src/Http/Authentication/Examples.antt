-- ===== src/Http/Authentication/Examples.antt =====
-- A request with the header of an administrator; the handler leaves the authentication behind.
use go_service_template.Common.{ℕ, String, ◌≡◌, Option, none, List, [], ◌∷◌, Error, err}
use go_service_template.Auth.{Authentication, Token}
use go_service_template.Http.Authentication.{
  user_id_token_provider, admin_user_id_token_provider, FirstToken, with_auth,
  with_authentication_requirement, protected, with_auth-protected,
}

abbrev refuse : ℕ → Error → ℕ → (ℕ × Option Authentication) × ℕ
refuse code e w = ((code, none), w)

abbrev handler : Option Authentication → ℕ → (ℕ × Option Authentication) × ℕ
handler c w = ((200, c), w)

abbrev providers : List (List (String × String) → Option Token)
providers = user_id_token_provider (λ s. err (Error.external 1)) ∷ admin_user_id_token_provider ∷ []

abbrev headers : List (String × String)
headers = ("X-Auth-AdminUser-ID", "root") ∷ []

with_auth-protected_example :
    (found : Option Token) × FirstToken headers providers found
    × (with_auth refuse providers headers (with_authentication_requirement refuse handler) none 3
        ≡ protected refuse found handler 3)
with_auth-protected_example = with_auth-protected refuse providers headers none handler 3
