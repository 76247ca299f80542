-- ===== src/Auth.antt =====
-- Authorisation: pkg/auth (auth.go, permission.go), the principals of internal/pkg/auth
-- (provider.go, token.go), and the permissions of the two services (internal/user/app/permission and
-- internal/userprofile/app/permission).
pub mod Permissions
pub mod Stored
mod Examples
use go_service_template.Common.{
  ℕ, String, Bool, true, false, Option, none, some, if◌then◌else◌, Sentinel, Error, Result, ok, err,
}
use go_service_template.Message.{Uuid}

pub record Principal : Type 0 where
  pub user_id : Option Uuid
  pub admin_user_id : Option String
  pub service_name : Option String

-- An `auth.Auth`: the pointer `AuthPrincipal`.
pub record Authentication : Type 0 where
  pub principal : Option Principal

unfoldable pub is_authenticated : Authentication → Bool
is_authenticated a = elim a.principal [ none ↦ false | some _ ↦ true ]

pub data PrincipalType : Type 0 where
  user admin_user service unknown : PrincipalType

-- The three types of tokens, and any other value of the interface.
pub data Token : Type 0 where
  user_id_token : Uuid → Token
  admin_user_id_token : String → Token
  service_name_token : String → Token
  other_token : PrincipalType → Token

pub token_type : Token → PrincipalType
token_type (user_id_token _) = PrincipalType.user
token_type (admin_user_id_token _) = PrincipalType.admin_user
token_type (service_name_token _) = PrincipalType.service
token_type (other_token t) = t

-- `provider.Authenticate`.
unfoldable pub authenticate : Token → Result Authentication
authenticate (user_id_token id) = ok (record {
  principal = some (record { user_id = some id; admin_user_id = none; service_name = none });
})
authenticate (admin_user_id_token id) = ok (record {
  principal = some (record { user_id = none; admin_user_id = some id; service_name = none });
})
authenticate (service_name_token name) = ok (record {
  principal = some (record { user_id = none; admin_user_id = none; service_name = some name });
})
authenticate (other_token t) = err (Error.message "unknown token with type %s")

-- A switch on which field of a principal is not nil, in the order of the fields.
abbrev pub switch_fields {ℓ} :
    {A : Type ℓ}
    → Option Uuid
    → Option String
    → Option String
    → (Uuid → A)
    → (String → A)
    → (String → A)
    → A
    → A
switch_fields (some id) admin name on_user on_admin on_service otherwise = on_user id
switch_fields none (some id) name on_user on_admin on_service otherwise = on_admin id
switch_fields none none (some name) on_user on_admin on_service otherwise = on_service name
switch_fields none none none on_user on_admin on_service otherwise = otherwise

abbrev pub switch {ℓ} : {A : Type ℓ} → Principal → (Uuid → A) → (String → A) → (String → A) → A → A
switch p = switch_fields p.user_id p.admin_user_id p.service_name

unfoldable pub principal_type : Principal → PrincipalType
principal_type p =
    switch p (λ _. PrincipalType.user) (λ _. PrincipalType.admin_user) (λ _. PrincipalType.service)
      PrincipalType.unknown

-- `Principal.ID`; `format` is `uuid.UUID.String`.
pub principal_id : (Uuid → String) → Principal → Option String
principal_id format p = switch p (λ id. some (format id)) some some none

-- A `Permission` and a `PermissionFilter`.
abbrev pub Permission : Type 0
Permission = Authentication → Result Bool

abbrev pub PermissionFilter : Type 0 → Type 0
PermissionFilter A = Authentication → Result A

pub check_allowed : Result Bool → Option Error
check_allowed (err e) = some (Error.wrap "check permission: %w" e)
check_allowed (ok true) = none
check_allowed (ok false) = some (Error.sentinel Sentinel.permission_denied)

-- `permissionService.Check`, given what `GetAuthentication` finds in the context.
unfoldable pub check : Option Authentication → Permission → Option Error
unfolding check_allowed
check none permission = some (Error.message "authentication not found")
check (some a) permission = check_allowed (permission a)

-- `permissionService.Filter`, with the type assertion of `FilterByPermissions`, which holds.
unfoldable pub filter : {A : Type 0} → Option Authentication → PermissionFilter A → Result A
filter none f = err (Error.message "authentication not found")
filter (some a) f = f a
