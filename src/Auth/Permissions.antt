-- ===== src/Auth/Permissions.antt =====
-- The permissions of internal/user/app/permission/user.go and of
-- internal/userprofile/app/permission/userprofile.go.
pub mod Laws
use go_service_template.Common.{
  ℕ, Bool, true, false, Option, none, some, List, [], ◌∷◌, if◌then◌else◌, ◌==◌, nat_eq, Result, ok,
  err,
}
use go_service_template.Message.{Uuid}
use go_service_template.Auth.{Principal, Authentication, Permission, PermissionFilter, switch}

pub principal_can_read : Uuid → Option Principal → Bool
principal_can_read id none = false
principal_can_read id (some p) = switch p (λ own. own == id) (λ _. true) (λ _. true) false

unfoldable pub can_read_user : Uuid → Permission
unfolding principal_can_read
can_read_user id a = ok (principal_can_read id a.principal)

-- for _, id := range ids { if id.UUID == userID { return []domain.UserID{id} } }; return nil
pub find_own : Uuid → List Uuid → List Uuid
find_own own [] = []
find_own own (id ∷ ids) = if id == own then id ∷ [] else find_own own ids

pub principal_filter : List Uuid → Option Principal → List Uuid
unfolding find_own
principal_filter ids none = []
principal_filter ids (some p) = switch p (λ own. find_own own ids) (λ _. ids) (λ _. ids) []

unfoldable pub can_read_user_filter : List Uuid → PermissionFilter (List Uuid)
unfolding principal_filter
can_read_user_filter ids a = ok (principal_filter ids a.principal)

-- Whether the principal is the user or an administrator: the code of `CanDeleteUser`, and again of
-- `CanGetUserProfile` and `CanUpdateUserProfile`.
pub principal_can_change : Uuid → Option Principal → Bool
principal_can_change id none = false
principal_can_change id (some p) = switch p (λ own. own == id) (λ _. true) (λ _. false) false

unfoldable pub can_delete_user : Uuid → Permission
unfolding principal_can_change
can_delete_user id a = ok (principal_can_change id a.principal)

unfoldable pub can_get_user_profile : Uuid → Permission
unfolding principal_can_change
can_get_user_profile id a = ok (principal_can_change id a.principal)

unfoldable pub can_update_user_profile : Uuid → Permission
unfolding principal_can_change
can_update_user_profile id a = ok (principal_can_change id a.principal)
