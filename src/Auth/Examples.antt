-- ===== src/Auth/Examples.antt =====
-- Authorisation at concrete principals.
use go_service_template.Common.{ℕ, ◌≡◌, nat_eq, ◌&&◌, none, some, [], ◌∷◌}
use go_service_template.Common.Assoc.{contains}
use go_service_template.Auth.{Authentication, check, filter}
use go_service_template.Auth.Permissions.{can_read_user, can_read_user_filter}
use go_service_template.Auth.Permissions.Laws.{passed, returned, filter-can_read_user}

abbrev user_3 : Authentication
user_3 = record {
  principal = some (record { user_id = some 3; admin_user_id = none; service_name = none });
}

filter-can_read_user_example :
    returned 3 (filter (some user_3) (can_read_user_filter (3 ∷ 4 ∷ [])))
    ≡ (contains {K = ℕ} 3 (3 ∷ 4 ∷ []) && passed (check (some user_3) (can_read_user 3)))
filter-can_read_user_example = filter-can_read_user (some user_3) (3 ∷ 4 ∷ []) 3
