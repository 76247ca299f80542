-- ===== src/UserProfile/Examples.antt =====
-- The user profile service with one profile, of a user who is not deleted.
use go_service_template.Common.{ℕ, refl, Option, none, some, [], ◌∷◌, ok}
use go_service_template.Auth.{Authentication, check}
use go_service_template.Auth.Permissions.{can_get_user_profile}
use go_service_template.User.{Transaction}
use go_service_template.UserProfile.{UserProfile, UserProfileService, get_profile}
use go_service_template.UserProfile.Stale.{IsShown, get_profile-IsShown}

abbrev profile : UserProfile
profile = record { id = 3; first_name = 97 ∷ []; last_name = 98 ∷ [] }

abbrev owner : Option Authentication
owner = some (record {
  principal = some (record { user_id = some 3; admin_user_id = none; service_name = none });
})

abbrev database : Transaction ℕ ℕ
database = record { within_context = λ fn locks c s. fn c s; lock_update = λ exclusively c. c }

abbrev service : UserProfileService ℕ ℕ
service = record {
  get_user = λ c id w. (ok (record { id = id; deleted_at = none }), w);
  store_profile = λ c p w. (none, w);
  find_profile_by_id = λ c id w. (ok profile, w);
  delete_profile_by_id = λ c id w. (none, w);
  authentication = λ c. owner;
  insert_key = λ c id key w. (none, w);
  transaction = database;
}

get_profile-IsShown_example : IsShown service 0 3 profile (ok profile, 7)
unfolding get_profile check can_get_user_profile
get_profile-IsShown_example = get_profile-IsShown service 0 3 profile 7 7 refl
