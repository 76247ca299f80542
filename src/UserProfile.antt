-- ===== src/UserProfile.antt =====
-- The user profile service of internal/userprofile/app/service/userprofile.go, over its domain
-- (internal/userprofile/domain/userprofile.go).
pub mod Stale
pub mod Deleted
pub mod Http
pub mod Remote
pub mod Repository
mod Examples
use go_service_template.Common.{
  ℕ, String, Bool, true, false, not, ◌||◌, Option, none, some, List, [], ◌∷◌, if◌then◌else◌,
  Sentinel, Error, is, Result, ok, err,
}
use go_service_template.Common.Text.{Text, is_empty, trim_space}
use go_service_template.Message.{Uuid, Time, Effect, and_then, wrap_error}
use go_service_template.Auth.{Authentication, check}
use go_service_template.Auth.Permissions.{can_get_user_profile, can_update_user_profile}
use go_service_template.User.{Transaction, UserDeleted}

pub record UserProfile : Type 0 where
  pub id : Uuid
  pub first_name : Text
  pub last_name : Text

-- The data of a user that the user service returns.
pub record RemoteUser : Type 0 where
  pub id : Uuid
  pub deleted_at : Option Time

-- `userProfileService`; `insert_key` is `Insert` of the idempotency keys.
pub record UserProfileService (C W : Type 0) : Type 1 where
  pub get_user : C → Uuid → W → Result RemoteUser × W
  pub store_profile : C → UserProfile → Effect W
  pub find_profile_by_id : C → Uuid → W → Result UserProfile × W
  pub delete_profile_by_id : C → Uuid → Effect W
  pub authentication : C → Option Authentication
  pub insert_key : C → Uuid → String → Effect W
  pub transaction : Transaction C W

abbrev pub is_removed : RemoteUser → Bool
is_removed u = elim u.deleted_at [ none ↦ false | some _ ↦ true ]

-- `errors.Is(err, user.ErrUserNotFound) || err == nil && userData.DeletedAt != nil`, and then the
-- error of the call.
pub user_error : Result RemoteUser → Option Error
user_error (ok u) =
    if is_removed u then some (Error.sentinel Sentinel.profile_user_not_found) else none
user_error (err e) =
    if is e Sentinel.client_user_not_found
    then some (Error.sentinel Sentinel.profile_user_not_found)
    else some (Error.wrap "find user from userservice: %w" e)

-- `err != nil` of the deletion, where a profile that is not there counts as deleted.
pub after_delete_profile : {W : Type 0} → Option Error × W → Option Error × W
after_delete_profile (none, w) = (none, w)
after_delete_profile (some e, w) =
    if is e Sentinel.domain_user_profile_not_found
    then (none, w)
    else (some (Error.wrap "delete userprofile by id: %w" e), w)

pub return_profile : {W : Type 0} → UserProfile → Option Error × W → Result UserProfile × W
return_profile profile (none, w) = (ok profile, w)
return_profile profile (some e, w) = (err e, w)

module _ {C W : Type 0} (s : UserProfileService C W) where
  open s use {
    get_user, store_profile, find_profile_by_id, delete_profile_by_id, authentication, insert_key,
    transaction,
  }

  -- The call of the user service, and the checks after it.
  pub check_user : C → Uuid → Effect W
  unfolding user_error
  check_user c id w = let (r, w') = get_user c id w in (user_error r, w')

  -- `Get`; the result of the generated converter has the same fields.
  pub after_find_profile : C → Uuid → Result UserProfile × W → Result UserProfile × W
  unfolding check_user return_profile
  after_find_profile c id (ok profile, w) = return_profile profile (check_user c id w)
  after_find_profile c id (err e, w) =
      if is e Sentinel.domain_user_profile_not_found
      then (err (Error.sentinel Sentinel.user_profile_not_found), w)
      else (err (Error.wrap "find userprofile by id: %w" e), w)

  unfoldable pub get_profile : C → Uuid → W → Result UserProfile × W
  unfolding after_find_profile
  get_profile c id w = elim (check (authentication c) (can_get_user_profile id)) [
    | some e ↦ (err e, w)
    | none ↦ after_find_profile c id (find_profile_by_id c id w)
  ]

  -- `Update`: the names are tested without the spaces around them, and stored with them.
  pub store_update : C → UserProfile → Effect W
  store_update c profile w =
      wrap_error (Error.wrap "store userprofile: %w") (store_profile c profile w)

  unfoldable pub update_profile : C → UserProfile → Effect W
  unfolding check_user store_update trim_space
  update_profile c profile w =
      elim (check (authentication c) (can_update_user_profile profile.id)) [
        | some e ↦ (some e, w)
        | none ↦
            if is_empty (trim_space profile.first_name) || is_empty (trim_space profile.last_name)
            then (some (Error.sentinel Sentinel.invalid_user_profile_data), w)
            else and_then (check_user c profile.id w) (store_update c profile)
      ]

  -- The function that `HandleUserDeleted` runs within the transaction.
  pub delete_once : UserDeleted → C → Effect W
  unfolding after_delete_profile
  delete_once event c w =
      and_then (insert_key c event.event_id "handle_user_deleted" w)
        (λ v. after_delete_profile (delete_profile_by_id c event.user_id v))

  abbrev pub run_delete_once : UserDeleted → C → Effect W
  run_delete_once event c w =
      let (e, (_, w')) =
        transaction.within_context (λ d (a, v). let (e, v') = delete_once event d v in (e, (a, v')))
          [] c (tt, w) in
      (e, w')

  pub after_get_user : UserDeleted → C → Result RemoteUser × W → Option Error × W
  unfolding delete_once
  after_get_user event c (ok u, w) = if is_removed u then run_delete_once event c w else (none, w)
  after_get_user event c (err e, w) =
      if is e Sentinel.client_user_not_found
      then (none, w)
      else (some (Error.wrap "find user from userservice: %w" e), w)

  unfoldable pub handle_user_deleted : C → UserDeleted → Effect W
  unfolding after_get_user
  handle_user_deleted c event w = after_get_user event c (get_user c event.user_id w)
