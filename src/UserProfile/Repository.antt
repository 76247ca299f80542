-- ===== src/UserProfile/Repository.antt =====
-- The repository of internal/userprofile/infra/sql/userprofilerepository.go. A query that the code builds is a
-- value, and the database, which runs it, is a parameter, as is the generated converter of rows.
pub mod Rows
mod Examples
use go_service_template.Common.{
  ℕ, zero, suc, Option, none, some, Error, Sentinel, is, Result, ok, err, if◌then◌else◌,
}
use go_service_template.Common.Text.{Text}
use go_service_template.Message.{Uuid, Effect}
use go_service_template.UserProfile.{UserProfile}

-- The columns of `user_profile`.
pub record SqlxUserProfile : Type 0 where
  pub id : Uuid
  pub first_name : Text
  pub last_name : Text

-- The statements on the table; the insertion updates the row of its id if there is one.
pub data ProfileQuery : Type 0 where
  select_by_id delete_by_id : Uuid → ProfileQuery
  upsert : SqlxUserProfile → ProfileQuery

-- The methods of the `Client` with these queries; `build` is the error of `ToSql`, and what a deletion
-- returns is `RowsAffected`.
pub record ProfileClient (C W : Type 0) : Type 0 where
  pub build : ProfileQuery → Option Error
  pub get : C → Uuid → W → Result SqlxUserProfile × W
  pub exec_upsert : C → SqlxUserProfile → Effect W
  pub exec_delete : C → Uuid → W → Result (Result ℕ) × W
  pub to_domain_user_profile : SqlxUserProfile → UserProfile

abbrev pub profile_row : UserProfile → SqlxUserProfile
profile_row p = record { id = p.id; first_name = p.first_name; last_name = p.last_name }

abbrev pub build_error : Error → Error
build_error e = Error.wrap "build query: %w" e

module _ {W : Type 0} where
  unfoldable pub after_deleted_rows : Result ℕ → Effect W
  after_deleted_rows (err e) w = (some (Error.wrap "get rows affected: %w" e), w)
  after_deleted_rows (ok zero) w = (some (Error.sentinel Sentinel.domain_user_profile_not_found), w)
  after_deleted_rows (ok (suc n)) w = (none, w)

  unfoldable pub after_exec_delete : Result (Result ℕ) × W → Option Error × W
  unfolding after_deleted_rows
  after_exec_delete (err e, w) = (some e, w)
  after_exec_delete (ok affected, w) = after_deleted_rows affected w

module _ {C W : Type 0} (client : ProfileClient C W) where
  open client use {build, get, exec_upsert, exec_delete, to_domain_user_profile}

  unfoldable pub store_built : C → SqlxUserProfile → Option Error → Effect W
  store_built c r (some e) w = (some (build_error e), w)
  store_built c r none w = exec_upsert c r w

  -- `Store`.
  unfoldable pub store_profile_row : C → UserProfile → Effect W
  unfolding store_built
  store_profile_row c profile w =
      let r = profile_row profile in store_built c r (build (ProfileQuery.upsert r)) w

  unfoldable pub convert_profile : Result SqlxUserProfile × W → Result UserProfile × W
  convert_profile (ok r, w) = (ok (to_domain_user_profile r), w)
  convert_profile (err e, w) =
      if is e Sentinel.no_rows
      then (err (Error.sentinel Sentinel.domain_user_profile_not_found), w)
      else (err e, w)

  unfoldable pub find_built : C → Uuid → Option Error → W → Result UserProfile × W
  unfolding convert_profile
  find_built c id (some e) w = (err (build_error e), w)
  find_built c id none w = convert_profile (get c id w)

  -- `FindByID`.
  unfoldable pub find_profile_row : C → Uuid → W → Result UserProfile × W
  unfolding find_built
  find_profile_row c id w = find_built c id (build (ProfileQuery.select_by_id id)) w

  unfoldable pub delete_profile_built : C → Uuid → Option Error → Effect W
  unfolding after_exec_delete
  delete_profile_built c id (some e) w = (some (build_error e), w)
  delete_profile_built c id none w = after_exec_delete (exec_delete c id w)

  -- `DeleteByID`.
  unfoldable pub delete_profile_row : C → Uuid → Effect W
  unfolding delete_profile_built
  delete_profile_row c id w = delete_profile_built c id (build (ProfileQuery.delete_by_id id)) w
