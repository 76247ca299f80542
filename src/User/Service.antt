-- ===== src/User/Service.antt =====
-- The user service of internal/user/app/service/user.go: `Register`, `Delete`, `GetByID` and
-- `GetByIDs`.
pub mod Register
pub mod Delete
use go_service_template.Common.{
  ℕ, String, Bool, true, false, ◌||◌, Option, none, some, List, [], ◌∷◌, map, if◌then◌else◌, ◌==◌,
  string_eq, Sentinel, Error, is, Result, ok, err,
}
use go_service_template.Common.Text.{Text, is_empty, trim_space}
use go_service_template.Message.{Uuid, Time, Effect, wrap_error}
use go_service_template.Auth.{Authentication, check, filter}
use go_service_template.Auth.Permissions.{can_read_user, can_read_user_filter, can_delete_user}
use go_service_template.User.{
  User, UserRepository, FindUserSpecification, Transaction, Lock, set_deleted_at,
  within_transaction_with_result,
}

pub record UserCredentials : Type 0 where
  pub login : Text
  pub password : Text

pub record UserData : Type 0 where
  pub id : Uuid
  pub login : Text
  pub deleted_at : Option Time

-- `userService`, with the functions that it calls: `strings.ToLower`, `time.Now`, `uuid.New`, and the
-- authentication that a context carries.
pub record UserService (C W : Type 0) : Type 1 where
  pub user_repo : UserRepository C W
  pub hash_password : Text → Result String
  pub authentication : C → Option Authentication
  pub transaction : Transaction C W
  pub to_lower : Text → Text
  pub now : W → Time
  pub new_uuid : W → Uuid × W

-- updateUsersLock
abbrev pub update_users_lock : Lock
update_users_lock = record { key = "update_users"; shared = false }

abbrev pub by_login : Text → FindUserSpecification
by_login login = record { ids = []; logins = login ∷ [] }

abbrev pub by_id : Uuid → FindUserSpecification
by_id id = record { ids = id ∷ []; logins = [] }

-- What `Register` makes of a user that has the login already.
pub check_existing : String → User → Result Uuid
check_existing password_hash user = elim user.deleted_at [
  | some _ ↦ err (Error.sentinel Sentinel.user_is_already_deleted)
  | none ↦
      if user.password_hash == password_hash
      then ok user.id
      else err (Error.sentinel Sentinel.user_already_exists)
]

-- if err != nil { return domain.UserID{}, fmt.Errorf("store user: %w", err) }; return userID, nil
pub return_id : {W : Type 0} → Uuid → Option Error × W → Result Uuid × W
return_id id (none, w) = (ok id, w)
return_id id (some e, w) = (err (Error.wrap "store user: %w" e), w)

module _ {C W : Type 0} (s : UserService C W) where
  open s use {user_repo, hash_password, authentication, transaction, to_lower, now, new_uuid}

  abbrev new_user : Uuid → Text → String → User
  new_user id login password_hash = record {
    id = id;
    login = login;
    password_hash = password_hash;
    deleted_at = none;
    changes = [];
  }

  pub create_user : C → Text → String → W → Result Uuid × W
  unfolding return_id
  create_user c login password_hash w =
      let (id, w') = user_repo.next_id w in
      return_id id (user_repo.store c (new_user id login password_hash) w')

  pub after_find_login : C → Text → String → Result User × W → Result Uuid × W
  unfolding create_user check_existing
  after_find_login c login password_hash (ok user, w) = (check_existing password_hash user, w)
  after_find_login c login password_hash (err e, w) =
      if is e Sentinel.domain_user_not_found
      then create_user c login password_hash w
      else (err (Error.wrap "find user by login: %w" e), w)

  -- The closure `registerUserImpl`.
  pub register_user_impl : Text → String → C → W → Result Uuid × W
  unfolding after_find_login
  register_user_impl login password_hash c w =
      after_find_login c login password_hash (user_repo.find_one c (by_login login) w)

  pub after_hash : Text → Result String → C → W → Result Uuid × W
  unfolding register_user_impl
  after_hash login (err e) c w = (err (Error.wrap "hash password: %w" e), w)
  after_hash login (ok password_hash) c w =
      within_transaction_with_result 0 transaction
        (register_user_impl (to_lower login) password_hash) (update_users_lock ∷ []) c w

  unfoldable pub register : C → UserCredentials → W → Result Uuid × W
  unfolding after_hash trim_space
  register c credentials w =
      let login = trim_space credentials.login in
      let password = trim_space credentials.password in
      if is_empty login || is_empty password
      then (err (Error.sentinel Sentinel.invalid_user_credentials), w)
      else after_hash login (hash_password password) c w

  -- `Delete`, after the user was found.
  pub delete_found : C → User → Effect W
  unfolding set_deleted_at
  delete_found c user w = elim user.deleted_at [
    | some _ ↦ (none, w)
    | none ↦
        let (event_id, w') = new_uuid w in
        wrap_error (Error.wrap "store user: %w")
          (user_repo.store c (set_deleted_at (now w) event_id user) w')
  ]

  pub after_find_id : C → Result User × W → Option Error × W
  unfolding delete_found
  after_find_id c (ok user, w) = delete_found c user w
  after_find_id c (err e, w) =
      if is e Sentinel.domain_user_not_found
      then (none, w)
      else (some (Error.wrap "find user by id: %w" e), w)

  -- The function that `Delete` runs within the transaction.
  pub delete_impl : Uuid → C → Effect W
  unfolding after_find_id
  delete_impl id c w =
      after_find_id c (user_repo.find_one (transaction.lock_update true c) (by_id id) w)

  abbrev pub with_unit : {S : Type 0} → S → Option Error × W → Option Error × (S × W)
  with_unit a (e, w) = (e, (a, w))

  pub after_check : Option Error → Uuid → C → Effect W
  unfolding delete_impl
  after_check (some e) id c w = (some e, w)
  after_check none id c w =
      let (e, (_, w')) =
        transaction.within_context (λ d (a, v). with_unit a (delete_impl id d v)) [] c (tt, w) in
      (e, w')

  unfoldable pub delete : C → Uuid → Effect W
  unfolding after_check
  delete c id w = after_check (check (authentication c) (can_delete_user id)) id c w

  -- `GetByID`; the converter to a `UserData` is a parameter.
  unfoldable pub after_find_one : (User → UserData) → Result User × W → Result UserData × W
  after_find_one to_data (ok user, w) = (ok (to_data user), w)
  after_find_one to_data (err e, w) = (
    err (if is e Sentinel.domain_user_not_found then Error.sentinel Sentinel.user_not_found else e),
    w,
  )

  unfoldable pub get_by_id : (User → UserData) → C → Uuid → W → Result UserData × W
  unfolding after_find_one
  get_by_id to_data c id w = elim (check (authentication c) (can_read_user id)) [
    | some e ↦ (err e, w)
    | none ↦ after_find_one to_data (user_repo.find_one c (by_id id) w)
  ]

  -- `GetByIDs`, which asks the repository only if an id is left.
  pub after_find_all : (User → UserData) → Result (List User) × W → Result (List UserData) × W
  after_find_all to_data (ok users, w) = (ok (map to_data users), w)
  after_find_all to_data (err e, w) = (err (Error.wrap "find users by ids: %w" e), w)

  pub find_by_ids : (User → UserData) → C → List Uuid → W → Result (List UserData) × W
  unfolding after_find_all
  find_by_ids to_data c [] w = (ok [], w)
  find_by_ids to_data c (id ∷ ids) w =
      after_find_all to_data (user_repo.find c (record { ids = id ∷ ids; logins = [] }) w)

  pub get_filtered : (User → UserData) → C → Result (List Uuid) → W → Result (List UserData) × W
  unfolding find_by_ids
  get_filtered to_data c (err e) w = (err e, w)
  get_filtered to_data c (ok ids) w = find_by_ids to_data c ids w

  unfoldable pub get_by_ids : (User → UserData) → C → List Uuid → W → Result (List UserData) × W
  unfolding get_filtered
  get_by_ids to_data c [] w = (ok [], w)
  get_by_ids to_data c (id ∷ ids) w =
      get_filtered to_data c (filter (authentication c) (can_read_user_filter (id ∷ ids))) w
