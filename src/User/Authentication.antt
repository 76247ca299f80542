-- ===== src/User/Authentication.antt =====
-- The authentication service of internal/user/app/service/auth.go.
pub mod Sound
mod Examples
use go_service_template.Common.{
  ℕ, ◌+◌, ◌*◌, ltb, Bool, true, false, not, ◌||◌, if◌then◌else◌, String, Option, none, some, List,
  [], ◌∷◌, Sentinel, Error, is, Result, ok, err,
}
use go_service_template.Common.Text.{Text, is_empty, trim_space}
use go_service_template.Message.{Uuid, Time}
use go_service_template.User.{User, UserRepository, FindUserSpecification}
use go_service_template.User.Session.{TokenData}

-- Durations in nanoseconds.
abbrev pub user_session_ttl : ℕ
user_session_ttl = 7 * 24 * 3600000000000

abbrev pub user_session_renewal_interval : ℕ
user_session_renewal_interval = 15 * 60000000000

pub record SessionTokenData : Type 0 where
  pub token : String
  pub valid_till : Time

pub record AuthenticationData : Type 0 where
  pub user_id : Uuid
  pub renewed_token : Option SessionTokenData

-- `authenticationService`: the repository, the token generator and the password encoder.
pub record AuthenticationService (C W : Type 0) : Type 0 where
  pub user_repo : UserRepository C W
  pub generate : Uuid → ℕ → W → Result TokenData × W
  pub decode : String → W → Result TokenData
  pub compare_hash : String → Text → Bool
  pub to_lower : Text → Text
  pub now : W → Time

abbrev pub unauthenticated : Error
unauthenticated = Error.sentinel Sentinel.unauthenticated

abbrev pub is_deleted : User → Bool
is_deleted u = elim u.deleted_at [ none ↦ false | some _ ↦ true ]

-- The end of `generateSessionToken`.
pub after_generate : {W : Type 0} → Result TokenData × W → Result SessionTokenData × W
after_generate (ok t, w) = (ok (record { token = t.encoded_token; valid_till = t.valid_till }), w)
after_generate (err e, w) = (err (Error.wrap "generate session token: %w" e), w)

-- The end of `VerifyAuthentication`.
pub after_renew : {W : Type 0} → Uuid → Result SessionTokenData × W → Result AuthenticationData × W
after_renew id (ok t, w) = (ok (record { user_id = id; renewed_token = some t }), w)
after_renew id (err e, w) = (err e, w)

module _ {C W : Type 0} (s : AuthenticationService C W) where
  open s use {user_repo, compare_hash, to_lower, now}

  pub generate_session_token : Uuid → W → Result SessionTokenData × W
  unfolding after_generate
  generate_session_token id w = after_generate (s.generate id user_session_ttl w)

  -- `Authenticate`, after the call of `FindOne`.
  pub after_find_by_login : Text → Result User × W → Result SessionTokenData × W
  unfolding generate_session_token
  after_find_by_login password (err e, w) =
      if is e Sentinel.domain_user_not_found
      then (err unauthenticated, w)
      else (err (Error.wrap "find user by login: %w" e), w)
  after_find_by_login password (ok u, w) =
      if is_deleted u || not (compare_hash u.password_hash password)
      then (err unauthenticated, w)
      else generate_session_token u.id w

  unfoldable pub authenticate_user : C → Text → Text → W → Result SessionTokenData × W
  unfolding after_find_by_login trim_space
  authenticate_user c login password w =
      if is_empty (trim_space login) || is_empty (trim_space password)
      then (err unauthenticated, w)
      else after_find_by_login (trim_space password)
          (user_repo.find_one c (record { ids = []; logins = to_lower (trim_space login) ∷ [] }) w)

  -- `VerifyAuthentication`, after the call of `FindOne`.
  pub after_find_by_id : Uuid → Result User × W → Result AuthenticationData × W
  unfolding generate_session_token after_renew
  after_find_by_id id (err e, w) =
      if is e Sentinel.domain_user_not_found
      then (err unauthenticated, w)
      else (err (Error.wrap "find user by id: %w" e), w)
  after_find_by_id id (ok u, w) =
      if is_deleted u
      then (err unauthenticated, w)
      else after_renew id (generate_session_token id w)

  -- `tokenData.CreatedAt.After(time.Now().Add(-userSessionRenewalInterval))`
  abbrev pub is_fresh : TokenData → W → Bool
  is_fresh t w = ltb (now w) (t.created_at + user_session_renewal_interval)

  pub after_decode : C → Result TokenData → W → Result AuthenticationData × W
  unfolding after_find_by_id
  after_decode c (err e) w =
      if is e Sentinel.invalid_token
      then (err unauthenticated, w)
      else (err (Error.wrap "decode token: %w" e), w)
  after_decode c (ok t) w =
      if is_fresh t w
      then (ok (record { user_id = t.user_id; renewed_token = none }), w)
      else after_find_by_id t.user_id
          (user_repo.find_one c (record { ids = t.user_id ∷ []; logins = [] }) w)

  unfoldable pub verify_authentication : C → String → W → Result AuthenticationData × W
  unfolding after_decode
  verify_authentication c token w = after_decode c (s.decode token w) w
