-- ===== src/User/Authentication/Sound.antt =====
-- Who is let in by the authentication service.
use mathlib.Core.Path.{subst}
use go_service_template.Common.{
  ◌≡◌, refl, ◌⊎◌, inl, inr, true, false, not, ◌||◌, Bool-cases, Option-cases, arith, String, none,
  [], ◌∷◌, Sentinel, Error, is, Result, ok, err,
}
use go_service_template.Common.Text.{Text, is_empty, trim_space}
use go_service_template.Message.{Uuid}
use go_service_template.User.{User}
use go_service_template.User.Session.{TokenData}
use go_service_template.User.Authentication.{
  SessionTokenData, AuthenticationData, AuthenticationService, is_deleted, after_renew,
  after_find_by_login, authenticate_user, after_find_by_id, is_fresh, after_decode,
  verify_authentication,
}

is_deleted-none : (u : User) → is_deleted u ≡ false → u.deleted_at ≡ none
is_deleted-none u h = elim (Option-cases u.deleted_at) [ inl e ↦ e | inr (d, e) ↦ cc ]

-- What is claimed of a result without an error.
data OnOk {A W : Type 0} (P : A → Type 0) : Result A × W → Type 0 where
  good : (a : A) (w : W) → P a → OnOk P (ok a, w)
  bad : (e : Error) (w : W) → OnOk P (err e, w)

from_OnOk : {A W : Type 0} (P : A → Type 0) (a : A) (w : W) → OnOk P (ok a, w) → P a
from_OnOk P a w (OnOk.good _ _ h) = h

OnOk-any : {A W : Type 0} (P : Type 0) (r : Result A × W) → P → OnOk (λ a. P) r
OnOk-any P (ok a, w) h = OnOk.good a w h
OnOk-any P (err e, w) h = OnOk.bad e w

OnOk-map :
    {A W : Type 0} (P Q : A → Type 0) (r : Result A × W)
    → ((a : A) → P a → Q a)
    → OnOk P r
    → OnOk Q r
OnOk-map P Q (ok a, w) f (OnOk.good _ _ h) = OnOk.good a w (f a h)
OnOk-map P Q (err e, w) f h = OnOk.bad e w

module _ {C W : Type 0} (s : AuthenticationService C W) where
  -- A user that was found, is not deleted, and has the password.
  abbrev pub LogsIn : Text → Result User → Type 0
  LogsIn password found =
      (u : User) × (found ≡ ok u)
      × (u.deleted_at ≡ none)
      × (s.compare_hash u.password_hash password ≡ true)

  -- A user that was found and is not deleted.
  abbrev pub IsAlive : Result User → Type 0
  IsAlive found = (u : User) × (found ≡ ok u) × (u.deleted_at ≡ none)

  after_find_by_login-LogsIn :
      (password : Text) (r : Result User × W)
      → OnOk (λ t. LogsIn password r.0) (after_find_by_login s password r)
  unfolding after_find_by_login
  after_find_by_login-LogsIn password (err e, w) =
      elim (Bool-cases (is e Sentinel.domain_user_not_found)) [
        | inl h ↦ rw h (OnOk.bad _ _)
        | inr h ↦ rw h (OnOk.bad _ _)
      ]
  after_find_by_login-LogsIn password (ok u, w) =
      elim (Bool-cases (is_deleted u || not (s.compare_hash u.password_hash password))) [
        | inl h ↦ rw h (OnOk.bad _ _)
        | inr h ↦ rw h (
            OnOk-any (LogsIn password (ok u)) _
              (u, refl, is_deleted-none u (ground (arith, h)), ground (arith, h)))
      ]

  -- `FindOne` with the trimmed login in lower case.
  abbrev pub find_by_login : C → Text → W → Result User × W
  find_by_login c login w =
      s.user_repo.find_one c (record { ids = []; logins = s.to_lower (trim_space login) ∷ [] }) w

  authenticate_user-OnOk :
      (c : C) (login password : Text) (w : W)
      → OnOk
          (λ t. LogsIn (trim_space password) (find_by_login c login w).0)
          (authenticate_user s c login password w)
  unfolding authenticate_user
  authenticate_user-OnOk c login password w =
      elim (Bool-cases (is_empty (trim_space login) || is_empty (trim_space password))) [
        | inl h ↦ rw h (OnOk.bad _ _)
        | inr h ↦ rw h (after_find_by_login-LogsIn (trim_space password) (find_by_login c login w))
      ]

  -- `Authenticate` gives a token only if `FindOne` with the trimmed login in lower case finds a user
  -- that is not deleted and whose hash matches the trimmed password.
  pub authenticate_user-LogsIn :
      (c : C) (login password : Text) (w w' : W) (t : SessionTokenData)
      → authenticate_user s c login password w ≡ (ok t, w')
      → LogsIn (trim_space password) (find_by_login c login w).0
  authenticate_user-LogsIn c login password w w' t h =
      from_OnOk (λ t. LogsIn (trim_space password) (find_by_login c login w).0) t w'
        (subst (OnOk (λ t. LogsIn (trim_space password) (find_by_login c login w).0)) h
          (authenticate_user-OnOk c login password w))

  after_renew-user_id :
      (id : Uuid) (P : Type 0) (r : Result SessionTokenData × W)
      → P
      → OnOk (λ d. (d.user_id ≡ id) × P) (after_renew id r)
  unfolding after_renew
  after_renew-user_id id P (ok t, w) h = OnOk.good _ _ (refl, h)
  after_renew-user_id id P (err e, w) h = OnOk.bad e w

  after_find_by_id-IsAlive :
      (id : Uuid) (r : Result User × W)
      → OnOk (λ d. (d.user_id ≡ id) × IsAlive r.0) (after_find_by_id s id r)
  unfolding after_find_by_id
  after_find_by_id-IsAlive id (err e, w) = elim (Bool-cases (is e Sentinel.domain_user_not_found)) [
    | inl h ↦ rw h (OnOk.bad _ _)
    | inr h ↦ rw h (OnOk.bad _ _)
  ]
  after_find_by_id-IsAlive id (ok u, w) = elim (Bool-cases (is_deleted u)) [
    | inl h ↦ rw h (OnOk.bad _ _)
    | inr h ↦ rw h (after_renew-user_id id (IsAlive (ok u)) _ (u, refl, is_deleted-none u h))
  ]

  -- What a verified token shows: its user, and that it is fresh or that its user is found and not
  -- deleted.
  abbrev pub IsVerified : C → W → TokenData → AuthenticationData → Type 0
  IsVerified c w t d =
      (d.user_id ≡ t.user_id)
      × ((is_fresh s t w ≡ true)
          ⊎ IsAlive (s.user_repo.find_one c (record { ids = t.user_id ∷ []; logins = [] }) w).0)

  after_decode-IsVerified :
      (c : C) (r : Result TokenData) (w : W)
      → OnOk (λ d. (t : TokenData) × (r ≡ ok t) × IsVerified c w t d) (after_decode s c r w)
  unfolding after_decode
  after_decode-IsVerified c (err e) w = elim (Bool-cases (is e Sentinel.invalid_token)) [
    | inl h ↦ rw h (OnOk.bad _ _)
    | inr h ↦ rw h (OnOk.bad _ _)
  ]
  after_decode-IsVerified c (ok t) w = elim (Bool-cases (is_fresh s t w)) [
    | inl h ↦ rw h (OnOk.good _ _ (t, refl, (refl, inl h)))
    | inr h ↦ rw h (
        OnOk-map _ _ _ (λ d g. (t, refl, (g.0, inr g.1)))
          (after_find_by_id-IsAlive t.user_id
            (s.user_repo.find_one c (record { ids = t.user_id ∷ []; logins = [] }) w)))
  ]

  -- `VerifyAuthentication` returns a user only if the token is decoded and is of that user, and it
  -- is younger than the renewal interval or `FindOne` finds the user and it is not deleted.
  pub verify_authentication-IsVerified :
      (c : C) (token : String) (w w' : W) (d : AuthenticationData)
      → verify_authentication s c token w ≡ (ok d, w')
      → (t : TokenData) × (s.decode token w ≡ ok t) × IsVerified c w t d
  unfolding verify_authentication
  verify_authentication-IsVerified c token w w' d h =
      from_OnOk (λ d. (t : TokenData) × (s.decode token w ≡ ok t) × IsVerified c w t d) d w'
        (subst (OnOk (λ d. (t : TokenData) × (s.decode token w ≡ ok t) × IsVerified c w t d)) h
          (after_decode-IsVerified c (s.decode token w) w))
