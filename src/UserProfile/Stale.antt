-- ===== src/UserProfile/Stale.antt =====
-- No profile of a deleted user is shown.
use go_service_template.Common.{
  ℕ, ◌≡◌, refl, sym, ap, ◌∙◌, Option, none, some, Option-cases, Bool-cases, inl, inr, Error,
  Sentinel, is, Result, ok, err,
}
use go_service_template.Message.{Uuid}
use go_service_template.Auth.{check}
use go_service_template.Auth.Permissions.{can_get_user_profile}
use go_service_template.UserProfile.{
  UserProfile, UserProfileService, RemoteUser, user_error, return_profile, check_user,
  after_find_profile, get_profile,
}

-- The user service returned a user that is not deleted.
abbrev pub IsLive : Result RemoteUser → Type 0
IsLive r = (u : RemoteUser) × (r ≡ ok u) × (u.deleted_at ≡ none)

user_error-IsLive : (r : Result RemoteUser) → user_error r ≡ none → IsLive r
unfolding user_error
user_error-IsLive (ok u) h = elim (Option-cases u.deleted_at) [
  | inl e ↦ (u, refl, e)
  | inr (t, e) ↦ absurd (some-not_none _ (sym (removed u t e) ∙ h))
]
  where
    some-not_none : (e : Error) → some e ≡ none → ⊥
    some-not_none e z = cc

    removed :
        (u : RemoteUser) (t : ℕ)
        → u.deleted_at ≡ some t
        → user_error (ok u) ≡ some (Error.sentinel Sentinel.profile_user_not_found)
    removed u t e = rw e refl
user_error-IsLive (err e) h = elim (Bool-cases (is e Sentinel.client_user_not_found)) [
  | inl i ↦ let z = rw i at h in cc
  | inr i ↦ let z = rw i at h in cc
]

return_profile_lem :
    {W : Type 0} (p q : UserProfile) (r : Option Error × W) (w : W)
    → return_profile p r ≡ (ok q, w)
    → (r.0 ≡ none) × (p ≡ q)
unfolding return_profile
return_profile_lem p q (none, v) w h = (refl, cc)
return_profile_lem p q (some e, v) w h = cc

module _ {C W : Type 0} (s : UserProfileService C W) where
  -- A profile was found in the repository, and after it its user, who is not deleted.
  abbrev pub IsShown : C → Uuid → UserProfile → Result UserProfile × W → Type 0
  IsShown c id profile found = (found.0 ≡ ok profile) × IsLive (s.get_user c id found.1).0

  after_find_profile-IsShown :
      (c : C) (id : Uuid) (found : Result UserProfile × W) (profile : UserProfile) (w : W)
      → after_find_profile s c id found ≡ (ok profile, w)
      → IsShown c id profile found
  unfolding after_find_profile check_user
  after_find_profile-IsShown c id (ok p, v) profile w h =
      let (e, same) = return_profile_lem p profile (check_user s c id v) w h in
      (ap ok same, user_error-IsLive (s.get_user c id v).0 e)
  after_find_profile-IsShown c id (err e, v) profile w h =
      elim (Bool-cases (is e Sentinel.domain_user_profile_not_found)) [
        | inl i ↦ let z = rw i at h in cc
        | inr i ↦ let z = rw i at h in cc
      ]

  -- `Get` returns a profile only if the repository has it and the user service, asked after that,
  -- returns its user as not deleted.
  pub get_profile-IsShown :
      (c : C) (id : Uuid) (profile : UserProfile) (w w' : W)
      → get_profile s c id w ≡ (ok profile, w')
      → IsShown c id profile (s.find_profile_by_id c id w)
  unfolding get_profile
  get_profile-IsShown c id profile w w' h =
      elim (Option-cases (check (s.authentication c) (can_get_user_profile id))) [
        | inl e ↦
            after_find_profile-IsShown c id (s.find_profile_by_id c id w) profile w'
              (rw (e, get_profile) at h)
        | inr (f, e) ↦ let z = rw (e, get_profile) at h in cc
      ]
