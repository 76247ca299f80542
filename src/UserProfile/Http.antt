-- ===== src/UserProfile/Http.antt =====
-- The handlers of internal/userprofile/infra/http. `parse` is `ParseTypedValue[uuid.UUID]`, `parsed` what the
-- JSON decoder makes of a body, and `to_out` the converter of the answer with its encoding.
use go_service_template.Common.{
  ℕ, String, ◌||◌, Option, none, some, List, Error, Sentinel, is, is?, Result, ok, err,
  if◌then◌else◌,
}
use go_service_template.Common.Text.{Text}
use go_service_template.Message.{Uuid}
use go_service_template.UserProfile.{UserProfile, UserProfileService, get_profile, update_profile}
use go_service_template.Http.{
  Response, Handler, Ending, set_status_code, set_json_body, path_parameter, parse_request,
}
use go_service_template.Http.Parser.{json_body}

pub record UpdateUserProfileIn : Type 0 where
  pub first_name : Text
  pub last_name : Text

-- The error of a result, which may be nil.
abbrev pub error_of : {A : Type 0} → Result A → Option Error
error_of (ok a) = none
error_of (err e) = some e

-- The switch after `Update`.
unfoldable pub set_update_status : Option Error → Response → Response
unfolding set_status_code
set_update_status error r =
    if is? error Sentinel.invalid_user_profile_data
    then set_status_code 400 r
    else if is? error Sentinel.profile_user_not_found
    then set_status_code 404 r
    else r

unfoldable pub set_get_status : Error → Response → Response
unfolding set_status_code
set_get_status e r =
    if is e Sentinel.profile_user_not_found || is e Sentinel.user_profile_not_found
    then set_status_code 404 r
    else r

module _ {C W : Type 0} (s : UserProfileService C W) (parse : String → Result Uuid)
    (to_out : UserProfile → Result (List ℕ)) where
  unfoldable pub after_get_profile : Response → Result UserProfile × W → (Ending × Response) × W
  unfolding set_get_status set_json_body
  after_get_profile r (ok profile, w) =
      ((Ending.returned none, set_json_body (to_out profile) r), w)
  after_get_profile r (err e, w) = ((Ending.returned (some e), set_get_status e r), w)

  unfoldable pub get_parsed_profile : C → Result Uuid → Handler W
  unfolding after_get_profile
  get_parsed_profile c (err e) r w = ((Ending.returned (some e), r), w)
  get_parsed_profile c (ok id) r w = after_get_profile r (get_profile s c id w)

  -- `GetUserProfileHandler.Handle`.
  unfoldable pub handle_get_profile : C → List (String × String) → Handler W
  unfolding get_parsed_profile path_parameter parse_request
  handle_get_profile c parameters =
      get_parsed_profile c (parse_request (path_parameter parse "userID" parameters) none)

  unfoldable pub after_update_profile : Response → Option Error × W → (Ending × Response) × W
  unfolding set_update_status
  after_update_profile r (error, w) = ((Ending.returned error, set_update_status error r), w)

  -- The handler after both calls of `ParseRequest`; the error of the first is that of the second.
  unfoldable pub update_parsed_profile : C → Result Uuid → Result UpdateUserProfileIn → Handler W
  unfolding after_update_profile
  update_parsed_profile c id (err e) r w = ((Ending.returned (some e), r), w)
  update_parsed_profile c (err e) (ok body) r w = ((Ending.returned (some e), r), w)
  update_parsed_profile c (ok id) (ok body) r w = after_update_profile r (
      update_profile s c
        (record { id = id; first_name = body.first_name; last_name = body.last_name }) w)

  -- `UpdateUserProfileHandler.Handle`.
  unfoldable pub handle_update_profile :
      C → List (String × String) → Result UpdateUserProfileIn → Handler W
  unfolding update_parsed_profile path_parameter parse_request json_body
  handle_update_profile c parameters parsed =
      let id = parse_request (path_parameter parse "userID" parameters) none in
      update_parsed_profile c id (parse_request (json_body parsed) (error_of id))
