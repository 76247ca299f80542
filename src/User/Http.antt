-- ===== src/User/Http.antt =====
-- The handlers of internal/user/infra/http for one user: getuserbyidhandler.go, deletetuserbyidhandler.go
-- and getcurrentuserhandler.go. `parse` is `ParseTypedValue[uuid.UUID]`, and `to_out` the converter of
-- the answer with its encoding.
pub mod Hidden
pub mod Accounts
mod Examples
use go_service_template.Common.{
  ℕ, String, Bool, true, false, Option, none, some, List, Error, Sentinel, is, Result, ok, err,
  if◌then◌else◌,
}
use go_service_template.Message.{Uuid}
use go_service_template.Auth.{Authentication, Principal}
use go_service_template.User.{User}
use go_service_template.User.Service.{UserService, UserData, get_by_id, delete}
use go_service_template.Http.{
  Response, Handler, Ending, set_status_code, set_json_body, path_parameter, parse_request,
}

module _ {C W : Type 0} (s : UserService C W) (to_data : User → UserData)
    (parse : String → Result Uuid) (to_out : UserData → Result (List ℕ)) where
  unfoldable pub after_get : Response → Result UserData × W → (Ending × Response) × W
  unfolding set_status_code set_json_body
  after_get r (ok user, w) = ((Ending.returned none, set_json_body (to_out user) r), w)
  after_get r (err e, w) = (
    (Ending.returned (some e), if is e Sentinel.user_not_found then set_status_code 404 r else r),
    w,
  )

  unfoldable pub get_parsed : C → Result Uuid → Handler W
  unfolding after_get get_by_id
  get_parsed c (err e) r w = ((Ending.returned (some e), r), w)
  get_parsed c (ok id) r w = after_get r (get_by_id s to_data c id w)

  -- `GetUserByIDHandler.Handle`, on a context and the parameters of the path.
  unfoldable pub get_user_by_id : C → List (String × String) → Handler W
  unfolding get_parsed path_parameter parse_request
  get_user_by_id c parameters =
      get_parsed c (parse_request (path_parameter parse "userID" parameters) none)

  unfoldable pub after_delete : Response → Option Error × W → (Ending × Response) × W
  after_delete r (error, w) = ((Ending.returned error, r), w)

  unfoldable pub delete_parsed : C → Result Uuid → Handler W
  unfolding after_delete delete
  delete_parsed c (err e) r w = ((Ending.returned (some e), r), w)
  delete_parsed c (ok id) r w = after_delete r (delete s c id w)

  -- `DeleteUserByIDHandler.Handle`.
  unfoldable pub delete_user_by_id : C → List (String × String) → Handler W
  unfolding delete_parsed path_parameter parse_request
  delete_user_by_id c parameters =
      delete_parsed c (parse_request (path_parameter parse "userID" parameters) none)

  unfoldable pub after_get_current : Response → Result UserData × W → (Ending × Response) × W
  unfolding set_json_body
  after_get_current r (ok user, w) = ((Ending.returned none, set_json_body (to_out user) r), w)
  after_get_current r (err e, w) = ((Ending.returned (some e), r), w)

  unfoldable pub get_current : C → Option Uuid → Handler W
  unfolding after_get_current get_by_id
  get_current c none r w =
      ((Ending.returned (some (Error.sentinel Sentinel.unauthenticated)), r), w)
  get_current c (some id) r w = after_get_current r (get_by_id s to_data c id w)

  -- The id of the user in the authentication of a context, if it has one.
  abbrev user_id_of_principal : Option Principal → Option Uuid
  user_id_of_principal none = none
  user_id_of_principal (some p) = p.user_id

  abbrev user_id_of : Option Authentication → Option Uuid
  user_id_of none = none
  user_id_of (some a) = user_id_of_principal a.principal

  -- `GetCurrentUserHandler.Handle`.
  unfoldable pub get_current_user : C → Handler W
  unfolding get_current
  get_current_user c = get_current c (user_id_of (s.authentication c))
