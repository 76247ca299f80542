-- ===== src/UserProfile/Remote/Examples.antt =====
-- A user that is read by itself over HTTP.
use go_service_template.Common.{
  ℕ, ◌≡◌, refl, String, string_eq, Option, none, some, List, [], ◌∷◌, Error, Result, ok, err,
}
use go_service_template.Common.Assoc.{lookup}
use go_service_template.Auth.{Authentication, check}
use go_service_template.Auth.Permissions.{can_read_user}
use go_service_template.User.{User}
use go_service_template.User.Service.{UserService, UserData, get_by_id}
use go_service_template.Http.{
  new_response, set_json_body, status_of, status_code, write_data, encode_body, persist_write,
  finish_write, write, after_handle, serve, parse_typed_value_impl, path_parameter, parse_request,
}
use go_service_template.Http.Parser.{json_body, parse_response}
use go_service_template.User.Http.{after_get, get_parsed, get_user_by_id}
use go_service_template.UserProfile.{RemoteUser}
use go_service_template.UserProfile.Remote.{after_parse_response, after_send}
use go_service_template.UserProfile.Remote.Answered.{remote, IsShown, get_user_by_id_received}

abbrev reader : Authentication
reader = record {
  principal = some (record { user_id = some 7; admin_user_id = none; service_name = none });
}

abbrev stored : User
stored = record { id = 7; login = 97 ∷ []; password_hash = ""; deleted_at = none; changes = [] }

abbrev service : UserService (Option Authentication) (List User)
service = record {
  user_repo = record {
    next_id = λ w. (8, w);
    store = λ c u w. (none, u ∷ w);
    find = λ c spec w. (ok w, w);
    find_one = λ c spec w. (ok stored, w);
  };
  hash_password = λ t. ok "";
  authentication = λ c. c;
  transaction = record { within_context = λ fn locks c w. fn c w; lock_update = λ b c. c };
  to_lower = λ t. t;
  now = λ w. 0;
  new_uuid = λ w. (9, w);
}

abbrev to_data : User → UserData
to_data u = record { id = u.id; login = u.login; deleted_at = u.deleted_at }

abbrev parse : String → Result ℕ
parse text = ok 7

abbrev encode_deleted : ℕ → Option ℕ → List ℕ
encode_deleted id none = id ∷ []
encode_deleted id (some t) = id ∷ t ∷ []

abbrev to_out : UserData → Result (List ℕ)
to_out d = ok (encode_deleted d.id d.deleted_at)

abbrev eof : Error
eof = Error.message "EOF"

abbrev decode : List ℕ → Result RemoteUser
decode [] = err eof
decode (id ∷ []) = ok (record { id = id; deleted_at = none })
decode (id ∷ t ∷ bytes) = ok (record { id = id; deleted_at = some t })

decode-encode :
    (id : ℕ) (deleted_at : Option ℕ)
    → decode (encode_deleted id deleted_at) ≡ ok (record { id = id; deleted_at = deleted_at })
decode-encode id none = refl
decode-encode id (some t) = refl

decode-to_out : (d : UserData) (bytes : List ℕ) → to_out d ≡ ok bytes → decode bytes ≡ ok (remote d)
decode-to_out d bytes h =
    let e : encode_deleted d.id d.deleted_at ≡ bytes = cc in
    rw⁻¹ e (decode-encode d.id d.deleted_at)

abbrev parameters : List (String × String)
parameters = ("userID", "7") ∷ []

get_user_by_id_received_example :
    IsShown service to_data parse to_out
      (some reader)
      parameters
      (stored ∷ [])
      (record { id = 7; deleted_at = none })
unfolding serve get_user_by_id path_parameter parse_request parse_typed_value_impl get_parsed
    get_by_id after_get check can_read_user lookup after_handle write finish_write encode_body
    persist_write status_of status_code write_data new_response set_json_body after_send
    after_parse_response parse_response json_body
get_user_by_id_received_example =
    get_user_by_id_received service to_data parse to_out decode (some reader) parameters
      (stored ∷ []) (record { id = 7; deleted_at = none }) eof refl decode-to_out refl
