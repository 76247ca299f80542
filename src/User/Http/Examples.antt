-- ===== src/User/Http/Examples.antt =====
-- A request of a user for itself, and the service that answers it.
use go_service_template.Common.{ℕ, String, Option, none, some, List, [], ◌∷◌, Result, ok}
use go_service_template.Auth.{Authentication}
use go_service_template.User.{User}
use go_service_template.User.Service.{UserService, UserData}
use go_service_template.Http.{serve}
use go_service_template.User.Http.{get_user_by_id}
use go_service_template.User.Http.Hidden.{Answers, get_user_by_id-Answers}

abbrev reader : Authentication
reader = record {
  principal = some (record { user_id = some 7; admin_user_id = none; service_name = none });
}

abbrev stored : User
stored = record { id = 7; login = 97 ∷ []; password_hash = ""; deleted_at = none; changes = [] }

abbrev service : UserService (Option Authentication) (List User)
service = record {
  user_repo = record {
    next_id = λ w. (8, w);
    store = λ c u w. (none, u ∷ w);
    find = λ c spec w. (ok w, w);
    find_one = λ c spec w. (ok stored, w);
  };
  hash_password = λ t. ok "";
  authentication = λ c. c;
  transaction = record { within_context = λ fn locks c w. fn c w; lock_update = λ b c. c };
  to_lower = λ t. t;
  now = λ w. 0;
  new_uuid = λ w. (9, w);
}

abbrev to_data : User → UserData
to_data u = record { id = u.id; login = u.login; deleted_at = u.deleted_at }

abbrev parse : String → Result ℕ
parse text = ok 7

abbrev to_out : UserData → Result (List ℕ)
to_out d = ok d.login

abbrev parameters : List (String × String)
parameters = ("userID", "7") ∷ []

get_user_by_id-Answers_example :
    Answers service to_data parse to_out
      (some reader)
      parameters
      (stored ∷ [])
      (serve (get_user_by_id service to_data parse to_out (some reader) parameters) (stored ∷ []))
get_user_by_id-Answers_example =
    get_user_by_id-Answers service to_data parse to_out (some reader) parameters (stored ∷ [])
