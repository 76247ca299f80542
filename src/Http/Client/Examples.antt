-- ===== src/Http/Client/Examples.antt =====
-- A client with two mappings of codes.
use go_service_template.Common.{ℕ, nat_eq, ◌≡◌, false, List, [], ◌∷◌, map, Error, Sentinel, ok}
use go_service_template.Common.Assoc.{lookup}
use go_service_template.Http.Client.{Response, new_client, with_response_code_mapping, send}
use go_service_template.Http.Client.Mapping.{is_some, send-odd}

abbrev forbidden : Response ℕ
forbidden = record { status_code = 403; rest = 0 }

abbrev tables : List (List (ℕ × Error))
tables =
    ((403, Error.sentinel Sentinel.permission_denied) ∷ [])
    ∷ ((404, Error.sentinel Sentinel.user_not_found) ∷ [])
    ∷ []

-- The error that the first mapping reports is dropped by the second.
send-odd_example :
    is_some
      (send
        (new_client {R = ℕ} {B = ℕ} 0
          (map with_response_code_mapping tables)).state.response_middlewares
        (ok forbidden)).1
    ≡ false
unfolding lookup
send-odd_example = send-odd forbidden 0 tables
