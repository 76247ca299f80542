-- ===== src/UserProfile/Remote.antt =====
-- The client of the user service: `Get` of internal/userprofile/infra/user/http/userservice.go. `send` is
-- the request with its response, whose body is the rest of it; `decode` is the JSON decoder with the
-- generated converter.
pub mod Answered
mod Examples
use go_service_template.Common.{
  ℕ, nat_beq, List, none, Error, Sentinel, Result, ok, err, if◌then◌else◌, true, false, not,
}
use go_service_template.Message.{Uuid}
use go_service_template.UserProfile.{RemoteUser}
use go_service_template.Http.Client.{Response}
use go_service_template.Http.Parser.{json_body, parse_response}

unfoldable pub after_parse_response : Result RemoteUser → Result RemoteUser
after_parse_response (ok user) = ok user
after_parse_response (err e) = err (Error.wrap "user.getUserByID response: %w" e)

module _ (decode : List ℕ → Result RemoteUser) where
  unfoldable pub after_send : Result (Response (List ℕ)) → Result RemoteUser
  unfolding after_parse_response parse_response json_body
  after_send (err e) = err (Error.wrap "request user.getUserByID: %w" e)
  after_send (ok resp) =
      if nat_beq resp.status_code 404
      then err (Error.sentinel Sentinel.client_user_not_found)
      else if not (nat_beq resp.status_code 200)
      then err (Error.message "request user.getUserByID: invalid status code %d")
      else after_parse_response (parse_response (json_body (decode resp.rest)) none)

  -- `Get`.
  unfoldable pub get_remote_user :
      {C W : Type 0}
      → (C → Uuid → W → Result (Response (List ℕ)) × W)
      → C
      → Uuid
      → W
      → Result RemoteUser × W
  unfolding after_send
  get_remote_user send c id w = let (r, w') = send c id w in (after_send r, w')
