-- ===== src/UserProfile/Remote/Answered.antt =====
-- The profile service's view of a user is that of the user service: the client, given what the handler
-- of the user service answers.
use go_service_template.Common.{
  ℕ, ◌≡◌, sym, ap, ◌∙◌, inl, inr, String, nat_beq, none, List, [], Error, Result, ok, err,
  Bool-cases,
}
use go_service_template.Message.{Uuid}
use go_service_template.Auth.{check}
use go_service_template.Auth.Permissions.{can_read_user}
use go_service_template.User.{User}
use go_service_template.User.Service.{UserService, UserData, by_id}
use go_service_template.Http.{HandlerMetadata, Answer, serve}
use go_service_template.Http.Client.{Response}
use go_service_template.Http.Parser.{json_body, json_body-ok, parse_response}
use go_service_template.User.Http.{get_user_by_id}
use go_service_template.User.Http.Hidden.{user_id, Answers, get_user_by_id-Answers}
use go_service_template.UserProfile.{RemoteUser}
use go_service_template.UserProfile.Remote.{after_parse_response, after_send}

-- What the library that sends requests makes of an answer.
abbrev pub response_of : Answer → Response (List ℕ)
response_of a = record { status_code = a.status; rest = a.answer_body }

-- The fields that are read from the answer.
abbrev pub remote : UserData → RemoteUser
remote d = record { id = d.id; deleted_at = d.deleted_at }

module _ (decode : List ℕ → Result RemoteUser) where
  after_parse_response-ok :
      (r : Result RemoteUser) (u : RemoteUser) → after_parse_response r ≡ ok u → r ≡ ok u
  unfolding after_parse_response
  after_parse_response-ok (ok v) u h = h
  after_parse_response-ok (err e) u h = cc

  after_send-decodes :
      (resp : Response (List ℕ)) (u : RemoteUser)
      → after_send decode (ok resp) ≡ ok u
      → decode resp.rest ≡ ok u
  unfolding after_send parse_response
  after_send-decodes resp u h = elim (Bool-cases (nat_beq resp.status_code 404)) [
    | inl a ↦ let z = rw (a, after_send) at h in cc
    | inr a ↦ elim (Bool-cases (nat_beq resp.status_code 200)) [
      | inl b ↦ json_body-ok (decode resp.rest) u (
          after_parse_response-ok (json_body (decode resp.rest)) u
            (rw (a, b, after_send, parse_response) at h))
      | inr b ↦ let z = rw (a, b, after_send) at h in cc
    ]
  ]

module _ {C W : Type 0} (s : UserService C W) (to_data : User → UserData)
    (parse : String → Result Uuid) (to_out : UserData → Result (List ℕ)) where
  -- The user of the request is found by the user service, and may be read.
  abbrev pub IsShown : C → List (String × String) → W → RemoteUser → Type 0
  IsShown c parameters w u =
      (id : Uuid) × (user : User) × (w' : W) × (user_id s to_data parse to_out parameters ≡ ok id)
      × (check (s.authentication c) (can_read_user id) ≡ none)
      × (s.user_repo.find_one c (by_id id) w ≡ (ok user, w'))
      × (u ≡ remote (to_data user))

module _ {C W : Type 0} (s : UserService C W) (to_data : User → UserData)
    (parse : String → Result Uuid) (to_out : UserData → Result (List ℕ))
    (decode : List ℕ → Result RemoteUser) where
  no_body-IsShown :
      (P : Type 0) (body : List ℕ) (e : Error) (u : RemoteUser)
      → decode [] ≡ err e
      → body ≡ []
      → decode body ≡ ok u
      → P
  no_body-IsShown P body e u d b h = let z = ap decode b in cc

  same_user : (u v : RemoteUser) → ok u ≡ ok v → u ≡ v
  same_user u v h = cc

  Answers-IsShown :
      (c : C) (parameters : List (String × String)) (w : W) (u : RemoteUser) (no_json : Error)
      (x : (HandlerMetadata × Answer) × W)
      → decode [] ≡ err no_json
      → ((d : UserData) (bytes : List ℕ) → to_out d ≡ ok bytes → decode bytes ≡ ok (remote d))
      → decode x.0.1.answer_body ≡ ok u
      → Answers s to_data parse to_out c parameters w x
      → IsShown s to_data parse to_out c parameters w u
  Answers-IsShown c parameters w u no_json x n d h (Answers.malformed e m a q st b) =
      no_body-IsShown _ a.answer_body no_json u n b h
  Answers-IsShown c parameters w u no_json x n d h (Answers.unauthenticated id m a q k st b) =
      no_body-IsShown _ a.answer_body no_json u n b h
  Answers-IsShown c parameters w u no_json x n d h (Answers.refused id r m a q k f st b) =
      no_body-IsShown _ a.answer_body no_json u n b h
  Answers-IsShown c parameters w u no_json x n d h (Answers.missing id e w' m a q k f i st b) =
      no_body-IsShown _ a.answer_body no_json u n b h
  Answers-IsShown c parameters w u no_json x n d h (Answers.failed id e w' m a q k f i st b) =
      no_body-IsShown _ a.answer_body no_json u n b h
  Answers-IsShown c parameters w u no_json x n d h
        (Answers.not_encoded id user e w' m a q k f g st b) =
      no_body-IsShown _ a.answer_body no_json u n b h
  Answers-IsShown c parameters w u no_json x n d h
        (Answers.shown id user bytes w' m a q k f g st b) =
      (
        id,
        user,
        w',
        q,
        k,
        f,
        same_user u (remote (to_data user)) (sym h ∙ ap decode b ∙ d (to_data user) bytes g),
      )

  -- If the client of the user service returns a user for the answer of its handler, the user service has found a
  -- user by the id in the path, the caller may read it, and the client returns its id and the time of its
  -- deletion; it is assumed that no JSON is empty, and that JSON reads back what was written.
  pub get_user_by_id_received :
      (c : C) (parameters : List (String × String)) (w : W) (u : RemoteUser) (no_json : Error)
      → decode [] ≡ err no_json
      → ((d : UserData) (bytes : List ℕ) → to_out d ≡ ok bytes → decode bytes ≡ ok (remote d))
      → after_send decode
          (ok (response_of (serve (get_user_by_id s to_data parse to_out c parameters) w).0.1))
        ≡ ok u
      → IsShown s to_data parse to_out c parameters w u
  get_user_by_id_received c parameters w u no_json n d h =
      Answers-IsShown c parameters w u no_json _ n d (after_send-decodes decode _ u h)
        (get_user_by_id-Answers s to_data parse to_out c parameters w)
