-- ===== src/User/Http/Hidden.antt =====
-- Every answer to a request for one user, and that a body is only sent to who may read the user.
use mathlib.Core.Path.{subst}
use go_service_template.Common.{
  ℕ, ◌≡◌, refl, sym, ap, ◌∙◌, inl, inr, String, string_eq, Bool, true, false, if◌then◌else◌, Option,
  none, some, List, [], ◌∷◌, Error, Sentinel, is, Result, ok, err, Bool-cases, Option-cases,
}
use go_service_template.Common.Assoc.{lookup}
use go_service_template.Message.{Uuid}
use go_service_template.Auth.{Authentication, check}
use go_service_template.Auth.Permissions.{can_read_user, principal_can_read}
use go_service_template.User.{User}
use go_service_template.User.Service.{UserService, UserData, by_id, after_find_one, get_by_id}
use go_service_template.Http.{
  new_response, set_status_code, set_json_body, HandlerMetadata, Answer, status_of, status_code,
  write_data, encode_body, persist_write, finish_write, write, Ending, after_handle, serve,
  parse_typed_value_impl, path_parameter, parse_request,
}
use go_service_template.User.Http.{after_get, get_parsed, get_user_by_id}

-- The status of an error that is not the domain's error of a missing user: most errors are internal ones.
abbrev pub failure_status : Error → ℕ
failure_status e =
    if is e Sentinel.user_not_found
    then 404
    else if is e Sentinel.parsing_error
    then 400
    else if is e Sentinel.unauthenticated
    then 401
    else if is e Sentinel.permission_denied
    then 403
    else 500

module _ {C W : Type 0} (s : UserService C W) (to_data : User → UserData)
    (parse : String → Result Uuid) (to_out : UserData → Result (List ℕ)) where
  -- What is read from the path.
  abbrev pub user_id : List (String × String) → Result Uuid
  user_id parameters = path_parameter parse "userID" parameters

  -- The answers: a path without an id is a bad request; a request without authentication fails, and a reader
  -- without the permission is refused, and both leave the world as it was; a user that is missing is
  -- not found; another error of the repository has the status of its kind; and a body is that of the user.
  pub data Answers (c : C) (parameters : List (String × String)) (w : W)
      : (HandlerMetadata × Answer) × W → Type 0 where
    malformed :
        (e : Error) (m : HandlerMetadata) (a : Answer)
        → user_id parameters ≡ err e
        → a.status ≡ 400
        → a.answer_body ≡ []
        → Answers c parameters w ((m, a), w)
    unauthenticated :
        (id : Uuid) (m : HandlerMetadata) (a : Answer)
        → user_id parameters ≡ ok id
        → s.authentication c ≡ none
        → a.status ≡ 500
        → a.answer_body ≡ []
        → Answers c parameters w ((m, a), w)
    refused :
        (id : Uuid) (reader : Authentication) (m : HandlerMetadata) (a : Answer)
        → user_id parameters ≡ ok id
        → s.authentication c ≡ some reader
        → can_read_user id reader ≡ ok false
        → a.status ≡ 403
        → a.answer_body ≡ []
        → Answers c parameters w ((m, a), w)
    missing :
        (id : Uuid) (e : Error) (w' : W) (m : HandlerMetadata) (a : Answer)
        → user_id parameters ≡ ok id
        → check (s.authentication c) (can_read_user id) ≡ none
        → s.user_repo.find_one c (by_id id) w ≡ (err e, w')
        → is e Sentinel.domain_user_not_found ≡ true
        → a.status ≡ 404
        → a.answer_body ≡ []
        → Answers c parameters w ((m, a), w')
    failed :
        (id : Uuid) (e : Error) (w' : W) (m : HandlerMetadata) (a : Answer)
        → user_id parameters ≡ ok id
        → check (s.authentication c) (can_read_user id) ≡ none
        → s.user_repo.find_one c (by_id id) w ≡ (err e, w')
        → is e Sentinel.domain_user_not_found ≡ false
        → a.status ≡ failure_status e
        → a.answer_body ≡ []
        → Answers c parameters w ((m, a), w')
    shown :
        (id : Uuid) (user : User) (bytes : List ℕ) (w' : W) (m : HandlerMetadata) (a : Answer)
        → user_id parameters ≡ ok id
        → check (s.authentication c) (can_read_user id) ≡ none
        → s.user_repo.find_one c (by_id id) w ≡ (ok user, w')
        → to_out (to_data user) ≡ ok bytes
        → a.status ≡ 200
        → a.answer_body ≡ bytes
        → Answers c parameters w ((m, a), w')
    not_encoded :
        (id : Uuid) (user : User) (e : Error) (w' : W) (m : HandlerMetadata) (a : Answer)
        → user_id parameters ≡ ok id
        → check (s.authentication c) (can_read_user id) ≡ none
        → s.user_repo.find_one c (by_id id) w ≡ (ok user, w')
        → to_out (to_data user) ≡ err e
        → a.status ≡ 500
        → a.answer_body ≡ []
        → Answers c parameters w ((m, a), w')

  parsed_fails :
      (r : Result Uuid) (e : Error)
      → parse_typed_value_impl r ≡ err e
      → is e Sentinel.parsing_error ≡ true
  unfolding parse_typed_value_impl
  parsed_fails (ok id) e h = cc
  parsed_fails (err f) e h =
      subst (λ x. is x Sentinel.parsing_error ≡ true)
        (let p : Error.wrap_both "%w: %w" (Error.sentinel Sentinel.parsing_error) f ≡ e = cc in p)
        refl

  path_parameter_fails :
      (parameters : List (String × String)) (e : Error)
      → user_id parameters ≡ err e
      → is e Sentinel.parsing_error ≡ true
  unfolding path_parameter parse_typed_value_impl
  path_parameter_fails parameters e h = elim (Option-cases (lookup "userID" parameters)) [
    | inl l ↦
        let f = rw (l, path_parameter) at h in
        subst (λ x. is x Sentinel.parsing_error ≡ true)
          (let p : Error.wrap "%w: path parameter %s not found"
                  (Error.sentinel Sentinel.parsing_error)
                ≡ e =
              cc in
            p)
          refl
    | inr (v, l) ↦ parsed_fails (parse v) e (rw (l, path_parameter) at h)
  ]

  -- The answer to what the service returns.
  answered : Result UserData × W → (HandlerMetadata × Answer) × W
  unfolding after_handle after_get new_response
  answered r = after_handle (after_get s to_data parse to_out new_response r)

  answered-error : (e : Error) (w : W) → (answered (err e, w)).0.1.answer_body ≡ []
  unfolding after_handle write finish_write encode_body status_of status_code persist_write
      write_data new_response answered after_get set_status_code set_json_body after_find_one
  answered-error e w = elim (Bool-cases (is e Sentinel.user_not_found)) [
    | inl n ↦ rw (n)
    | inr n ↦ rw (n)
  ]

  answered-status : (e : Error) (w : W) → (answered (err e, w)).0.1.status ≡ failure_status e
  unfolding after_handle write finish_write encode_body status_of status_code persist_write
      write_data new_response answered after_get set_status_code set_json_body after_find_one
  answered-status e w = elim (Bool-cases (is e Sentinel.user_not_found)) [
    | inl n ↦ rw (n) refl
    | inr n ↦ elim (Bool-cases (is e Sentinel.parsing_error)) [
      | inl p ↦ rw (n, p) refl
      | inr p ↦ elim (Bool-cases (is e Sentinel.unauthenticated)) [
        | inl u ↦ rw (n, p, u) refl
        | inr u ↦ elim (Bool-cases (is e Sentinel.permission_denied)) [
          | inl d ↦ rw (n, p, u, d) refl
          | inr d ↦ rw (n, p, u, d) refl
        ]
      ]
    ]
  ]

  encoded-Answers :
      (c : C) (parameters : List (String × String)) (w : W) (id : Uuid) (user : User) (w' : W)
      (encoded : Result (List ℕ))
      → user_id parameters ≡ ok id
      → check (s.authentication c) (can_read_user id) ≡ none
      → s.user_repo.find_one c (by_id id) w ≡ (ok user, w')
      → to_out (to_data user) ≡ encoded
      → Answers c parameters w
          (after_handle ((Ending.returned none, set_json_body encoded new_response), w'))
  unfolding after_handle write finish_write encode_body status_of status_code persist_write
      write_data new_response after_get set_status_code set_json_body after_find_one
  encoded-Answers c parameters w id user w' (err e) u k f g =
      Answers.not_encoded id user e w' _ _ u k f g refl refl
  encoded-Answers c parameters w id user w' (ok []) u k f g =
      Answers.shown id user [] w' _ _ u k f g refl refl
  encoded-Answers c parameters w id user w' (ok (b ∷ bytes)) u k f g =
      Answers.shown id user (b ∷ bytes) w' _ _ u k f g refl refl

  found-Answers :
      (c : C) (parameters : List (String × String)) (w : W) (id : Uuid) (r : Result User × W)
      → user_id parameters ≡ ok id
      → check (s.authentication c) (can_read_user id) ≡ none
      → s.user_repo.find_one c (by_id id) w ≡ r
      → Answers c parameters w (answered (after_find_one s to_data r))
  unfolding after_handle write finish_write encode_body status_of status_code persist_write
      write_data new_response answered after_get set_status_code set_json_body after_find_one
  found-Answers c parameters w id (ok user, w') u k f =
      encoded-Answers c parameters w id user w' (to_out (to_data user)) u k f refl
  found-Answers c parameters w id (err e, w') u k f =
      elim (Bool-cases (is e Sentinel.domain_user_not_found)) [
        | inl n ↦ rw (n) (Answers.missing id e w' _ _ u k f n refl refl)
        | inr n ↦
            rw (n) (Answers.failed id e w' _ _ u k f n (answered-status e w') (answered-error e w'))
      ]

  -- A reader is refused only by the permission.
  checked_fails :
      (id : Uuid) (reader : Authentication) (allowed : Bool) (e : Error)
      → can_read_user id reader ≡ ok allowed
      → check (some reader) (can_read_user id) ≡ some e
      → (allowed ≡ false) × (Error.sentinel Sentinel.permission_denied ≡ e)
  unfolding check
  checked_fails id reader true e r k = let z = rw (r, check) at k in cc
  checked_fails id reader false e r k = let z = rw (r, check) at k in (refl, cc)

  -- The two ways in which the check of the permission ends with an error.
  refused-Answers :
      (c : C) (parameters : List (String × String)) (w : W) (id : Uuid) (e : Error)
      (found : Option Authentication)
      → user_id parameters ≡ ok id
      → s.authentication c ≡ found
      → check found (can_read_user id) ≡ some e
      → Answers c parameters w (answered (err e, w))
  unfolding check can_read_user answered
  refused-Answers c parameters w id e none u a k =
      let p : Error.message "authentication not found" ≡ e = cc in
      Answers.unauthenticated id _ _ u a (answered-status e w ∙ sym (ap failure_status p))
        (answered-error e w)
  refused-Answers c parameters w id e (some reader) u a k =
      let (f, p) = checked_fails id reader (principal_can_read id reader.principal) e refl k in
      Answers.refused id reader _ _ u a (ap ok f) (answered-status e w ∙ sym (ap failure_status p))
        (answered-error e w)

  parsed-Answers :
      (c : C) (parameters : List (String × String)) (w : W) (r : Result Uuid)
      → user_id parameters ≡ r
      → Answers c parameters w (after_handle (get_parsed s to_data parse to_out c r new_response w))
  unfolding get_parsed get_by_id answered after_handle write finish_write encode_body status_of
      status_code persist_write new_response
  parsed-Answers c parameters w (err e) u =
      let p = path_parameter_fails parameters e u in Answers.malformed e _ _ u (rw (p)) refl
  parsed-Answers c parameters w (ok id) u =
      elim (Option-cases (check (s.authentication c) (can_read_user id))) [
        | inl k ↦
            rw (k, get_parsed, get_by_id)
              (found-Answers c parameters w id (s.user_repo.find_one c (by_id id) w) u k refl)
        | inr (e, k) ↦
            rw (k, get_parsed, get_by_id)
              (refused-Answers c parameters w id e (s.authentication c) u refl k)
      ]

  -- Every request for one user is answered with 400 for a path without an id; with 500 without authentication
  -- and with 403 for a reader without the permission, both leaving the world as it was; with 404 for a
  -- user that the repository does not have; for another error of it with the status of its kind, which is
  -- 500 but for the errors of the service; with the encoded user and 200 for a reader with the permission; or
  -- with 500 if the user cannot be encoded. There is no body but that of the user.
  pub get_user_by_id-Answers :
      (c : C) (parameters : List (String × String)) (w : W)
      → Answers c parameters w (serve (get_user_by_id s to_data parse to_out c parameters) w)
  unfolding serve get_user_by_id parse_request
  get_user_by_id-Answers c parameters w = parsed-Answers c parameters w _ refl
