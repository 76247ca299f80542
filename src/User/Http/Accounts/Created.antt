-- ===== src/User/Http/Accounts/Created.antt =====
-- The answers to a registration, down to the table of users.
use mathlib.Core.Path.{subst}
use go_service_template.Common.{
  ℕ, ◌≡◌, refl, ◌⊎◌, inl, inr, String, true, if◌then◌else◌, none, some, List, [], ◌∷◌, Error,
  Sentinel, is, Result, ok, err, Bool-cases,
}
use go_service_template.Common.Text.{is_empty, trim_space, trim_space-trim_space}
use go_service_template.Message.{Uuid}
use go_service_template.User.Stored.{Table}
use go_service_template.User.Service.{UserService, UserCredentials, register}
use go_service_template.User.Service.Register.{IsRegistered, register-IsRegistered, register_hashes}
use go_service_template.Http.{
  Response, new_response, set_status_code, set_json_body, HandlerMetadata, Answer, status_of,
  status_code, write_data, encode_body, persist_write, finish_write, write, Ending, after_handle,
  serve, parse_request,
}
use go_service_template.Http.Parser.{json_body}
use go_service_template.User.Http.Accounts.{
  CredentialsIn, set_register_status, after_register, register_trimmed, register_parsed,
  register_user,
}

-- The status for an error of `Register`.
abbrev pub rejection_status : Error → ℕ
rejection_status e =
    if is e Sentinel.invalid_user_credentials
    then 400
    else if is e Sentinel.user_is_already_deleted
    then 403
    else if is e Sentinel.user_already_exists
    then 409
    else if is e Sentinel.parsing_error
    then 400
    else if is e Sentinel.unauthenticated
    then 401
    else if is e Sentinel.permission_denied
    then 403
    else 500

-- An answer without a body, with a status.
pub record Fails (status : ℕ) (a : Answer) : Type 0 where
  pub code : a.status ≡ status
  pub no_body : a.answer_body ≡ []

abbrev answer_to : Error → Response → Answer
answer_to e r = (write (some e) r).1

unread-Fails :
    (e : Error) → is e Sentinel.parsing_error ≡ true → Fails 400 (answer_to e new_response)
unfolding write finish_write encode_body persist_write new_response status_of status_code
unread-Fails e h = record { code = rw (h) refl; no_body = refl }

bad_request-Fails : (e : Error) → Fails 400 (answer_to e (set_status_code 400 new_response))
unfolding write finish_write encode_body persist_write new_response set_status_code status_of
    status_code
bad_request-Fails e = record { code = refl; no_body = refl }

error-Fails :
    (e : Error)
    → Fails
        (if is e Sentinel.parsing_error
          then 400
          else if is e Sentinel.unauthenticated
          then 401
          else if is e Sentinel.permission_denied
          then 403
          else 500)
        (answer_to e new_response)
unfolding write finish_write encode_body persist_write new_response status_of status_code
error-Fails e = elim (Bool-cases (is e Sentinel.parsing_error)) [
  | inl a ↦ rw (a) (record { code = refl; no_body = refl })
  | inr a ↦ elim (Bool-cases (is e Sentinel.unauthenticated)) [
    | inl b ↦ rw (a, b) (record { code = refl; no_body = refl })
    | inr b ↦ elim (Bool-cases (is e Sentinel.permission_denied)) [
      | inl d ↦ rw (a, b, d) (record { code = refl; no_body = refl })
      | inr d ↦ rw (a, b, d) (record { code = refl; no_body = refl })
    ]
  ]
]

rejected-Fails :
    (e : Error) → Fails (rejection_status e) (answer_to e (set_register_status e new_response))
unfolding write finish_write encode_body persist_write new_response set_status_code status_of
    status_code set_register_status
rejected-Fails e = elim (Bool-cases (is e Sentinel.invalid_user_credentials)) [
  | inl a ↦ rw (a, set_register_status) (record { code = refl; no_body = refl })
  | inr a ↦ elim (Bool-cases (is e Sentinel.user_is_already_deleted)) [
    | inl b ↦ rw (a, b, set_register_status) (record { code = refl; no_body = refl })
    | inr b ↦ elim (Bool-cases (is e Sentinel.user_already_exists)) [
      | inl d ↦ rw (a, b, d, set_register_status) (record { code = refl; no_body = refl })
      | inr d ↦ rw (a, b, d, set_register_status) (error-Fails e)
    ]
  ]
]

unread_fails :
    {A : Type 0}
    → (e : Error) (f : Error) → json_body {A = A} (err e) ≡ err f
    → is f Sentinel.parsing_error ≡ true
unfolding json_body
unread_fails e f h =
    subst (λ x. is x Sentinel.parsing_error ≡ true)
      (let p : Error.wrap_both "%w: encode json body: %w" (Error.sentinel Sentinel.parsing_error) e
            ≡ f =
          cc in
        p)
      refl

module _ {C W : Type 0} (s : UserService C W) (t : Table s.user_repo s.transaction)
    (to_out : Uuid → Result (List ℕ)) where
  open t use {Row}

  -- A user is stored, with the login and the password of the body as `Register` keeps them.
  abbrev pub IsCreated : CredentialsIn → Uuid → W → Type 0
  IsCreated body id w =
      (hash : String) × (s.hash_password (trim_space body.password) ≡ ok hash)
      × IsRegistered Row (s.to_lower (trim_space body.login)) hash id w

  abbrev pub trimmed : CredentialsIn → UserCredentials
  trimmed body = record { login = trim_space body.login; password = trim_space body.password }

  -- The answers: to a body that is not read, and to one with a blank login or password, neither of which
  -- changes anything; to an error of `Register`; and to the id of a new user, which is stored.
  pub data Creates (c : C) (parsed : Result CredentialsIn) (w : W)
      : (HandlerMetadata × Answer) × W → Type 0 where
    unread :
        (e : Error) (m : HandlerMetadata) (a : Answer)
        → parsed ≡ err e
        → Fails 400 a
        → Creates c parsed w ((m, a), w)
    blank :
        (body : CredentialsIn) (m : HandlerMetadata) (a : Answer)
        → parsed ≡ ok body
        → (is_empty (trim_space body.login) ≡ true) ⊎ (is_empty (trim_space body.password) ≡ true)
        → Fails 400 a
        → Creates c parsed w ((m, a), w)
    rejected :
        (body : CredentialsIn) (e : Error) (w' : W) (m : HandlerMetadata) (a : Answer)
        → parsed ≡ ok body
        → register s c (trimmed body) w ≡ (err e, w')
        → Fails (rejection_status e) a
        → Creates c parsed w ((m, a), w')
    created :
        (body : CredentialsIn) (id : Uuid) (w' : W) (m : HandlerMetadata) (a : Answer)
        → parsed ≡ ok body
        → register s c (trimmed body) w ≡ (ok id, w')
        → IsCreated body id w'
        → a.status ≡ 201
        → to_out id ≡ ok a.answer_body
        → Creates c parsed w ((m, a), w')
    not_encoded :
        (body : CredentialsIn) (id : Uuid) (e : Error) (w' : W) (m : HandlerMetadata) (a : Answer)
        → parsed ≡ ok body
        → register s c (trimmed body) w ≡ (ok id, w')
        → IsCreated body id w'
        → to_out id ≡ err e
        → Fails 500 a
        → Creates c parsed w ((m, a), w')

  registered-IsCreated :
      (body : CredentialsIn) (c : C) (id : Uuid) (w w' : W)
      → register s c (trimmed body) w ≡ (ok id, w')
      → IsCreated body id w'
  registered-IsCreated body c id w w' h =
      let (hash, k) = register_hashes s t c (trimmed body) w w' id h in
      (
        hash,
        subst (λ x. s.hash_password x ≡ ok hash) (trim_space-trim_space body.password) k,
        subst (λ x. IsRegistered Row (s.to_lower x) hash id w') (trim_space-trim_space body.login)
            (register-IsRegistered s t c (trimmed body) hash w w' id k h),
      )

  module _ (c : C) (parsed : Result CredentialsIn) (body : CredentialsIn) (w : W)
      (p : parsed ≡ ok body) where
    registered-Creates :
        (id : Uuid) (w' : W) (encoded : Result (List ℕ))
        → register s c (trimmed body) w ≡ (ok id, w')
        → to_out id ≡ encoded
        → Creates c parsed w (
            after_handle (
              (Ending.returned none, set_status_code 201 (set_json_body encoded new_response)),
              w',
            ))
    unfolding after_handle write finish_write encode_body persist_write new_response set_status_code
        status_of status_code set_json_body write_data
    registered-Creates id w' (ok []) h e =
        Creates.created body id w' _ _ p h (registered-IsCreated body c id w w' h) refl e
    registered-Creates id w' (ok (b ∷ bytes)) h e =
        Creates.created body id w' _ _ p h (registered-IsCreated body c id w w' h) refl e
    registered-Creates id w' (err f) h e =
        Creates.not_encoded body id f w' _ _ p h (registered-IsCreated body c id w w' h) e
          (record { code = refl; no_body = refl })

    after_register-Creates :
        (r : Result Uuid × W)
        → register s c (trimmed body) w ≡ r
        → Creates c parsed w (after_handle (after_register s to_out new_response r))
    unfolding after_handle after_register
    after_register-Creates (err e, w') h = Creates.rejected body e w' _ _ p h (rejected-Fails e)
    after_register-Creates (ok id, w') h = registered-Creates id w' (to_out id) h refl

  register_parsed-Creates :
      (c : C) (parsed : Result CredentialsIn) (w : W)
      → Creates c parsed w
          (after_handle (register_parsed s to_out c (json_body parsed) new_response w))
  unfolding register_parsed register_trimmed after_handle json_body
  register_parsed-Creates c (err e) w =
      Creates.unread e _ _ refl (unread-Fails _ (unread_fails {A = CredentialsIn} e _ refl))
  register_parsed-Creates c (ok body) w = elim (Bool-cases (is_empty (trim_space body.login))) [
    | inl l ↦ rw (l, register_trimmed) (Creates.blank body _ _ refl (inl l) (bad_request-Fails _))
    | inr l ↦ elim (Bool-cases (is_empty (trim_space body.password))) [
      | inl q ↦
          rw (l, q, register_trimmed) (Creates.blank body _ _ refl (inr q) (bad_request-Fails _))
      | inr q ↦
          rw (l, q, register_trimmed)
            (after_register-Creates c (ok body) body w refl (register s c (trimmed body) w) refl)
    ]
  ]

  -- Over a table of users that keeps its laws, a request to register is answered without a body and with 400 if its body is not read, or has a blank
  -- login or password, and then nothing changes; with the status of the error if `Register` returns one; and
  -- if it returns an id, with 201 and this id, or with 500 and no body if it cannot be encoded, and in
  -- both cases a user with the id, the trimmed login of the body in lower case and the hash of the trimmed
  -- password is stored, and is not deleted.
  pub register_user-Creates :
      (c : C) (parsed : Result CredentialsIn) (w : W)
      → Creates c parsed w (serve (register_user s to_out c parsed) w)
  unfolding serve register_user parse_request
  register_user-Creates c parsed w = register_parsed-Creates c parsed w
