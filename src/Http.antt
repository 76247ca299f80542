-- ===== src/Http.antt =====
-- How pkg/http/handler.go answers a request, and how pkg/http/parser.go reads a parameter of its path. A
-- handler acts on the response and on a world of type `W`; the request is part of the handler.
pub mod Observability
pub mod Authentication
pub mod Parser
pub mod Client
use go_service_template.Common.{
  ℕ, zero, suc, String, Bool, true, false, Option, none, some, List, [], ◌∷◌, Error, Sentinel, is,
  Result, ok, err, string_eq, if◌then◌else◌,
}
use go_service_template.Common.Assoc.{insert, lookup}

-- A `responseWriter` with its `deferredResponseWriter`. A code of 0 is one that is not set; `body` is
-- what `json.Marshal` returns for the body that was set.
pub record Response : Type 0 where
  pub headers : List (String × String)
  pub http_code : ℕ
  pub written : List ℕ
  pub body : Option (Result (List ℕ))

unfoldable pub new_response : Response
new_response = record { headers = []; http_code = 0; written = []; body = none }

unfoldable pub set_header : String → String → Response → Response
set_header key value r = record r { headers = insert key value r.headers }

unfoldable pub set_status_code : ℕ → Response → Response
set_status_code code r = record r { http_code = code }

unfoldable pub set_json_body : Result (List ℕ) → Response → Response
set_json_body marshalled r = record r { body = some marshalled }

-- What the middlewares read afterwards: a `handlerMetadata`, but for its authentication.
pub record HandlerMetadata : Type 0 where
  pub code : ℕ
  pub panicked : Bool
  pub error : Option Error

-- What the client gets; a status that is not written is 200.
pub record Answer : Type 0 where
  pub answer_headers : List (String × String)
  pub status : ℕ
  pub answer_body : List ℕ

-- The switch of `Write`, on a code that may be set already.
unfoldable pub status_of : Option Error → ℕ → ℕ
status_of error (suc n) = suc n
status_of none zero = 0
status_of (some e) zero =
    if is e Sentinel.parsing_error
    then 400
    else if is e Sentinel.unauthenticated
    then 401
    else if is e Sentinel.permission_denied
    then 403
    else 500

abbrev keep_error : Option Error → Error → Option Error
keep_error none e = some e
keep_error (some f) e = some f

-- `len(bodyEncoded) > 0`
unfoldable pub write_data : List ℕ → Response → Response
write_data [] r = r
write_data (b ∷ bytes) r = record r { written = b ∷ bytes }

-- The call of `bodyEncoder`, with the error so far.
unfoldable pub encode_body :
    Option (Result (List ℕ)) → Option Error → Response → Option Error × Response
unfolding write_data
encode_body none error r = (error, r)
encode_body (some (ok bytes)) error r = (
  error,
  write_data bytes (record r { headers = insert "Content-Type" "application/json" r.headers }),
)
encode_body (some (err e)) error r =
    (keep_error error (Error.wrap "encode body: %w" e), record r { http_code = 500 })

-- `StatusCode`.
unfoldable pub status_code : Response → ℕ
status_code r = elim r.http_code [ zero ↦ 200 | suc n ↦ suc n ]

-- `PersistWrite`; the error of writing a body would only be recorded.
unfoldable pub persist_write : Response → Answer
unfolding status_code
persist_write r = record {
  answer_headers = r.headers;
  status = status_code r;
  answer_body = r.written;
}

unfoldable pub finish_write : Option Error × Response → HandlerMetadata × Answer
unfolding status_code persist_write
finish_write (error, r) =
    (record { code = status_code r; panicked = false; error = error }, persist_write r)

-- `Write`.
unfoldable pub write : Option Error → Response → HandlerMetadata × Answer
unfolding finish_write encode_body status_of
write error r =
    finish_write (encode_body r.body error (record r { http_code = status_of error r.http_code }))

-- `WritePanic`.
unfoldable pub write_panic : Response → HandlerMetadata × Answer
unfolding persist_write
write_panic r = (
  record { code = 500; panicked = true; error = none },
  persist_write (record r { http_code = 500; written = [] }),
)

-- How a handler ends: it returns an error or nil, or panics.
pub data Ending : Type 0 where
  returned : Option Error → Ending
  panicked : Ending

abbrev pub Handler : Type 0 → Type 0
Handler W = Response → W → (Ending × Response) × W

module _ {W : Type 0} where
  unfoldable pub after_handle : (Ending × Response) × W → (HandlerMetadata × Answer) × W
  unfolding write write_panic
  after_handle ((Ending.returned error, r), w) = (write error r, w)
  after_handle ((Ending.panicked, r), w) = (write_panic r, w)

  -- The function that `httpHandlerWrapper` returns.
  unfoldable pub serve : Handler W → W → (HandlerMetadata × Answer) × W
  unfolding after_handle new_response
  serve handler w = after_handle (handler new_response w)

module _ {A : Type 0} where
  -- `parseTypedValueImpl`, after `ParseTypedValue`.
  unfoldable pub parse_typed_value_impl : Result A → Result A
  parse_typed_value_impl (ok v) = ok v
  parse_typed_value_impl (err e) =
      err (Error.wrap_both "%w: %w" (Error.sentinel Sentinel.parsing_error) e)

  -- `PathParameter`, where `parse` is `ParseTypedValue` at the type of the parameter.
  unfoldable pub path_parameter : (String → Result A) → String → List (String × String) → Result A
  unfolding parse_typed_value_impl
  path_parameter parse param parameters = elim (lookup param parameters) [
    | none ↦
        err (Error.wrap "%w: path parameter %s not found" (Error.sentinel Sentinel.parsing_error))
    | some value ↦ parse_typed_value_impl (parse value)
  ]

  -- `ParseRequest`, where `extractor` is applied to the request.
  unfoldable pub parse_request : Result A → Option Error → Result A
  parse_request extracted none = extracted
  parse_request extracted (some e) = err e
