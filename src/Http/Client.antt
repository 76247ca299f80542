-- ===== src/Http/Client.antt =====
-- The client of pkg/http/client.go, without its calls of the library that sends the requests: its
-- options, and the middlewares that map the codes of responses to errors. The library's client has type
-- `R`, and a response is its status code and the rest, of type `B`.
pub mod Mapping
mod Examples
use go_service_template.Common.{
  ℕ, nat_eq, String, Bool, true, false, Option, none, some, List, [], ◌∷◌, ◌++◌, Error, Sentinel,
  Result, ok, err,
}
use go_service_template.Common.Assoc.{lookup}

pub record Response (B : Type 0) : Type 0 where
  pub status_code : ℕ
  pub rest : B

-- `func(*resty.Response, error) error`
abbrev pub ResponseMiddleware : Type 0 → Type 0
ResponseMiddleware B = Response B → Option Error → Option Error

-- The fields of a `ClientImpl` but for its options, which `Client` adds.
pub record ClientState (R B : Type 0) : Type 0 where
  pub destination_name : String
  pub response_middlewares : List (ResponseMiddleware B)
  pub rest_client : R

abbrev pub ClientOption : Type 0 → Type 0 → Type 0
ClientOption R B = ClientState R B → ClientState R B

pub record Client (R B : Type 0) : Type 0 where
  pub state : ClientState R B
  pub opts : List (ClientOption R B)

-- The error of a code, with the code.
abbrev pub mapped : Option Error → Option Error
mapped none = none
mapped (some e) = some (Error.wrap "%w: response status code %d" e)

module _ {B : Type 0} where
  -- The function `mw` of `WithResponseCodeMapping`.
  unfoldable pub map_response_code : List (ℕ × Error) → ResponseMiddleware B
  map_response_code status_codes resp (some e) = none
  map_response_code status_codes resp none = mapped (lookup resp.status_code status_codes)

  -- The loop of `Send`.
  unfoldable pub run_middlewares :
      List (ResponseMiddleware B) → Response B → Option Error → Option Error
  run_middlewares [] resp error = error
  run_middlewares (mw ∷ mws) resp error = run_middlewares mws resp (mw resp error)

  -- `Send`, on what the library returns: the response, if there is one, and the error.
  unfoldable pub send :
      List (ResponseMiddleware B) → Result (Response B) → Option (Response B) × Option Error
  unfolding run_middlewares
  send mws (err e) = (none, some e)
  send mws (ok resp) = (some resp, run_middlewares mws resp none)

module _ {R B : Type 0} where
  unfoldable pub apply_options : List (ClientOption R B) → ClientState R B → ClientState R B
  apply_options [] client = client
  apply_options (opt ∷ opts) client = apply_options opts (opt client)

  -- `NewClient`, where `blank` is `resty.New()`.
  unfoldable pub new_client : R → List (ClientOption R B) → Client R B
  unfolding apply_options
  new_client blank opts = record {
    state =
        apply_options opts
          (record { destination_name = ""; response_middlewares = []; rest_client = blank });
    opts = opts;
  }

  -- `With`.
  unfoldable pub with_options : R → List (ClientOption R B) → Client R B → Client R B
  unfolding new_client
  with_options blank [] client = client
  with_options blank (opt ∷ opts) client = new_client blank (client.opts ++ opt ∷ opts)

  -- `WithClientDestination`, over `SetBaseURL`.
  unfoldable pub with_client_destination : (String → R → R) → String → String → ClientOption R B
  with_client_destination set_base_url name url client = record client {
    destination_name = name;
    rest_client = set_base_url url client.rest_client;
  }

  unfoldable pub with_response_code_mapping : List (ℕ × Error) → ClientOption R B
  unfolding map_response_code
  with_response_code_mapping [] client = client
  with_response_code_mapping (code ∷ codes) client = record client {
    response_middlewares = client.response_middlewares ++ map_response_code (code ∷ codes) ∷ [];
  }

  unfoldable pub with_auth_response_code_mapping : ClientOption R B
  unfolding with_response_code_mapping
  with_auth_response_code_mapping = with_response_code_mapping (
      (401, Error.sentinel Sentinel.unauthenticated)
      ∷ (403, Error.sentinel Sentinel.permission_denied)
      ∷ [])

  -- `httpClient`, `InitRawClient` and `InitClient` of a `ClientFactory` with its `baseOpts`.
  unfoldable pub http_client : R → List (ClientOption R B) → List (ClientOption R B) → Client R B
  unfolding new_client
  http_client blank base_opts extra_opts = new_client blank (base_opts ++ extra_opts)

  unfoldable pub init_raw_client :
      R → List (ClientOption R B) → List (ClientOption R B) → Client R B
  unfolding http_client
  init_raw_client = http_client

  unfoldable pub init_client :
      R
      → (String → R → R)
      → List (ClientOption R B)
      → String
      → String
      → List (ClientOption R B)
      → Client R B
  unfolding http_client with_client_destination
  init_client blank set_base_url base_opts dest base_url extra_opts =
      http_client blank base_opts (with_client_destination set_base_url dest base_url ∷ extra_opts)
