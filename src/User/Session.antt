-- ===== src/User/Session.antt =====
-- Session tokens: internal/user/app/session/token.go and the generator of
-- internal/user/infra/session/tokengenerator.go. JSON and base64 are parameters.
pub mod Expiry
use go_service_template.Common.{
  ℕ, ◌+◌, ltb, if◌then◌else◌, String, List, Sentinel, Error, Result, ok, err,
}
use go_service_template.Message.{Uuid, Time}

pub record SessionTokenPayload : Type 0 where
  pub user_id : Uuid
  pub created_at : Time
  pub valid_till : Time

pub record TokenData : Type 0 where
  pub encoded_token : String
  pub user_id : Uuid
  pub created_at : Time
  pub valid_till : Time

-- What the code calls of encoding/json and of encoding/base64.
pub record Codec : Type 0 where
  pub marshal : SessionTokenPayload → Result (List ℕ)
  pub unmarshal : List ℕ → Result SessionTokenPayload
  pub encode_to_string : List ℕ → String
  pub decode_string : String → Result (List ℕ)

abbrev pub token_data : String → SessionTokenPayload → TokenData
token_data token payload = record {
  encoded_token = token;
  user_id = payload.user_id;
  created_at = payload.created_at;
  valid_till = payload.valid_till;
}

abbrev pub invalid_token : Error
invalid_token = Error.sentinel Sentinel.invalid_token

module _ (codec : Codec) where
  open codec use {marshal, unmarshal, encode_to_string, decode_string}

  pub after_marshal : SessionTokenPayload → Result (List ℕ) → Result TokenData
  after_marshal payload (err e) = err (Error.wrap "encode token data to json: %w" e)
  after_marshal payload (ok json) = ok (token_data (encode_to_string json) payload)

  -- `Generate` at the time `now`.
  unfoldable pub generate : Time → Uuid → ℕ → Result TokenData
  unfolding after_marshal
  generate now user_id ttl =
      let payload : SessionTokenPayload = record {
        user_id = user_id;
        created_at = now;
        valid_till = now + ttl;
      } in
      after_marshal payload (marshal payload)

  pub after_unmarshal : Time → String → Result SessionTokenPayload → Result TokenData
  after_unmarshal now token (err e) =
      err (Error.wrap_both "%w: decode token data from json: %w" invalid_token e)
  after_unmarshal now token (ok payload) =
      if ltb payload.valid_till now
      then err (Error.wrap "%w: token is expired" invalid_token)
      else ok (token_data token payload)

  pub after_decode_string : Time → String → Result (List ℕ) → Result TokenData
  unfolding after_unmarshal
  after_decode_string now token (err e) =
      err (Error.wrap_both "%w: decode token base64: %w" invalid_token e)
  after_decode_string now token (ok json) = after_unmarshal now token (unmarshal json)

  -- `Decode` at the time `now`.
  unfoldable pub decode : Time → String → Result TokenData
  unfolding after_decode_string
  decode now token = after_decode_string now token (decode_string token)
