-- ===== src/User/Session/Expiry.antt =====
-- A session token is good until it expires, and no longer.
use mathlib.Core.Path.{subst}
use go_service_template.Common.{ℕ, ◌+◌, ltb, if◌then◌else◌, ◌≡◌, refl, List, Error, Result, ok, err}
use go_service_template.Message.{Uuid, Time}
use go_service_template.User.Session.{
  SessionTokenPayload, TokenData, Codec, invalid_token, after_marshal, generate, after_unmarshal,
  after_decode_string, decode,
}

-- What is decoded is what was encoded.
pub record IsRoundTrip (codec : Codec) : Type 0 where
  pub strings : (bytes : List ℕ) → codec.decode_string (codec.encode_to_string bytes) ≡ ok bytes
  pub payloads :
      (p : SessionTokenPayload) (json : List ℕ)
      → codec.marshal p ≡ ok json
      → codec.unmarshal json ≡ ok p

ok-injective : (a b : TokenData) → ok a ≡ ok b → a ≡ b
ok-injective a b h = cc

-- What `Decode` makes of a token that `Generate` returned.
abbrev pub decoded : Time → TokenData → Result TokenData
decoded now t =
    if ltb t.valid_till now then err (Error.wrap "%w: token is expired" invalid_token) else ok t

module _ (codec : Codec) (round_trip : IsRoundTrip codec) where
  decode-after_marshal :
      (now : Time) (payload : SessionTokenPayload) (r : Result (List ℕ)) (t : TokenData)
      → codec.marshal payload ≡ r
      → after_marshal codec payload r ≡ ok t
      → decode codec now t.encoded_token ≡ decoded now t
  unfolding after_marshal decode after_decode_string after_unmarshal
  decode-after_marshal now payload (err e) t m h = cc
  decode-after_marshal now payload (ok json) t m h =
      subst (λ x. decode codec now x.encoded_token ≡ decoded now x) (ok-injective _ t h)
        (rw (round_trip.strings json, round_trip.payloads payload json m) refl)

  -- A token that `Generate` returned is decoded to the same data up to its last moment, and refused
  -- as invalid from then on.
  pub decode-generate :
      (created now : Time) (user_id : Uuid) (ttl : ℕ) (t : TokenData)
      → generate codec created user_id ttl ≡ ok t
      → decode codec now t.encoded_token ≡ decoded now t
  unfolding generate
  decode-generate created now user_id ttl t h =
      decode-after_marshal now
        (record { user_id = user_id; created_at = created; valid_till = created + ttl }) _ t refl h
