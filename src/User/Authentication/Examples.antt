-- ===== src/User/Authentication/Examples.antt =====
-- A session token at concrete inputs: a codec that writes numbers in unary.
use Prim.Native.Char.{code}
use go_service_template.Common.{
  ℕ, zero, suc, ◌+◌, ◌≡◌, refl, ap, ◌∙◌, String, List, [], ◌∷◌, nat_beq, arith, if◌then◌else◌,
  Sentinel, Error, Result, ok, err,
}
use go_service_template.User.Session.{SessionTokenPayload, TokenData, Codec, generate, decode}
use go_service_template.User.Session.Expiry.{IsRoundTrip, decode-generate}

abbrev write_number : ℕ → String → String
write_number zero rest = String.◌∷◌ "b" rest
write_number (suc n) rest = String.◌∷◌ "a" (write_number n rest)

abbrev write_numbers : List ℕ → String
write_numbers [] = ""
write_numbers (n ∷ ns) = write_number n (write_numbers ns)

abbrev read_numbers : ℕ → String → List ℕ
read_numbers n String.[] = []
read_numbers n (String.◌∷◌ c s) =
    if nat_beq (code c) 97 then read_numbers (suc n) s else n ∷ read_numbers 0 s

read_numbers-write_number :
    (n k : ℕ) (rest : String) → read_numbers k (write_number n rest) ≡ (k + n) ∷ read_numbers 0 rest
read_numbers-write_number zero k rest =
    let e : k ≡ k + 0 = omega arith in ap (λ m. m ∷ read_numbers 0 rest) e
read_numbers-write_number (suc n) k rest =
    let e : suc k + n ≡ k + suc n = omega arith in
    read_numbers-write_number n (suc k) rest ∙ ap (λ m. m ∷ read_numbers 0 rest) e

read_numbers-write_numbers : (ns : List ℕ) → read_numbers 0 (write_numbers ns) ≡ ns
read_numbers-write_numbers [] = refl
read_numbers-write_numbers (n ∷ ns) =
    let e : 0 + n ≡ n = omega arith in
    read_numbers-write_number n 0 (write_numbers ns)
    ∙ ap (λ m. m ∷ read_numbers 0 (write_numbers ns)) e
    ∙ ap (λ ms. n ∷ ms) (read_numbers-write_numbers ns)

abbrev unmarshal : List ℕ → Result SessionTokenPayload
unmarshal (a ∷ b ∷ c ∷ []) = ok (record { user_id = a; created_at = b; valid_till = c })
unmarshal _ = err (Error.message "invalid")

abbrev unary : Codec
unary = record {
  marshal = λ p. ok (p.user_id ∷ p.created_at ∷ p.valid_till ∷ []);
  unmarshal = unmarshal;
  encode_to_string = write_numbers;
  decode_string = λ s. ok (read_numbers 0 s);
}

unmarshal-marshal :
    (p : SessionTokenPayload) (json : List ℕ) → unary.marshal p ≡ ok json → unmarshal json ≡ ok p
unmarshal-marshal p json h =
    let e : p.user_id ∷ p.created_at ∷ p.valid_till ∷ [] ≡ json = cc in rw⁻¹ e refl

abbrev unary-IsRoundTrip : IsRoundTrip unary
unary-IsRoundTrip = record {
  strings = λ bytes. ap ok (read_numbers-write_numbers bytes);
  payloads = unmarshal-marshal;
}

abbrev token : TokenData
token = record {
  encoded_token = write_numbers (3 ∷ 4 ∷ 9 ∷ []);
  user_id = 3;
  created_at = 4;
  valid_till = 9;
}

decode-generate_example :
    decode unary 10 token.encoded_token
    ≡ err (Error.wrap "%w: token is expired" (Error.sentinel Sentinel.invalid_token))
unfolding generate
decode-generate_example = decode-generate unary unary-IsRoundTrip 4 10 3 5 token refl
