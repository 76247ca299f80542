-- ===== src/Message/Serializer.antt =====
-- The JSON serializer of pkg/message/serializer.go. The encoding of values as JSON, which is that of the
-- standard library, is a parameter.
use go_service_template.Common.{
  ℕ, String, Option, none, some, List, [], string_eq, Error, Sentinel, Result, ok, err,
}
use go_service_template.Common.Assoc.{lookup, insert}
use go_service_template.Message.{StructuredMessage, Metadata}

pub record JsonMessage : Type 0 where
  pub message_type : String
  pub payload : List ℕ  -- a string, which is the bytes of the encoded message
  pub meta : Metadata

-- `json.Marshal` and `json.Unmarshal`, at the types that the code uses them with.
pub record Json : Type 0 where
  pub marshal : StructuredMessage → Result (List ℕ)
  pub marshal_message : JsonMessage → Result (List ℕ)
  pub unmarshal_message : List ℕ → Result JsonMessage

abbrev pub PayloadDeserializer : Type 0
PayloadDeserializer = List ℕ → Result StructuredMessage

-- A `JSONSerializer`: its `deserializers`.
abbrev pub JsonSerializer : Type 0
JsonSerializer = List (String × PayloadDeserializer)

-- `NewJSONSerializer`.
abbrev pub new_json_serializer : JsonSerializer
new_json_serializer = []

abbrev pub envelope : StructuredMessage → Metadata → List ℕ → JsonMessage
envelope msg meta payload = record {
  message_type = msg.message_type;
  payload = payload;
  meta = meta;
}

unfoldable pub wrap_result : {A : Type 0} → String → Result A → Result A
wrap_result text (ok a) = ok a
wrap_result text (err e) = err (Error.wrap text e)

module _ (json : Json) where
  unfoldable pub encode_envelope : StructuredMessage → Metadata → Result (List ℕ) → Result (List ℕ)
  unfolding wrap_result
  encode_envelope msg meta (err e) = err (Error.wrap "encode message %v %s: %w" e)
  encode_envelope msg meta (ok payload) =
      wrap_result "encode message data for %s: %w"
        (json.marshal_message (envelope msg meta payload))

  -- `Serialize`.
  unfoldable pub serialize : StructuredMessage → Metadata → Result (List ℕ)
  unfolding encode_envelope
  serialize msg meta = encode_envelope msg meta (json.marshal msg)

  unfoldable pub with_metadata :
      Metadata → Result StructuredMessage → Result (StructuredMessage × Metadata)
  with_metadata meta (ok msg) = ok (msg, meta)
  with_metadata meta (err e) = err (Error.wrap "deserialize message: %w" e)

  unfoldable pub deserialize_payload :
      JsonMessage → Option PayloadDeserializer → Result (StructuredMessage × Metadata)
  unfolding with_metadata
  deserialize_payload data_ none =
      err (Error.wrap "%w %s" (Error.sentinel Sentinel.deserialize_unknown_message))
  deserialize_payload data_ (some deserializer) =
      with_metadata data_.meta (deserializer data_.payload)

  unfoldable pub deserialize_envelope :
      JsonSerializer → Result JsonMessage → Result (StructuredMessage × Metadata)
  unfolding deserialize_payload
  deserialize_envelope s (err e) = err (Error.sentinel Sentinel.deserialize_unknown_message)
  deserialize_envelope s (ok data_) = deserialize_payload data_ (lookup data_.message_type s)

  -- `Deserialize`.
  unfoldable pub deserialize : JsonSerializer → List ℕ → Result (StructuredMessage × Metadata)
  unfolding deserialize_envelope
  deserialize s bytes = deserialize_envelope s (json.unmarshal_message bytes)

-- `RegisterDeserializer`.
unfoldable pub register_deserializer :
    String → PayloadDeserializer → JsonSerializer → Option Error × JsonSerializer
register_deserializer message_type deserializer s = elim (lookup message_type s) [
  | some _ ↦ (some (Error.message "deserializer for %v already exists"), s)
  | none ↦ (none, insert message_type deserializer s)
]

-- `PayloadDeserializerImpl`, where `unmarshal` is `json.Unmarshal` at the type of the message.
unfoldable pub payload_deserializer_impl : PayloadDeserializer → PayloadDeserializer
unfolding wrap_result
payload_deserializer_impl unmarshal payload = wrap_result "json decode %T: %w" (unmarshal payload)
