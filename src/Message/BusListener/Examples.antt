-- ===== src/Message/BusListener/Examples.antt =====
-- A listener of one topic, for one type of event.
use go_service_template.Common.{
  ℕ, ◌≡◌, refl, ap, ◌+◌, string_eq, pair_eq, none, some, List, [], ◌∷◌, Result, ok,
}
use go_service_template.Common.Assoc.{lookup, insert, contains}
use go_service_template.Message.{StructuredMessage, Metadata, Topic}
use go_service_template.Message.Serializer.{
  Json, envelope, serialize, deserialize, encode_envelope, wrap_result, register_deserializer,
  payload_deserializer_impl,
}
use go_service_template.Message.Listener.{Handler}
use go_service_template.Message.BusListener.{
  Subscriber, RegisteredHandlers, ListenerData, Listeners, register_function, register_functions,
  register_topic_handlers, after_register_functions, after_get_consumer,
  after_register_deserializer,
}
use go_service_template.Message.BusListener.RoundTrip.{serialized-received}
use go_service_template.Message.Typed.{register_event_handlers, register_typed_handlers}

abbrev user_deleted : ℕ → StructuredMessage
user_deleted n = record {
  id = n;
  message_type = "user-deleted";
  reflect_type = 5;
  content = n ∷ [];
}

abbrev meta : Metadata
meta = ("requestID", "r") ∷ []

-- The JSON of one envelope.
abbrev json : Json
json = record {
  marshal = λ msg. ok msg.content;
  marshal_message = λ m. ok (9 ∷ []);
  unmarshal_message = λ bytes. ok (envelope (user_deleted 3) meta (3 ∷ []));
}

abbrev read_event : List ℕ → Result StructuredMessage
read_event bytes = ok (user_deleted 3)

abbrev counting : Handler ℕ
counting metadata msg w = (none, w + msg.id)

abbrev function : RegisteredHandlers ℕ
function = register_event_handlers read_event (user_deleted 0) (counting ∷ [])

abbrev provide : Topic → Subscriber → ℕ → Result ℕ × ℕ
provide topic subscriber w = (ok w, w + 1)

abbrev registered : Listeners ℕ ℕ ℕ
registered =
    (register_topic_handlers provide "user-service" "events" (function ∷ []) [] ([], 0)).1.0

abbrev before : Listeners ℕ ℕ ℕ
before = []

payloads_equal : (p q : List ℕ) → ok p ≡ ok q → p ≡ q
payloads_equal p q e = cc

serialized-received_example :
    (entry : ListenerData ℕ ℕ ℕ) × (lookup ("user-service", "events") registered ≡ some entry)
    × (deserialize json entry.deserializer (9 ∷ []) ≡ ok (user_deleted 3, meta))
    × (lookup "user-deleted" entry.handlers ≡ some function.handlers)
unfolding register_topic_handlers register_functions register_function after_register_functions
    after_get_consumer serialize encode_envelope wrap_result lookup insert contains
    register_deserializer after_register_deserializer register_event_handlers
    register_typed_handlers payload_deserializer_impl
serialized-received_example =
    serialized-received json (user_deleted 3) meta provide "user-service" "events" (function ∷ [])
      [] before registered 0 1 0 function (9 ∷ []) refl refl refl refl (λ payload e. refl)
      (λ payload e f.
        ap (λ p. ok (envelope (user_deleted 3) meta p)) (payloads_equal (3 ∷ []) payload e))
