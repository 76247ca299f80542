-- ===== src/Message/BusListener/RoundTrip.antt =====
-- That a listener reads what a producer's serializer has written, for the messages whose functions
-- are registered.
use go_service_template.Common.{
  ℕ, ◌≡◌, refl, sym, ap, ◌∙◌, inl, inr, String, string_eq, pair_eq, none, some, List, get_elem?,
  Result, ok, err, Option-cases,
}
use go_service_template.Common.Assoc.{lookup}
use go_service_template.Message.{StructuredMessage, Metadata, Topic}
use go_service_template.Message.Serializer.{
  Json, envelope, serialize, encode_envelope, wrap_result, deserialize, deserialize_envelope,
  deserialize_payload, with_metadata,
}
use go_service_template.Message.BusListener.{
  Subscriber, RegisteredHandlers, ListenerData, Listeners, new_registration, register_functions,
  register_topic_handlers,
}
use go_service_template.Message.BusListener.Registered.{
  IsKnown, register_functions-IsKnown, after_register_functions-Holds,
}

-- The listener of a topic knows each of the functions that were registered for it.
pub register_topic_handlers-IsKnown :
    {W K O : Type 0}
    → (provide_consumer : Topic → Subscriber → W → Result K × W) (subscriber : Subscriber)
      (topic : Topic) (funcs : List (RegisteredHandlers W)) (opts : List O)
      (listeners after : Listeners W K O) (w w' : W) (i : ℕ) (f : RegisteredHandlers W)
    → register_topic_handlers provide_consumer subscriber topic funcs opts (listeners, w)
      ≡ (none, (after, w'))
    → get_elem? funcs i ≡ some f
    → (entry : ListenerData W K O) × (lookup (subscriber, topic) after ≡ some entry)
      × IsKnown f entry.deserializer entry.handlers
unfolding register_topic_handlers
register_topic_handlers-IsKnown provide_consumer subscriber topic funcs opts listeners after w w' i
      f e k =
    elim (Option-cases (lookup (subscriber, topic) listeners)) [
      | inl l ↦
          let (n, h) =
            after_register_functions-Holds provide_consumer (subscriber, topic) opts
              (register_functions funcs new_registration) listeners after w w'
              (rw (l, register_topic_handlers) at e) in
          let known =
            register_functions-IsKnown funcs new_registration
              (register_functions funcs new_registration).1 f i
              (ap (λ r. (r, (register_functions funcs new_registration).1)) n) k in
          (
            h.entry,
            h.entered,
            record {
              deserializer = ap (lookup f.schema.message_type) h.deserializer ∙ known.deserializer;
              handlers = ap (lookup f.schema.message_type) h.handlers ∙ known.handlers;
            },
          )
      | inr (d, l) ↦ let z = rw (l, register_topic_handlers) at e in cc
    ]

module _ (json : Json) (msg : StructuredMessage) (meta : Metadata) where
  wrap_result-ok :
      {A : Type 0} → (text : String) (r : Result A) (a : A) → wrap_result text r ≡ ok a → r ≡ ok a
  unfolding wrap_result
  wrap_result-ok text (ok b) a e = e
  wrap_result-ok text (err f) a e = cc

  encode_envelope-ok :
      (r : Result (List ℕ)) (bytes : List ℕ)
      → encode_envelope json msg meta r ≡ ok bytes
      → (payload : List ℕ) × (r ≡ ok payload)
        × (json.marshal_message (envelope msg meta payload) ≡ ok bytes)
  unfolding encode_envelope
  encode_envelope-ok (err f) bytes e = cc
  encode_envelope-ok (ok payload) bytes e = (payload, refl, wrap_result-ok _ _ bytes e)

  -- If the functions of a topic have been registered without an error, one of them is for the type of a
  -- message, the message has been serialized without an error, and JSON reads back the message and
  -- its envelope, then the listener of the topic deserializes the bytes to the message with its metadata,
  -- and finds the handlers of that function for it.
  pub serialized-received :
      {W K O : Type 0}
      → (provide_consumer : Topic → Subscriber → W → Result K × W) (subscriber : Subscriber)
        (topic : Topic) (funcs : List (RegisteredHandlers W)) (opts : List O)
        (listeners after : Listeners W K O) (w w' : W) (i : ℕ) (f : RegisteredHandlers W)
        (bytes : List ℕ)
      → register_topic_handlers provide_consumer subscriber topic funcs opts (listeners, w)
        ≡ (none, (after, w'))
      → get_elem? funcs i ≡ some f
      → f.schema.message_type ≡ msg.message_type
      → serialize json msg meta ≡ ok bytes
      → ((payload : List ℕ) → json.marshal msg ≡ ok payload → f.deserializer payload ≡ ok msg)
      → ((payload : List ℕ)
          → json.marshal msg ≡ ok payload
          → json.marshal_message (envelope msg meta payload) ≡ ok bytes
          → json.unmarshal_message bytes ≡ ok (envelope msg meta payload))
      → (entry : ListenerData W K O) × (lookup (subscriber, topic) after ≡ some entry)
        × (deserialize json entry.deserializer bytes ≡ ok (msg, meta))
        × (lookup msg.message_type entry.handlers ≡ some f.handlers)
  unfolding serialize deserialize deserialize_envelope deserialize_payload with_metadata
  serialized-received provide_consumer subscriber topic funcs opts listeners after w w' i f bytes e
        k t s read_payload read_envelope =
      let (entry, found, known) =
        register_topic_handlers-IsKnown provide_consumer subscriber topic funcs opts listeners after
          w w' i f e k in
      let (payload, m, b) = encode_envelope-ok (json.marshal msg) bytes s in
      let d : lookup msg.message_type entry.deserializer ≡ some f.deserializer =
        ap (λ x. lookup x entry.deserializer) (sym t) ∙ known.deserializer in
      (
        entry,
        found,
        rw (read_envelope payload m b, d, read_payload payload m),
        ap (λ x. lookup x entry.handlers) (sym t) ∙ known.handlers,
      )
