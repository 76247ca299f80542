-- ===== src/Message/Observability/Examples.antt =====
-- The id of a request in the metadata of an event.
use go_service_template.Common.{
  ℕ, ◌≡◌, refl, sym, ap, inl, inr, String, string_eq, pair_eq, list_eq, ◌==◌, ==_iff, none, List,
  [], ◌∷◌, if◌then◌else◌, Error, Result, ok, err, Bool-cases,
}
use go_service_template.Common.Assoc.{lookup, insert, contains}
use go_service_template.Message.{Message, StructuredMessage, Metadata}
use go_service_template.Message.BusProducer.{
  BusProducer, BusProducerConfig, new_bus_producer, serialize_payload, build_metadata, merge,
}
use go_service_template.Message.Listener.{Handler, with_handler_metadata}
use go_service_template.Message.Listener.Handlers.{wrap_with_middlewares}
use go_service_template.Message.Observability.{
  with_bus_producer_observability, with_handler_observability, leave, build_fields, collect_values,
  metadata_of,
}
use go_service_template.Message.Observability.Carried.{serialized-observed}
use go_service_template.Observability.{Context, new_observer, field_of}

abbrev request : Context
request = record { values = ("requestID", "r1") ∷ []; log_fields = [] }

abbrev background : Context
background = record { values = []; log_fields = [] }

abbrev event : StructuredMessage
event = record { id = 3; message_type = "user-deleted"; reflect_type = 5; content = 3 ∷ [] }

abbrev carried : Metadata
carried = ("tenant", "t") ∷ ("observability/requestID", "r1") ∷ []

-- The JSON of one event.
abbrev write_json : StructuredMessage → Metadata → Result (List ℕ)
write_json msg meta = if meta == carried then ok (9 ∷ []) else err (Error.message "unexpected")

abbrev read_json : List ℕ → Result (StructuredMessage × Metadata)
read_json bytes = ok (event, carried)

abbrev config : BusProducerConfig (Context × ℕ)
config = record { middlewares = []; metadata_builders = (λ w. (ok (("tenant", "t") ∷ []), w)) ∷ [] }

abbrev producer : BusProducer (Context × ℕ)
producer = new_bus_producer (λ msg at w. (none, w)) write_json config

abbrev fields : List String
fields = "requestID" ∷ []

abbrev received : Message
received = record { id = 3; topic = "events"; key = ""; payload = 9 ∷ [] }

abbrev handler : Handler (Context × ℕ)
handler metadata msg (c, v) =
    if field_of c "requestID" == "r1" then (none, (c, 1)) else (none, (c, 0))

reads :
    (meta : Metadata) → write_json event meta ≡ ok (9 ∷ []) → read_json (9 ∷ []) ≡ ok (event, meta)
reads meta e = elim (Bool-cases (meta == carried)) [
  | inl s ↦ ap (λ m. ok (event, m)) (sym ((==_iff meta carried).0 s))
  | inr s ↦ let z = rw s at e in cc
]

serialized-observed_example :
    (meta : Metadata) × (seen : Context) × (read_json (9 ∷ []) ≡ ok (event, meta))
    × (wrap_with_middlewares
          (with_handler_observability (new_observer []) fields [])
          handler
          (with_handler_metadata received meta)
          event
          (background, 7)
        ≡ leave background (handler (with_handler_metadata received meta) event (seen, 7)))
    × (field_of seen "requestID" ≡ field_of request "requestID")
unfolding serialize_payload build_metadata merge with_bus_producer_observability build_fields
    collect_values metadata_of lookup insert contains new_observer field_of new_bus_producer
serialized-observed_example =
    serialized-observed producer config [] [] fields fields read_json event (9 ∷ []) request
      background 0 7 (request, 0) "requestID" handler received (λ w. refl, tt) refl reads refl refl
      refl
