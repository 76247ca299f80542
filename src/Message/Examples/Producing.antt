-- ===== src/Message/Examples/Producing.antt =====
-- A bus producer with one Go type that is registered for two topics, over a broker that is a log.
use mathlib.Core.Path.{subst}
use go_service_template.Common.{
  ℕ, ◌≡◌, refl, Option, none, some, List, [], ◌∷◌, ◌++◌, Result, ok, length, if◌then◌else◌, nat_eq,
  string_eq, pair_eq, ◌==◌, inl, inr, Bool-cases, All, arith, length-append,
}
use go_service_template.Common.Assoc.{lookup, insert, contains}
use go_service_template.Message.{
  Message, StructuredMessage, RegisteredMessage, Time, Topic, Metadata, Effect,
}
use go_service_template.Message.BusProducer.{
  BusProducer, BusProducerConfig, BusProduce, new_bus_producer, build_producer, serialize_payload,
  build_metadata,
}
use go_service_template.Message.BusProducer.Registry.{register}
use go_service_template.Message.BusProducer.Registry.Consistent.{
  IsConsistent, new_bus_producer-IsConsistent, register-IsConsistent,
}
use go_service_template.Message.BusProducer.Schedule.{schedule_impl, unknown_message}
use go_service_template.Message.BusProducer.Schedule.Calls.{
  calls, make_calls, all_known, schedule_impl-calls,
}
use go_service_template.Message.BusProducer.Schedule.Repeats.{IsTallied, schedule_impl-tally}

abbrev recording : Message → Option Time → Effect (List Message)
recording msg at log = (none, log ++ msg ∷ [])

abbrev plain : StructuredMessage → Metadata → Result (List ℕ)
plain msg meta = ok msg.content

abbrev no_options : BusProducerConfig (List Message)
no_options = record { middlewares = []; metadata_builders = [] }

abbrev deleted : ℕ → StructuredMessage
deleted n = record { id = n; message_type = "user.deleted"; reflect_type = 5; content = n ∷ [] }

abbrev user_deleted : RegisteredMessage
user_deleted = record { schema = deleted 0; key_builder = none }

abbrev empty : BusProducer (List Message)
empty = new_bus_producer recording plain no_options

abbrev registered : BusProducer (List Message)
registered =
    (register (("events", user_deleted ∷ []) ∷ ("audit", user_deleted ∷ []) ∷ []) [] empty).1

registered-IsConsistent : IsConsistent registered
registered-IsConsistent =
    register-IsConsistent (("events", user_deleted ∷ []) ∷ ("audit", user_deleted ∷ []) ∷ []) []
      empty (new_bus_producer-IsConsistent recording plain no_options)

register-IsConsistent_example : IsConsistent registered
register-IsConsistent_example =
    register-IsConsistent (("events", user_deleted ∷ []) ∷ ("audit", user_deleted ∷ []) ∷ []) []
      empty (new_bus_producer-IsConsistent recording plain no_options)

schedule_impl-calls_example :
    let ms = deleted 1 ∷ [] in
    schedule_impl registered none ms [] ≡ (
      if all_known registered ms
      then make_calls registered none (calls registered ms ms) []
      else some (some unknown_message, []))
schedule_impl-calls_example =
    schedule_impl-calls registered none (deleted 1 ∷ []) [] registered-IsConsistent

-- A producer that appends one message to the log.
abbrev Appends : BusProduce (List Message) → Type 0
Appends produce =
    (t : Topic) (m : StructuredMessage) (w : List Message)
    → (x : Message) × (produce t m none w ≡ (none, w ++ x ∷ []))

lookup-Appends :
    (k : Topic × ℕ) (v : BusProduce (List Message))
    (entries : List ((Topic × ℕ) × BusProduce (List Message)))
    → All (λ e. Appends e.1) entries
    → lookup k entries ≡ some v
    → Appends v
unfolding lookup
lookup-Appends k v [] a e = cc
lookup-Appends k v ((key, value) ∷ entries) a e = elim (Bool-cases (key == k)) [
  | inl b ↦ let f = rw (b) at e in let z : value ≡ v = cc in subst Appends z a.0
  | inr b ↦ lookup-Appends k v entries a.1 (rw (b) at e)
]

producers-Appends : All (λ e. Appends e.1) registered.producers
unfolding register new_bus_producer build_producer serialize_payload build_metadata lookup insert
    contains
producers-Appends = ((λ t m w. (_, refl)), ((λ t m w. (_, refl)), tt))

registered-IsTallied : IsTallied registered none 5 length
registered-IsTallied = record {
  counts = λ t produce m w e.
      let (x, f) = lookup-Appends (t, 5) produce registered.producers producers-Appends e t m w in
      (w ++ x ∷ [], f, omega (arith, length-append w (x ∷ [])));
}

abbrev batch : List StructuredMessage
batch = deleted 1 ∷ deleted 2 ∷ []

schedule_impl-tally_example :
    (w' : List Message) × (schedule_impl registered none batch [] ≡ some (none, w'))
    × (length w' ≡ 8)
unfolding register new_bus_producer lookup insert contains
schedule_impl-tally_example =
    schedule_impl-tally registered none 5 ("events" ∷ "audit" ∷ []) length batch []
      registered-IsConsistent refl (refl, (refl, tt)) registered-IsTallied
