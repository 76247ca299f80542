-- ===== src/Message/BusListener.antt =====
-- The registration of handlers in pkg/message/buslistener.go, over the JSON serializer. The provider of
-- consumers, whose consumers have type `K`, is a parameter that acts on a world of type `W`.
pub mod Registered
pub mod RoundTrip
mod Examples
use go_service_template.Common.{
  String, Option, none, some, List, [], ◌∷◌, ◌++◌, map, if◌then◌else◌, ◌==◌, string_eq, pair_eq,
  Error, Result, ok, err,
}
use go_service_template.Common.Assoc.{lookup, insert, contains, add}
use go_service_template.Message.{StructuredMessage, Topic, Effect, and_then}
use go_service_template.Message.Serializer.{
  PayloadDeserializer, JsonSerializer, new_json_serializer, register_deserializer,
}
use go_service_template.Message.Listener.{Handler}

abbrev pub Subscriber : Type 0
Subscriber = String

-- What a `RegisterHandlersFunc` returns.
pub record RegisteredHandlers (W : Type 0) : Type 0 where
  pub schema : StructuredMessage
  pub deserializer : PayloadDeserializer
  pub handlers : List (Handler W)

-- A `listenerData`; `O` is the type of options.
pub record ListenerData (W K O : Type 0) : Type 0 where
  pub consumer : K
  pub deserializer : JsonSerializer
  pub handlers : List (String × List (Handler W))
  pub extra_opts : List O

-- The field `listeners` of a `busListener`.
abbrev pub Listeners : Type 0 → Type 0 → Type 0 → Type 0
Listeners W K O = List ((Subscriber × Topic) × ListenerData W K O)

-- The variables of the loop in `registerTopicHandlers`.
pub record Registration (W : Type 0) : Type 0 where
  pub topic_message_types : List String
  pub deserializer : JsonSerializer
  pub handlers : List (String × List (Handler W))

module _ {W : Type 0} where
  -- The end of a round, after `RegisterDeserializer`.
  unfoldable pub after_register_deserializer :
      RegisteredHandlers W → Option Error × JsonSerializer → Effect (Registration W)
  after_register_deserializer f (some e, d) g =
      (some (Error.wrap "register deserializer for %T: %w" e), record g { deserializer = d })
  after_register_deserializer f (none, d) g = (
    none,
    record g { deserializer = d; handlers = insert f.schema.message_type f.handlers g.handlers },
  )

  -- A round of the loop.
  unfoldable pub register_function : RegisteredHandlers W → Effect (Registration W)
  unfolding after_register_deserializer
  register_function f g =
      if f.schema.message_type == ""
      then (some (Error.message "blank message %T must return message type const value"), g)
      else if contains f.schema.message_type g.topic_message_types
      then (some (Error.message "message type %s already registered"), g)
      else after_register_deserializer f
          (register_deserializer f.schema.message_type f.deserializer g.deserializer)
          (record g { topic_message_types = add f.schema.message_type g.topic_message_types })

  unfoldable pub register_functions : List (RegisteredHandlers W) → Effect (Registration W)
  unfolding register_function
  register_functions [] g = (none, g)
  register_functions (f ∷ fs) g = and_then (register_function f g) (register_functions fs)

abbrev pub new_registration : {W : Type 0} → Registration W
new_registration = record {
  topic_message_types = [];
  deserializer = new_json_serializer;
  handlers = [];
}

unfoldable pub wrap_register : {S : Type 0} → Option Error × S → Option Error × S
wrap_register (none, s) = (none, s)
wrap_register (some e, s) = (some (Error.wrap "register handler for topic %s by %s: %w" e), s)

module _ {W K O : Type 0} (provide_consumer : Topic → Subscriber → W → Result K × W) where
  unfoldable pub after_get_consumer :
      Subscriber × Topic
      → Registration W
      → List O
      → Result K × W
      → Listeners W K O
      → Option Error × (Listeners W K O × W)
  after_get_consumer key g opts (err e, w) listeners =
      (some (Error.wrap "get consumer: %w" e), (listeners, w))
  after_get_consumer key g opts (ok consumer, w) listeners = (
    none,
    (
      insert key
          (record {
            consumer = consumer;
            deserializer = g.deserializer;
            handlers = g.handlers;
            extra_opts = opts;
          })
          listeners,
      w,
    ),
  )

  unfoldable pub after_register_functions :
      Subscriber × Topic
      → List O
      → Option Error × Registration W
      → Listeners W K O × W
      → Option Error × (Listeners W K O × W)
  unfolding after_get_consumer
  after_register_functions key opts (some e, g) (listeners, w) = (some e, (listeners, w))
  after_register_functions key opts (none, g) (listeners, w) =
      after_get_consumer key g opts (provide_consumer key.1 key.0 w) listeners

  -- `registerTopicHandlers`.
  unfoldable pub register_topic_handlers :
      Subscriber → Topic → List (RegisteredHandlers W) → List O → Effect (Listeners W K O × W)
  unfolding after_register_functions register_functions
  register_topic_handlers subscriber topic funcs opts (listeners, w) =
      elim (lookup (subscriber, topic) listeners) [
        | some _ ↦ (some (Error.message "handlers already registered"), (listeners, w))
        | none ↦
            after_register_functions (subscriber, topic) opts
              (register_functions funcs new_registration) (listeners, w)
      ]

  -- `RegisterHandlers`; the entries of the map come in the order in which `range` gives them.
  unfoldable pub register_handlers :
      Subscriber
      → List (Topic × List (RegisteredHandlers W))
      → List O
      → Effect (Listeners W K O × W)
  unfolding register_topic_handlers wrap_register
  register_handlers subscriber [] opts s = (none, s)
  register_handlers subscriber ((topic, funcs) ∷ rest) opts s =
      and_then (wrap_register (register_topic_handlers subscriber topic funcs opts s))
        (register_handlers subscriber rest opts)

-- `Workers`, where `new_listener` is `NewListener` with the queue of the bus; the listeners come in the
-- order of `range`.
unfoldable pub workers :
    {W K O J : Type 0} → (ListenerData W K O → List O → J) → List O → Listeners W K O → List J
workers new_listener opts listeners =
    map (λ entry. new_listener entry.1 (opts ++ entry.1.extra_opts)) listeners
