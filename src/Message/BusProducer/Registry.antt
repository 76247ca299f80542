-- ===== src/Message/BusProducer/Registry.antt =====
-- Registration in pkg/message/busproducer.go: `Register` and `registerImpl`.
pub mod Consistent
use go_service_template.Common.{
  String, Option, none, some, List, [], ◌∷◌, ◌++◌, if◌then◌else◌, ◌==◌, nat_eq, string_eq, pair_eq,
  Error,
}
use go_service_template.Common.Assoc.{lookup, insert, contains, add}
use go_service_template.Message.{RegisteredMessage, Topic, Effect, and_then, wrap_error}
use go_service_template.Message.BusProducer.{
  BusProducer, BusProducerConfig, or_default, build_producer,
}

-- for _, opt := range opts { opt(&config) }
pub apply_options {ℓ} : {A : Type ℓ} → List (A → A) → A → A
apply_options [] config = config
apply_options (opt ∷ opts) config = apply_options opts (opt config)

module _ {W : Type 0} where
  -- The end of `registerImpl`, with the message types of the topic known so far.
  pub add_message :
      Topic → RegisteredMessage → BusProducerConfig W → List String → BusProducer W → BusProducer W
  add_message topic msg config types p =
      let reflect_type = msg.schema.reflect_type in
      let topics = or_default (lookup reflect_type p.message_topics) [] in
      record p {
        producers =
            insert (topic, reflect_type) (build_producer p config msg.key_builder) p.producers;
        message_topics = insert reflect_type (topics ++ topic ∷ []) p.message_topics;
        topic_messages = insert topic (add msg.schema.message_type types) p.topic_messages;
      }

  unfoldable pub register_impl :
      Topic → RegisteredMessage → BusProducerConfig W → Effect (BusProducer W)
  unfolding add_message
  register_impl topic msg config p =
      let types = or_default (lookup topic p.topic_messages) [] in
      if msg.schema.message_type == ""
      then (some (Error.message "blank message %T must return const value of type"), p)
      else if contains msg.schema.message_type types
      then (some (Error.message "message type %s already registered in topic"), p)
      else (none, add_message topic msg config types p)

  pub register_topic : Topic → List RegisteredMessage → BusProducerConfig W → Effect (BusProducer W)
  unfolding register_impl
  register_topic topic [] config p = (none, p)
  register_topic topic (msg ∷ msgs) config p =
      and_then
        (wrap_error (Error.wrap "register for topic %s: %w") (register_impl topic msg config p))
        (register_topic topic msgs config)

  pub register_topics :
      List (Topic × List RegisteredMessage) → BusProducerConfig W → Effect (BusProducer W)
  unfolding register_topic
  register_topics [] config p = (none, p)
  register_topics ((topic, msgs) ∷ rest) config p =
      and_then (register_topic topic msgs config p) (register_topics rest config)

  -- `Register`; the entries of the map `msgs` come in the order in which `range` gives them.
  unfoldable pub register :
      List (Topic × List RegisteredMessage)
      → List (BusProducerConfig W → BusProducerConfig W)
      → Effect (BusProducer W)
  unfolding register_topics apply_options
  register msgs opts p = register_topics msgs (apply_options opts p.base_config) p
