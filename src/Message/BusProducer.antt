-- ===== src/Message/BusProducer.antt =====
-- The `busProducerImpl` of pkg/message/busproducer.go: registration of message types under topics,
-- and the production of messages to all topics of their types. Contexts are not modelled; a
-- world of type `W` carries what serializers, producers and middlewares read and write.
pub mod Registry
pub mod Schedule
use go_service_template.Common.{
  ℕ, Bool, true, false, String, Option, none, some, List, [], ◌∷◌, ◌++◌, if◌then◌else◌, ◌==◌,
  nat_eq, string_eq, pair_eq, Error, Result, ok, err,
}
use go_service_template.Common.Assoc.{lookup, insert, contains, add}
use go_service_template.Message.{
  Message, StructuredMessage, RegisteredMessage, Topic, Time, Metadata, Effect, and_then,
  wrap_error, with_result, with_value,
}

-- BusProduce
abbrev pub BusProduce : Type 0 → Type 0
BusProduce W = Topic → StructuredMessage → Option Time → Effect W

pub record BusProducerConfig (W : Type 0) : Type 0 where
  pub middlewares : List (BusProduce W → BusProduce W)
  pub metadata_builders : List (W → Result Metadata × W)

pub record BusProducer (W : Type 0) : Type 0 where
  pub producer_impl : Message → Option Time → Effect W
  pub serialize : StructuredMessage → Metadata → Result (List ℕ)
  pub message_topics : List (ℕ × List Topic)
  pub producers : List ((Topic × ℕ) × BusProduce W)
  pub topic_messages : List (Topic × List String)
  pub base_config : BusProducerConfig W

-- The constructors `NewBusProducer` and `NewBusScheduledProducer`, which differ in `producerImpl`.
unfoldable pub new_bus_producer :
    {W : Type 0}
    → (Message → Option Time → Effect W)
    → (StructuredMessage → Metadata → Result (List ℕ))
    → BusProducerConfig W
    → BusProducer W
new_bus_producer producer_impl serialize config = record {
  producer_impl = producer_impl;
  serialize = serialize;
  message_topics = [];
  producers = [];
  topic_messages = [];
  base_config = config;
}

-- A value of an optional one.
abbrev pub or_default {ℓ} : {A : Type ℓ} → Option A → A → A
or_default none a = a
or_default (some b) a = b

-- The `producerImpl` of `NewBusProducer`, over the `Produce` of a broker.
unfoldable pub produce_message :
    {W : Type 0} → (Message → Effect W) → Message → Option Time → Effect W
produce_message produce msg at w = wrap_error (Error.wrap "produce message: %w") (produce msg w)

-- The `producerImpl` of `NewBusScheduledProducer`, over the `Store` of a storage and `time.Now`.
unfoldable pub store_message :
    {W : Type 0} → (Time → List Message → Effect W) → (W → Time) → Message → Option Time → Effect W
store_message store now msg at w =
    wrap_error (Error.wrap "store message: %w") (store (or_default at (now w)) (msg ∷ []) w)

-- for key, value := range source { target[key] = value }
unfoldable pub merge : Metadata → Metadata → Metadata
merge [] target = target
merge ((k, v) ∷ source) target = merge source (insert k v target)

-- The loop over the metadata builders.
unfoldable pub build_metadata :
    {W : Type 0} → List (W → Result Metadata × W) → Metadata → W → Result Metadata × W
unfolding merge
build_metadata [] meta w = (ok meta, w)
build_metadata (builder ∷ builders) meta w =
    with_result (Error.wrap "build metadata for %T: %w") (builder w)
      λ extra w'. build_metadata builders (merge extra meta) w'

-- for i := len(middlewares) - 1; i >= 0; i-- { produce = middlewares[i](produce) }
pub apply_middlewares {ℓ} : {A : Type ℓ} → List (A → A) → A → A
apply_middlewares [] produce = produce
apply_middlewares (mw ∷ mws) produce = mw (apply_middlewares mws produce)

module _ {W : Type 0} where
  -- The closure `serializePayloadImpl`.
  unfoldable pub serialize_payload :
      BusProducer W → BusProducerConfig W → StructuredMessage → W → Result (List ℕ) × W
  unfolding build_metadata
  serialize_payload p config msg w =
      with_result (λ e. e) (build_metadata config.metadata_builders [] w)
        λ meta w'.
          with_result (Error.wrap "serialize message %T: %w") (p.serialize msg meta, w')
            λ payload w''. (ok payload, w'')

  -- The innermost `produce` of `buildProducer`.
  pub produce_raw :
      BusProducer W → BusProducerConfig W → Option (StructuredMessage → String) → BusProduce W
  unfolding serialize_payload
  produce_raw p config key_builder topic msg at w =
      let (payload, w') = serialize_payload p config msg w in
      with_value (Error.wrap "serialize message %T: %w") payload
        (λ bytes v. wrap_error (Error.wrap "produce message: %w") (
          p.producer_impl
            (record {
              id = msg.id;
              topic = topic;
              key = or_default key_builder (λ _. "") msg;
              payload = bytes;
            })
            at v))
        w'

  unfoldable pub build_producer :
      BusProducer W → BusProducerConfig W → Option (StructuredMessage → String) → BusProduce W
  unfolding produce_raw apply_middlewares
  build_producer p config key_builder =
      apply_middlewares config.middlewares (produce_raw p config key_builder)
