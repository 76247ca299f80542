-- ===== src/Message/StorageConsumer/Provider.antt =====
-- What the `StorageConsumerProviderImpl` of pkg/message/storageconsumer.go does with all its consumers. A
-- consumer has type `K`, and acts on a world of type `W`.
use go_service_template.Common.{List, [], ◌∷◌, map}
use go_service_template.Message.{Topic}

module _ {K : Type 0} where
  -- `Process`, in the order of `range`.
  unfoldable pub process_all : {W : Type 0} → (K → W → W) → List (Topic × K) → W → W
  process_all process [] w = w
  process_all process ((topic, consumer) ∷ consumers) w =
      process_all process consumers (process consumer w)

  -- `Workers`, in the order of `range`.
  unfoldable pub consumer_workers : {J : Type 0} → (K → J) → List (Topic × K) → List J
  consumer_workers worker consumers = map (λ entry. worker entry.1) consumers
