-- ===== src/Message/StorageConsumer.antt =====
-- The consumer of stored messages of pkg/message/storageconsumer.go: the set of messages in
-- processing, the batches, and the worker and the listener as threads. All messages of a batch have
-- one topic, so that their ids are distinct (the table's primary key), and stand for them.
pub mod Provider
pub mod Batch
pub mod Threads
mod Examples
use go_service_template.Common.{
  ℕ, suc, Bool, true, false, Option, none, some, List, [], ◌∷◌, length, ltb, nat_eq, string_eq,
  if◌then◌else◌, Error, Result, ok, err,
}
use go_service_template.Common.Assoc.{add, delete, lookup, insert}
use go_service_template.Message.{Message, Topic, Uuid, Time, Effect, Storage, StorageSpecification}
use go_service_template.Message.Outbox.{call_each_with}

-- The fields of `storageConsumer` that its methods write: `processingMessages` and `processedCount`.
pub record Processing : Type 0 where
  pub processing_messages : List Uuid
  pub processed_count : ℕ

unfoldable pub add_to_processing : Uuid → Processing → Processing
add_to_processing id p =
    let ids = add id p.processing_messages in
    record { processing_messages = ids; processed_count = length ids }

unfoldable pub remove_from_processing : Uuid → Processing → Processing
remove_from_processing id p =
    let ids = delete id p.processing_messages in
    record { processing_messages = ids; processed_count = length ids }

-- The other fields that are read, with `time.Now`.
pub record StorageConsumer (W : Type 0) : Type 0 where
  pub topic : Topic
  pub consuming_batch_size : ℕ
  pub storage : Storage W
  pub on_acknowledge : List (Message → Option Error → W → W)
  pub now : W → Time

module _ {W : Type 0} (c : StorageConsumer W) where
  -- `Ack`, after the call of `Delete`.
  pub after_storage_delete :
      Message → Option Error × W → Processing → Option Error × (Processing × W)
  after_storage_delete msg (some e, w) p = (
    some (Error.wrap "delete message from storage: %w" e),
    (p, call_each_with c.on_acknowledge msg (some e) w),
  )
  after_storage_delete msg (none, w) p =
      (none, (remove_from_processing msg.id p, call_each_with c.on_acknowledge msg none w))

  unfoldable pub ack : Message → Processing → W → Option Error × (Processing × W)
  unfolding after_storage_delete
  ack msg p w = after_storage_delete msg (c.storage.delete msg.topic (msg.id ∷ []) w) p

  -- What `consumeStorageMessagesBatch` looks for.
  abbrev pub batch_specification : Processing → W → StorageSpecification
  batch_specification p w = record {
    ids_excluded = p.processing_messages;
    topics = c.topic ∷ [];
    scheduled_at_before = c.now w;
    limit = c.consuming_batch_size;
  }

-- `StorageConsumerProviderImpl.Consumer`, over what makes a consumer of a topic.
unfoldable pub provide_consumer :
    {A : Type 0} → (Topic → A) → Topic → List (Topic × A) → Result A × List (Topic × A)
provide_consumer new_consumer topic consumers = elim (lookup topic consumers) [
  | some _ ↦ (
    err (Error.message "consumer for topic %s already exists, only one is supported at a time"),
    consumers,
  )
  | none ↦ (ok (new_consumer topic), insert topic (new_consumer topic) consumers)
]
