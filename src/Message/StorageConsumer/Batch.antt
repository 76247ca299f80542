-- ===== src/Message/StorageConsumer/Batch.antt =====
-- One batch of pkg/message/storageconsumer.go, from the lock of the topic to its release, and the loop
-- over batches. The delivery of the messages found, with the wait after it, is a parameter here;
-- StorageConsumer.Threads has its steps.
use go_service_template.Common.{
  ℕ, zero, suc, Bool, true, false, Option, none, some, List, [], ◌∷◌, ltb, if◌then◌else◌, Error,
  Result, ok, err,
}
use go_service_template.Message.{Message, Effect}
use go_service_template.Message.StorageConsumer.{StorageConsumer, Processing, batch_specification}

-- What a batch returns: whether all messages are processed, how many were, and the error.
pub record BatchResult : Type 0 where
  pub all_processed : Bool
  pub processed_count : ℕ
  pub error : Option Error

module _ {W : Type 0} (c : StorageConsumer W) (deliver : List Message → W → BatchResult × W) where
  pub after_find_batch : Result (List Message) × W → BatchResult × W
  after_find_batch (err e, w) = (
    record {
      all_processed = false;
      processed_count = 0;
      error = some (Error.wrap "find storage messages: %w" e);
    },
    w,
  )
  after_find_batch (ok [], w) =
      (record { all_processed = true; processed_count = 0; error = none }, w)
  after_find_batch (ok (m ∷ ms), w) = deliver (m ∷ ms) w

  -- The deferred function. It wraps `err`, which is nil there, so that the new error wraps nothing.
  pub after_batch_release : BatchResult → Option Error × W → BatchResult × W
  after_batch_release (r) (none, w) = (r, w)
  after_batch_release (r) (some e, w) = elim r.error [
    | some _ ↦ (r, w)
    | none ↦ (record r { error = some (Error.message "release topic lock: %w") }, w)
  ]

  pub after_batch_lock : Processing → Result (Effect W) × W → BatchResult × W
  unfolding after_find_batch after_batch_release
  after_batch_lock p (err e, w) = (
    record {
      all_processed = false;
      processed_count = 0;
      error = some (Error.wrap "get topic lock: %w" e);
    },
    w,
  )
  after_batch_lock p (ok release, w) =
      let (r, w') = after_find_batch (c.storage.find (batch_specification c p w) w) in
      after_batch_release r (release w')

  -- `consumeStorageMessagesBatch`.
  unfoldable pub consume_batch : Processing → W → BatchResult × W
  unfolding after_batch_lock
  consume_batch p w = after_batch_lock p (c.storage.lock ("topic" ∷ c.topic ∷ []) w)

-- The function that `consumeStorageMessages` retries, with fuel for its loop: `batch` is a batch, and
-- `report` the loop over `onMessageBatchProcessed`.
module _ {W : Type 0} (batch : W → BatchResult × W) (report : ℕ → Option Error → W → W) where
  pub report_batch : BatchResult × W → W
  report_batch (r, w) = elim r.error [
    | some e ↦ report r.processed_count (some e) w
    | none ↦ if ltb 0 r.processed_count then report r.processed_count none w else w
  ]

  pub after_consume : BatchResult × W → (W → Option (Option Error × W)) → Option (Option Error × W)
  unfolding report_batch
  after_consume (r, w) again = elim r.error [
    | some e ↦ some (some e, report_batch (r, w))
    | none ↦ elim r.all_processed [
      | true ↦ some (none, report_batch (r, w))
      | false ↦ again (report_batch (r, w))
    ]
  ]

  unfoldable pub consume_storage_messages : ℕ → W → Option (Option Error × W)
  unfolding after_consume
  consume_storage_messages zero w = none
  consume_storage_messages (suc fuel) w = after_consume (batch w) (consume_storage_messages fuel)
