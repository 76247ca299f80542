-- ===== src/Message/Outbox.antt =====
-- The message outbox of pkg/message/outbox.go: `processBatch` and `process`. The storage, the
-- producer, the clock and the callbacks are parameters that act on a world of type `W`.
pub mod Worker
pub mod Errors
pub mod Delivery
pub mod Order
pub mod Drain
use mathlib.Core.Option
use go_service_template.Common.{
  ℕ, zero, suc, Bool, true, false, Option, none, some, List, [], ◌∷◌, map, ltb, length, Error,
  Result, ok, err, if◌then◌else◌,
}
use go_service_template.Message.{
  Message, Topic, Uuid, Time, Effect, StorageSpecification, Storage, and_then,
}

-- The fields of `OutboxImpl` that `processBatch` reads; `now` is `time.Now`.
pub record Outbox (W : Type 0) : Type 0 where
  pub batch_size : ℕ
  pub on_internal_error : List (Error → W → W)
  pub on_found_messages : List (List Message → Option Error → W → W)
  pub on_sent_message : List (Message → Option Error → W → W)
  pub on_deleted_message : List (Message → Option Error → W → W)
  pub storage : Storage W
  pub produce : Message → Effect W
  pub now : W → Time

-- The loops over callbacks.
unfoldable pub call_each : {W A : Type 0} → List (A → W → W) → A → W → W
call_each [] a w = w
call_each (f ∷ fs) a w = call_each fs a (f a w)

unfoldable pub call_each_with :
    {W A : Type 0} → List (A → Option Error → W → W) → A → Option Error → W → W
call_each_with [] a e w = w
call_each_with (f ∷ fs) a e w = call_each_with fs a e (f a e w)

module _ {W : Type 0} (o : Outbox W) where
  open o use {
    storage, produce, batch_size, on_internal_error, on_found_messages, on_sent_message,
    on_deleted_message,
  }

  -- One round of the loop over the messages, from its end: what follows `Delete` and `Produce`.
  unfoldable pub after_delete : Message → Option Error × W → Option Error × W
  after_delete msg (none, w) = (none, call_each_with on_deleted_message msg none w)
  after_delete msg (some e, w) = (
    some (Error.wrap "delete sent message: %w" e),
    call_each_with on_deleted_message msg (some e) w,
  )

  unfoldable pub after_produce : Message → Option Error × W → Option Error × W
  unfolding after_delete
  after_produce msg (none, w) =
      let sent = call_each_with on_sent_message msg none w in
      after_delete msg (storage.delete msg.topic (msg.id ∷ []) sent)
  after_produce msg (some e, w) =
      (some (Error.wrap "send message: %w" e), call_each_with on_sent_message msg (some e) w)

  unfoldable pub deliver : Message → Effect W
  unfolding after_produce
  deliver msg w = after_produce msg (produce msg w)

  -- The loop, which ends at the first error.
  unfoldable pub deliver_all : List Message → Effect W
  unfolding deliver
  deliver_all [] w = (none, w)
  deliver_all (m ∷ ms) w = and_then (deliver m w) (deliver_all ms)

  unfoldable pub after_deliver : List Message → Option Error × W → (Bool × Option Error) × W
  after_deliver msgs (none, w) = ((ltb (length msgs) batch_size, none), w)
  after_deliver msgs (some e, w) = ((false, some e), w)

  unfoldable pub after_find : Result (List Message) × W → (Bool × Option Error) × W
  unfolding deliver_all after_deliver
  after_find (err e, w) = (
    (false, some (Error.wrap "get messages to send: %w" e)),
    call_each_with on_found_messages [] (some e) w,
  )
  after_find (ok [], w) = ((true, none), call_each_with on_found_messages [] none w)
  after_find (ok (m ∷ ms), w) =
      after_deliver (m ∷ ms)
        (deliver_all (m ∷ ms) (call_each_with on_found_messages (m ∷ ms) none w))

  abbrev pub find_specification : W → StorageSpecification
  find_specification w = record {
    ids_excluded = [];
    topics = [];
    scheduled_at_before = o.now w;
    limit = batch_size;
  }

  -- `processBatch` between the lock and its release.
  unfoldable pub process_locked : W → (Bool × Option Error) × W
  unfolding after_find
  process_locked w = after_find (storage.find (find_specification w) w)

  -- The deferred function: it assigns the error of the release to the named result `err`.
  unfoldable pub after_release : Bool → Option Error × W → (Bool × Option Error) × W
  after_release all_processed (none, w) = ((all_processed, none), w)
  after_release all_processed (some e, w) = (
    (all_processed, some e),
    call_each on_internal_error (Error.wrap "release storage lock: %w" e) w,
  )

  unfoldable pub after_lock : Result (Effect W) × W → (Bool × Option Error) × W
  unfolding process_locked after_release
  after_lock (err e, w) =
      let e' = Error.wrap "get storage lock: %w" e in
      ((false, some e'), call_each on_internal_error e' w)
  after_lock (ok release, w) =
      let ((all_processed, _), w') = process_locked w in after_release all_processed (release w')

  unfoldable pub process_batch : W → (Bool × Option Error) × W
  unfolding after_lock
  process_batch w = after_lock (storage.lock [] w)

  -- One round of the loop in `impl`.
  unfoldable pub after_batch :
      (Bool × Option Error) × W → (W → Option (Option Error × W)) → Option (Option Error × W)
  after_batch ((all_processed, some e), w) again = some (some e, w)
  after_batch ((true, none), w) again = some (none, w)
  after_batch ((false, none), w) again = again w

  -- The function `impl` of `process`, with fuel for its loop; `none` means that the fuel ran out.
  unfoldable pub process_impl : ℕ → W → Option (Option Error × W)
  unfolding after_batch
  process_impl zero w = none
  process_impl (suc fuel) w = after_batch (process_batch w) (process_impl fuel)

  -- `process`: `backoff.Retry` is a parameter, and its result is dropped.
  unfoldable pub process :
      ((W → Option (Option Error × W)) → W → Option (Option Error × W)) → ℕ → W → Option W
  process retry fuel w = Option.map (λ r. r.1) (retry (process_impl fuel) w)
