-- ===== src/Message/Listener.antt =====
-- The processing of one received message in pkg/message/listener.go: `processMessage` and
-- `acknowledgeMessage`. The queue, the deserializer, the retries of the backoff library, the group of
-- workers and the callbacks are parameters that act on a world of type `W`, which holds the values of
-- contexts too. A call that never returns is `none`.
pub mod Consuming
pub mod Handlers
pub mod Contracts
pub mod Settled
pub mod Handled
pub mod Returns
mod Doubles
mod Examples
use go_service_template.Common.{
  ℕ, zero, suc, String, Bool, true, false, Option, none, some, List, [], ◌∷◌, map, Error, Sentinel,
  Result, ok, err, is, string_eq, if◌then◌else◌,
}
use go_service_template.Common.Assoc.{lookup}
use go_service_template.Message.{
  Message, ConsumerMessage, StructuredMessage, Metadata, Topic, Uuid, Effect,
}
use go_service_template.Message.Outbox.{call_each, call_each_with}

-- A call that may not return.
abbrev pub Run : Type 0 → Type 0
Run W = W → Option (Option Error × W)

-- What a function that `backoff.Retry` calls returns: nil, an error, or a `backoff.Permanent` error.
pub data Attempt : Type 0 where
  succeeded : Attempt
  failed permanent : Error → Attempt

-- A `HandlerMetadata`, but for its panic, which only logging and metrics read.
pub record HandlerMetadata : Type 0 where
  pub message_id : Uuid
  pub message_topic : Topic
  pub message_metadata : Metadata

abbrev pub with_handler_metadata : Message → Metadata → HandlerMetadata
with_handler_metadata msg metadata = record {
  message_id = msg.id;
  message_topic = msg.topic;
  message_metadata = metadata;
}

-- A `TypedHandler[StructuredMessage]`, with the metadata in its context.
abbrev pub Handler : Type 0 → Type 0
Handler W = HandlerMetadata → StructuredMessage → Effect W

-- The fields of `ListenerImpl`. `ctx_err` is `ctx.Err()` of the listener's context, and a retry is
-- `backoff.Retry` with this context; `group` runs the jobs in a group of `Workers`, and waits.
pub record Listener (W : Type 0) : Type 0 where
  pub ctx_err : W → Option Sentinel
  pub deserialize : List ℕ → Result (StructuredMessage × Metadata)
  pub handlers : List (String × List (Handler W))
  pub handler_retry : (W → Attempt × W) → Run W
  pub group : List (Run W) → Run W
  pub acknowledge_result : ConsumerMessage → Option Error → Effect W
  pub queue_retry : (W → Attempt × W) → Run W
  pub on_handler_not_found : List (Message → W → W)
  pub on_before_handle_message : List (Message → W → W)
  pub on_handler_result : List (Message → Option Error → W → W)
  pub on_acknowledge_result : List (Message × Option Error → Option Error → W → W)
  pub on_deserialized_unknown_msg : List (Message → Option Error → W → W)
  pub on_deserialized_error : List (Message → Option Error → W → W)

-- `handlerErr != nil && errors.Is(handlerErr, ctx.Err())`, with the error `ctx.Err()`.
abbrev pub canceled_result : Option Error → Option Sentinel → Option Sentinel
canceled_result none ctx_err = none
canceled_result (some e) none = none
canceled_result (some e) (some s) = if is e s then some s else none

-- A function that `backoff.Retry` calls, and that has no permanent errors.
pub attempted : {W : Type 0} → Option Error × W → Attempt × W
attempted (none, w) = (succeeded, w)
attempted (some e, w) = (failed e, w)

module _ {W : Type 0} (l : Listener W) where
  open l use {ctx_err, acknowledge_result, on_acknowledge_result}

  -- The function that `acknowledgeMessage` retries.
  pub after_acknowledge : ConsumerMessage → Option Error → Option Error × W → Attempt × W
  after_acknowledge msg r (none, w) =
      (succeeded, call_each_with on_acknowledge_result (msg.message, r) none w)
  after_acknowledge msg r (some e, w) = (
    if is e Sentinel.negative_ack_not_supported then permanent e else failed e,
    call_each_with on_acknowledge_result (msg.message, r) (some e) w,
  )

  pub try_acknowledge : ConsumerMessage → Option Error → W → Attempt × W
  unfolding after_acknowledge
  try_acknowledge msg r w = elim (canceled_result r (ctx_err w)) [
    | some s ↦ (failed (Error.sentinel s), w)
    | none ↦ after_acknowledge msg r (acknowledge_result msg r w)
  ]

  unfoldable pub acknowledge_message : ConsumerMessage → Option Error → Run W
  unfolding try_acknowledge
  acknowledge_message msg r = l.queue_retry (try_acknowledge msg r)

  -- The end of a round of both loops: `break` without an error.
  pub after_round : Option (Option Error × W) → (W → Option W) → Option W
  after_round none again = none
  after_round (some (none, w)) again = some w
  after_round (some (some e, w)) again = again w

  -- The loops run on fuel, one unit for each round. `skipAndAckMessage`:
  pub skip_and_ack_message : ℕ → ConsumerMessage → W → Option W
  unfolding after_round acknowledge_message
  skip_and_ack_message zero msg w = none
  skip_and_ack_message (suc fuel) msg w = elim (ctx_err w) [
    | some s ↦ some w
    | none ↦ after_round (acknowledge_message msg none w) (skip_and_ack_message fuel msg)
  ]

  pub after_handlers : ConsumerMessage → Option (Option Error × W) → Option (Option Error × W)
  unfolding acknowledge_message
  after_handlers msg none = none
  after_handlers msg (some (r, w)) =
      acknowledge_message msg r (call_each_with l.on_handler_result msg.message r w)

  -- The loop of `processMessage` over the jobs of the handlers.
  pub handle_message : ℕ → ConsumerMessage → List (Run W) → W → Option W
  unfolding after_round after_handlers
  handle_message zero msg jobs w = none
  handle_message (suc fuel) msg jobs w = elim (ctx_err w) [
    | some s ↦ some w
    | none ↦ after_round (after_handlers msg (l.group jobs w)) (handle_message fuel msg jobs)
  ]

  -- A job of the group.
  unfoldable pub handler_job : HandlerMetadata → StructuredMessage → Handler W → Run W
  unfolding attempted
  handler_job metadata m handler = l.handler_retry (λ w. attempted (handler metadata m w))

  pub after_find_handlers :
      ℕ → ConsumerMessage → StructuredMessage → Metadata → Option (List (Handler W)) → W → Option W
  unfolding skip_and_ack_message handle_message handler_job
  after_find_handlers fuel msg m metadata none w =
      skip_and_ack_message fuel msg (call_each l.on_handler_not_found msg.message w)
  after_find_handlers fuel msg m metadata (some handlers) w =
      let jobs = map (handler_job (with_handler_metadata msg.message metadata) m) handlers in
      handle_message fuel msg jobs (call_each l.on_before_handle_message msg.message w)

  pub after_deserialize : ℕ → ConsumerMessage → Result (StructuredMessage × Metadata) → W → Option W
  unfolding after_find_handlers
  after_deserialize fuel msg (err e) w =
      let failing =
        if is e Sentinel.deserialize_unknown_message
        then l.on_deserialized_unknown_msg
        else l.on_deserialized_error in
      skip_and_ack_message fuel msg (call_each_with failing msg.message (some e) w)
  after_deserialize fuel msg (ok (m, metadata)) w =
      after_find_handlers fuel msg m metadata (lookup m.message_type l.handlers) w

  -- `processMessage`.
  unfoldable pub process_message : ℕ → ConsumerMessage → W → Option W
  unfolding after_deserialize
  process_message fuel msg w = after_deserialize fuel msg (l.deserialize msg.message.payload) w
