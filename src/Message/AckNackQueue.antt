-- ===== src/Message/AckNackQueue.antt =====
-- The `ackNackQueue` and the `ackQueue` of pkg/message/listenerqueue.go. A call of the broker runs
-- outside the mutex, and nothing of the queue is read before it, so a method is one step. The map
-- of messages in processing is the list of their addresses; the channel of tokens is the number of
-- tokens in it, and a send into a full channel blocks for good: the method then returns `none`.
pub mod Tokens
use go_service_template.Common.{
  ℕ, ◌+◌, ◌-◌, Option, none, some, List, [], ltb, if◌then◌else◌, ◌==◌, nat_eq, length, Error,
  Sentinel,
}
use go_service_template.Common.Assoc.{contains, add, delete}
use go_service_template.Message.{ConsumerMessage, Effect}

pub record AckNackQueue : Type 0 where
  pub max_size : ℕ
  pub processing_tokens : ℕ
  pub processing_queue : List ℕ

-- The methods of an `AckNackStrategy`.
pub record AckNackStrategy (W : Type 0) : Type 0 where
  pub ack : ConsumerMessage → Effect W
  pub nack : ConsumerMessage → Effect W

-- A negative `maxSize` counts as 0.
unfoldable pub new_ack_nack_queue : ℕ → AckNackQueue
new_ack_nack_queue max_size =
    let size = if ltb max_size 1 then 1 else max_size in
    record { max_size = size; processing_tokens = size; processing_queue = [] }

-- `<-q.ProcessingTokens()`, which waits while there is no token.
unfoldable pub take_token : AckNackQueue → Option AckNackQueue
take_token q =
    if q.processing_tokens == 0
    then none
    else some (record q { processing_tokens = q.processing_tokens - 1 })

unfoldable pub add_processing : ConsumerMessage → AckNackQueue → Option Error × AckNackQueue
add_processing msg q =
    if length q.processing_queue == q.max_size
    then (some (Error.message "processing queue is full"), q)
    else if contains msg.address q.processing_queue
    then (some (Error.message "message %s already in queue"), q)
    else (none, record q { processing_queue = add msg.address q.processing_queue })

-- The end of `AcknowledgeResult`, under the mutex.
pub finish_acknowledge :
    {W : Type 0} → ConsumerMessage → AckNackQueue → W → Option (Option Error × AckNackQueue × W)
finish_acknowledge msg q w =
    if ltb q.processing_tokens q.max_size
    then some (
      none,
      record q {
        processing_tokens = q.processing_tokens + 1;
        processing_queue = delete msg.address q.processing_queue;
      },
      w,
    )
    else none

-- What follows the call of the broker, whose error gets the text `format`.
pub after_broker :
    {W : Type 0}
    → (Error → Error)
    → ConsumerMessage
    → Option Error × W
    → AckNackQueue
    → Option (Option Error × AckNackQueue × W)
unfolding finish_acknowledge
after_broker wrapped msg (some e, w) q = some (some (wrapped e), q, w)
after_broker wrapped msg (none, w) q = finish_acknowledge msg q w

unfoldable pub acknowledge_result :
    {W : Type 0}
    → AckNackStrategy W
    → ConsumerMessage
    → Option Error
    → AckNackQueue
    → W
    → Option (Option Error × AckNackQueue × W)
unfolding after_broker
acknowledge_result strategy msg none q w =
    after_broker (Error.wrap "ack: %w") msg (strategy.ack msg w) q
acknowledge_result strategy msg (some e) q w =
    after_broker (Error.wrap "nack: %w") msg (strategy.nack msg w) q

-- The `nackNotSupportedAdapter` around an `AckStrategy`.
unfoldable pub nack_not_supported_adapter :
    {W : Type 0} → (ConsumerMessage → Effect W) → AckNackStrategy W
nack_not_supported_adapter ack = record {
  ack = ack;
  nack = λ msg w. (some (Error.sentinel Sentinel.negative_ack_not_supported), w);
}

-- The method of `ackQueue`, which stands in front of the embedded queue's.
unfoldable pub acknowledge_positive_result :
    {W : Type 0}
    → (ConsumerMessage → Effect W)
    → ConsumerMessage
    → Option Error
    → AckNackQueue
    → W
    → Option (Option Error × AckNackQueue × W)
unfolding acknowledge_result nack_not_supported_adapter
acknowledge_positive_result ack msg (some e) q w =
    some (some (Error.wrap_both "ack %w: %w" not_supported e), q, w)
  where
    not_supported : Error
    not_supported = Error.sentinel Sentinel.negative_ack_not_supported
acknowledge_positive_result ack msg none q w =
    acknowledge_result (nack_not_supported_adapter ack) msg none q w
