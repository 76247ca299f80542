-- ===== src/Message/CommitOffsetQueue.antt =====
-- The `commitOffsetQueue` of pkg/message/listenerqueue.go. The mutex makes each method one step.
-- The channel of tokens is the number of tokens in it, and a send into a full channel blocks for
-- good: the method then returns `none`.
pub mod Window
pub mod Settle
pub mod Tokens
use mathlib.Core.Option
use go_service_template.Common.{
  ℕ, zero, suc, ◌+◌, ◌-◌, Bool, true, false, Option, none, some, List, [], ◌∷◌, ◌++◌, ltb,
  if◌then◌else◌, ◌==◌, nat_eq, length, get_elem?, set, take, Error, Sentinel,
}
use go_service_template.Message.{ConsumerMessage, Effect}

pub record ListenerMessage : Type 0 where
  pub message : ConsumerMessage
  pub processed : Bool

-- `capacity` is `cap(q.processingQueue)` and the capacity of the channel of tokens.
pub record CommitOffsetQueue : Type 0 where
  pub capacity : ℕ
  pub processing_tokens : ℕ
  pub processing_queue : List ListenerMessage

-- A negative `maxSize` counts as 0.
unfoldable pub new_commit_offset_queue : ℕ → CommitOffsetQueue
new_commit_offset_queue max_size =
    let size = if ltb max_size 1 then 1 else max_size in
    record { capacity = size; processing_tokens = size; processing_queue = [] }

-- `<-q.ProcessingTokens()`, which waits while there is no token.
unfoldable pub take_token : CommitOffsetQueue → Option CommitOffsetQueue
take_token q =
    if q.processing_tokens == 0
    then none
    else some (record q { processing_tokens = q.processing_tokens - 1 })

unfoldable pub add_processing :
    ConsumerMessage → CommitOffsetQueue → Option Error × CommitOffsetQueue
add_processing msg q =
    if length q.processing_queue == q.capacity
    then (some (Error.message "processing queue is full"), q)
    else (none, record q { processing_queue = q.processing_queue ++ entry ∷ [] })
  where
    entry : ListenerMessage
    entry = record { message = msg; processed = false }

-- The first loop of `AcknowledgeResult`: pointers are compared.
unfoldable pub mark_processed : ConsumerMessage → List ListenerMessage → List ListenerMessage
mark_processed msg [] = []
mark_processed msg (x ∷ xs) =
    (if x.message.address == msg.address then record x { processed = true } else x)
    ∷ mark_processed msg xs

-- The second loop, from index `i` on: the last index of the processed prefix, with its message.
pub find_last_processed :
    ℕ → Option (ℕ × ConsumerMessage) → List ListenerMessage → Option (ℕ × ConsumerMessage)
find_last_processed i last [] = last
find_last_processed i last (x ∷ xs) =
    let rest = find_last_processed (suc i) (some (i, x.message)) xs in
    if x.processed then rest else last

-- q.processingQueue[i] = q.processingQueue[j]
pub copy_item {ℓ} : {A : Type ℓ} → List A → ℕ → ℕ → List A
copy_item xs i j = elim (get_elem? xs j) [ none ↦ xs | some v ↦ set xs i v ]

-- The third loop, with `rounds` rounds left and the next index `i`.
pub shift_items {ℓ} : {A : Type ℓ} → ℕ → ℕ → ℕ → List A → List A
unfolding copy_item
shift_items count zero i xs = xs
shift_items count (suc rounds) i xs = shift_items count rounds (suc i) (copy_item xs i (i + count))

-- The shift, and the reslice after it.
pub discard_items {ℓ} : {A : Type ℓ} → ℕ → List A → List A
unfolding shift_items
discard_items count xs = take (length xs - count) (shift_items count (length xs - count) 0 xs)

-- The last loop.
pub send_tokens : ℕ → CommitOffsetQueue → Option CommitOffsetQueue
send_tokens zero q = some q
send_tokens (suc n) q =
    let rest = send_tokens n (record q { processing_tokens = q.processing_tokens + 1 }) in
    if ltb q.processing_tokens q.capacity then rest else none

-- What follows the call of `CommitOffset`.
pub finish_commit :
    {W : Type 0}
    → Option Error × W
    → ℕ
    → CommitOffsetQueue
    → Option (Option Error × CommitOffsetQueue × W)
unfolding discard_items send_tokens
finish_commit (some e, w) count q = some (some (Error.wrap "commit offset: %w" e), q, w)
finish_commit (none, w) count q =
    Option.map (λ q'. (none, q', w))
      (send_tokens count (record q { processing_queue = discard_items count q.processing_queue }))

pub commit_processed :
    {W : Type 0}
    → (ConsumerMessage → Effect W)
    → CommitOffsetQueue
    → W
    → Option (Option Error × CommitOffsetQueue × W)
unfolding find_last_processed finish_commit
commit_processed commit_offset q w = elim (find_last_processed 0 none q.processing_queue) [
  | none ↦ some (none, q, w)
  | some (i, last) ↦ finish_commit (commit_offset last w) (i + 1) q
]

unfoldable pub acknowledge_result :
    {W : Type 0}
    → (ConsumerMessage → Effect W)
    → ConsumerMessage
    → Option Error
    → CommitOffsetQueue
    → W
    → Option (Option Error × CommitOffsetQueue × W)
unfolding mark_processed commit_processed
acknowledge_result commit_offset msg (some e) q w =
    some (some (Error.wrap_both "commit offset %w: %w" not_supported e), q, w)
  where
    not_supported : Error
    not_supported = Error.sentinel Sentinel.negative_ack_not_supported
acknowledge_result commit_offset msg none q w =
    commit_processed commit_offset
      (record q { processing_queue = mark_processed msg q.processing_queue }) w
