-- ===== src/Message/CommitOffsetQueue/Settle.antt =====
-- `AcknowledgeResult` against a reference definition with no loops over indices.
use go_service_template.Common.{
  ℕ, zero, suc, ◌+◌, ◌≤◌, ◌≡◌, refl, ap, ◌∙◌, Option, none, some, List, [], ◌∷◌, length,
  length-append, arith, Error,
}
use go_service_template.Message.{ConsumerMessage, Effect}
use go_service_template.Message.CommitOffsetQueue.{
  ListenerMessage, CommitOffsetQueue, mark_processed, send_tokens, finish_commit, commit_processed,
  discard_items, acknowledge_result,
}
use go_service_template.Message.CommitOffsetQueue.Window.{
  processed_prefix, pending_rest, prefix-append-rest, drop-prefix, last_message,
  find_last_processed-nil, find_last_processed-cons, discard_items-eq-drop,
}

-- `n` tokens fit into the channel.
pub send_tokens_lem :
    (n : ℕ) (q : CommitOffsetQueue)
    → q.processing_tokens + n ≤ q.capacity
    → send_tokens n q ≡ some (record q { processing_tokens = q.processing_tokens + n })
unfolding send_tokens
send_tokens_lem zero q h = ground arith
send_tokens_lem (suc n) q h =
    ground (arith, send_tokens_lem n (record q { processing_tokens = q.processing_tokens + 1 }))

-- What the broker's answer means for a queue that begins with the processed messages `done`.
unfoldable pub settled :
    {W : Type 0}
    → Option Error × W
    → CommitOffsetQueue
    → List ListenerMessage
    → List ListenerMessage
    → Option Error × CommitOffsetQueue × W
settled (some e, w) q done rest = (some (Error.wrap "commit offset: %w" e), q, w)
settled (none, w) q done rest =
    let tokens = q.processing_tokens + length done in
    (none, record q { processing_tokens = tokens; processing_queue = rest }, w)

-- Commit the last message of `done`, if there is one.
unfoldable pub settle :
    {W : Type 0}
    → (ConsumerMessage → Effect W)
    → CommitOffsetQueue
    → List ListenerMessage
    → List ListenerMessage
    → W
    → Option Error × CommitOffsetQueue × W
unfolding settled
settle commit_offset q [] rest w = (none, q, w)
settle commit_offset q (x ∷ xs) rest w =
    settled (commit_offset (last_message x xs) w) q (x ∷ xs) rest

abbrev pub HasRoom : CommitOffsetQueue → Type 0
HasRoom q = q.processing_tokens + length q.processing_queue ≤ q.capacity

prefix-le : (xs : List ListenerMessage) → length (processed_prefix xs) ≤ length xs
prefix-le xs = omega (
  arith,
  ap length (prefix-append-rest xs),
  length-append (processed_prefix xs) (pending_rest xs),
)

discard-prefix :
    (xs : List ListenerMessage) (n : ℕ)
    → n ≡ length (processed_prefix xs)
    → discard_items n xs ≡ pending_rest xs
discard-prefix xs n e = rw e (discard_items-eq-drop _ xs (prefix-le xs) ∙ drop-prefix xs)

finish_commit-settled :
    {W : Type 0} (r : Option Error × W) (q : CommitOffsetQueue) (x : ListenerMessage)
    (xs : List ListenerMessage)
    → processed_prefix q.processing_queue ≡ x ∷ xs
    → HasRoom q
    → finish_commit r (0 + length xs + 1) q
      ≡ some (settled r q (x ∷ xs) (pending_rest q.processing_queue))
unfolding finish_commit settled
finish_commit-settled (some e, w) q x xs h room = refl
finish_commit-settled (none, w) q x xs h room =
    let e : 0 + length xs + 1 ≡ suc (length xs) = omega arith in
    rw (
      e,
      discard-prefix q.processing_queue (suc (length xs)) (rw h),
      send_tokens_lem (suc (length xs))
          (record q { processing_queue = pending_rest q.processing_queue })
          (omega (arith, prefix-le q.processing_queue, ap length h)),
    )

commit_processed-settle :
    {W : Type 0} (commit_offset : ConsumerMessage → Effect W) (q : CommitOffsetQueue) (w : W)
    (done : List ListenerMessage)
    → processed_prefix q.processing_queue ≡ done
    → HasRoom q
    → commit_processed commit_offset q w
      ≡ some (settle commit_offset q done (pending_rest q.processing_queue) w)
unfolding commit_processed settle
commit_processed-settle commit_offset q w [] h room =
    rw (find_last_processed-nil q.processing_queue h, commit_processed)
commit_processed-settle commit_offset q w (x ∷ xs) h room =
    rw (find_last_processed-cons q.processing_queue x xs h, commit_processed)
      (finish_commit-settled (commit_offset (last_message x xs) w) q x xs h room)

pub length-mark_processed :
    (msg : ConsumerMessage) (xs : List ListenerMessage) → length (mark_processed msg xs) ≡ length xs
unfolding mark_processed
length-mark_processed msg [] = refl
length-mark_processed msg (x ∷ xs) = ap suc (length-mark_processed msg xs)

-- While the tokens and the queued messages fit into the channel, a positive acknowledgement marks
-- the message, and then commits the last message of the longest processed prefix: the prefix
-- leaves the queue and gives back one token for each of its messages, or, if the broker refuses
-- the offset, the marked queue stays. The call does not block.
pub acknowledge_result-settle :
    {W : Type 0} (commit_offset : ConsumerMessage → Effect W) (msg : ConsumerMessage)
    (q : CommitOffsetQueue) (w : W)
    → HasRoom q
    → let marked = mark_processed msg q.processing_queue in
      acknowledge_result commit_offset msg none q w
      ≡ some (
          settle commit_offset
            (record q { processing_queue = marked })
            (processed_prefix marked)
            (pending_rest marked)
            w)
unfolding acknowledge_result
acknowledge_result-settle commit_offset msg q w room =
    commit_processed-settle commit_offset
      (record q { processing_queue = mark_processed msg q.processing_queue }) w _ refl
      (omega (arith, length-mark_processed msg q.processing_queue))
