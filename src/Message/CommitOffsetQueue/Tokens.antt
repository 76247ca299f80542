-- ===== src/Message/CommitOffsetQueue/Tokens.antt =====
-- The tokens of the queue under its protocol: `consumerWorker` takes a token before it receives
-- and adds a message, while other goroutines acknowledge messages in between.
use mathlib.Core.Option.{some-injective}
use mathlib.Core.Path.{subst}
use go_service_template.Common.{
  sym, ◌∙◌, ℕ, suc, ◌+◌, ◌-◌, ◌<◌, ◌≡◌, refl, ap, false, Option, none, some, List, [], ◌∷◌, ◌++◌,
  length, length-append, arith, Error, nat_eq,
}
use go_service_template.Message.{ConsumerMessage, Effect}
use go_service_template.Message.CommitOffsetQueue.{
  ListenerMessage, CommitOffsetQueue, new_commit_offset_queue, take_token, add_processing,
  mark_processed, acknowledge_result,
}
use go_service_template.Message.CommitOffsetQueue.Window.{prefix-append-rest}
use go_service_template.Message.CommitOffsetQueue.Settle.{
  settled, settle, length-mark_processed, acknowledge_result-settle,
}

-- `held` counts the tokens taken for messages that are not added yet.
pub record Session (W : Type 0) : Type 0 where
  pub queue : CommitOffsetQueue
  pub held : ℕ
  pub world : W

-- Every slot of the queue is a free token, a held token, or a message in processing.
pub record IsConserved (q : CommitOffsetQueue) (held : ℕ) : Type 0 where
  pub conserved : q.processing_tokens + held + length q.processing_queue ≡ q.capacity
  pub positive : 0 < q.capacity

pub new_commit_offset_queue-IsConserved :
    (max_size : ℕ) → IsConserved (new_commit_offset_queue max_size) 0
unfolding new_commit_offset_queue
new_commit_offset_queue-IsConserved max_size = ground arith

pub take_token-IsConserved :
    (q : CommitOffsetQueue) (held : ℕ) {q' : CommitOffsetQueue}
    → IsConserved q held
    → take_token q ≡ some q'
    → IsConserved q' (suc held)
unfolding take_token
take_token-IsConserved q held v e = ground arith

-- A caller that holds a token is never refused.
pub add_processing-IsConserved :
    (msg : ConsumerMessage) (q : CommitOffsetQueue) (held : ℕ)
    → IsConserved q (suc held)
    → ((add_processing msg q).0 ≡ none) × IsConserved (add_processing msg q).1 held
unfolding add_processing
add_processing-IsConserved msg q held v =
    ground (arith, length-append q.processing_queue (entry ∷ []))
  where
    entry : ListenerMessage
    entry = record { message = msg; processed = false }

settled-IsConserved :
    {W : Type 0} (r : Option Error × W) (q : CommitOffsetQueue) (held : ℕ)
    (done rest : List ListenerMessage)
    → done ++ rest ≡ q.processing_queue
    → IsConserved q held
    → IsConserved (settled r q done rest).1 held
unfolding settled
settled-IsConserved (some e, w) q held done rest h v = v
settled-IsConserved (none, w) q held done rest h v =
    ground (arith, length-append done rest, ap length h)

settle-IsConserved :
    {W : Type 0} (commit_offset : ConsumerMessage → Effect W) (q : CommitOffsetQueue) (held : ℕ)
    (done rest : List ListenerMessage) (w : W)
    → done ++ rest ≡ q.processing_queue
    → IsConserved q held
    → IsConserved (settle commit_offset q done rest w).1 held
unfolding settle
settle-IsConserved commit_offset q held [] rest w h v = v
settle-IsConserved commit_offset q held (x ∷ xs) rest w h v =
    settled-IsConserved _ q held (x ∷ xs) rest h v

-- An acknowledgement returns, whatever its result is and whatever the broker answers, and gives
-- back exactly the tokens of the messages that leave the queue.
pub acknowledge_result-IsConserved :
    {W : Type 0} (commit_offset : ConsumerMessage → Effect W) (msg : ConsumerMessage)
    (result : Option Error) (q : CommitOffsetQueue) (w : W) (held : ℕ)
    → IsConserved q held
    → (after : Option Error × CommitOffsetQueue × W) × (acknowledge_result commit_offset msg result
          q w
        ≡ some after)
      × IsConserved after.1 held
unfolding acknowledge_result
acknowledge_result-IsConserved commit_offset msg (some e) q w held v = (_, refl, v)
acknowledge_result-IsConserved commit_offset msg none q w held v = (
  _,
  acknowledge_result-settle commit_offset msg q w (omega arith),
  settle-IsConserved commit_offset _ held _ _ w
      (prefix-append-rest (mark_processed msg q.processing_queue))
      (ground (arith, length-mark_processed msg q.processing_queue)),
)

module _ {W : Type 0} (commit_offset : ConsumerMessage → Effect W) where
  pub data Step (s : Session W) : Session W → Type 0 where
    takes :
        {q : CommitOffsetQueue}
        → take_token s.queue ≡ some q
        → Step s (record s { queue = q; held = s.held + 1 })
    adds :
        (msg : ConsumerMessage)
        → 0 < s.held
        → Step s (record s { queue = (add_processing msg s.queue).1; held = s.held - 1 })
    acknowledges :
        (msg : ConsumerMessage) (result : Option Error)
        {after : Option Error × CommitOffsetQueue × W}
        → acknowledge_result commit_offset msg result s.queue s.world ≡ some after
        → Step s (record s { queue = after.1; world = after.2 })

  pub data Reach (max_size : ℕ) (w : W) : Session W → Type 0 where
    start :
        Reach max_size w (record { queue = new_commit_offset_queue max_size; held = 0; world = w })
    later : {s t : Session W} → Reach max_size w s → Step s t → Reach max_size w t

  Step-IsConserved :
      {s t : Session W} → Step s t → IsConserved s.queue s.held → IsConserved t.queue t.held
  Step-IsConserved {s} (takes e) v =
      let v' = take_token-IsConserved s.queue s.held v e in omega arith
  Step-IsConserved {s} (adds msg h) v =
      (add_processing-IsConserved msg s.queue (s.held - 1) (omega arith)).1
  Step-IsConserved {s} (acknowledges msg result e) v =
      let (after, f, v') =
        acknowledge_result-IsConserved commit_offset msg result s.queue s.world s.held v in
      subst (λ a. IsConserved a.1 s.held) (some-injective _ _ (sym f ∙ e)) v'

  -- In every reachable state the free tokens, the tokens in hand and the messages in processing
  -- add up to the capacity.
  pub Reach-IsConserved :
      {max_size : ℕ} {w : W} {s : Session W} → Reach max_size w s → IsConserved s.queue s.held
  Reach-IsConserved {max_size} start = new_commit_offset_queue-IsConserved max_size
  Reach-IsConserved (later r st) = Step-IsConserved st (Reach-IsConserved r)

  -- In every reachable state a caller that holds a token can add its message, and an
  -- acknowledgement returns rather than block on the channel of tokens.
  pub Reach-progress :
      {max_size : ℕ} {w : W} {s : Session W} (msg : ConsumerMessage) (result : Option Error)
      → Reach max_size w s
      → (0 < s.held → (add_processing msg s.queue).0 ≡ none)
        × ((after : Option Error × CommitOffsetQueue × W) × (acknowledge_result commit_offset msg
                result s.queue s.world
              ≡ some after))
  Reach-progress {s} msg result r =
      let v = Reach-IsConserved r in
      let (after, e, _) =
        acknowledge_result-IsConserved commit_offset msg result s.queue s.world s.held v in
      (λ h. (add_processing-IsConserved msg s.queue (s.held - 1) (omega arith)).0, (after, e))
