-- ===== src/Message/AckNackQueue/Tokens.antt =====
-- The tokens of the queue: each message in processing stands for one, as long as only messages
-- that are in processing are acknowledged.
use go_service_template.Common.{
  ℕ, suc, ◌+◌, ◌<◌, ◌≡◌, refl, true, false, Option, none, some, List, [], ◌∷◌, length, arith, Error,
  nat_eq, ==_iff,
}
use go_service_template.Common.Assoc.{contains, add, delete}
use go_service_template.Message.{ConsumerMessage}
use go_service_template.Message.AckNackQueue.{
  AckNackQueue, AckNackStrategy, take_token, add_processing, finish_acknowledge, after_broker,
  acknowledge_result,
}

-- No key stands in the list twice.
abbrev pub Distinct : List ℕ → Type 0
Distinct [] = Unit
Distinct (x ∷ xs) = (contains x xs ≡ false) × Distinct xs

-- Every slot of the queue is a free token, a held token, or a message in processing.
pub record IsConserved (q : AckNackQueue) (held : ℕ) : Type 0 where
  pub conserved : q.processing_tokens + held + length q.processing_queue ≡ q.max_size
  pub positive : 0 < q.max_size
  pub distinct : Distinct q.processing_queue

contains-delete : (a b : ℕ) (xs : List ℕ) → contains b xs ≡ false → contains b (delete a xs) ≡ false
unfolding contains delete
contains-delete a b [] h = refl
contains-delete a b (x ∷ xs) h = ground (arith, contains-delete a b xs)

delete_absent : (a : ℕ) (xs : List ℕ) → contains a xs ≡ false → delete a xs ≡ xs
unfolding contains delete
delete_absent a [] h = refl
delete_absent a (x ∷ xs) h = ground (arith, delete_absent a xs)

delete-Distinct : (a : ℕ) (xs : List ℕ) → Distinct xs → Distinct (delete a xs)
unfolding delete
delete-Distinct a [] d = tt
delete-Distinct a (x ∷ xs) d = ground (arith, delete-Distinct a xs d.1, contains-delete a x xs d.0)

length-delete :
    (a : ℕ) (xs : List ℕ)
    → Distinct xs
    → contains a xs ≡ true
    → suc (length (delete a xs)) ≡ length xs
unfolding contains delete
length-delete a [] d h = cc
length-delete a (x ∷ xs) d h =
    ground (arith, length-delete a xs d.1, ==_iff x a, delete_absent a xs)

pub take_token-IsConserved :
    (q : AckNackQueue) (held : ℕ) {q' : AckNackQueue}
    → IsConserved q held
    → take_token q ≡ some q'
    → IsConserved q' (suc held)
unfolding take_token
take_token-IsConserved q held v e = ground arith

-- A caller that holds a token and brings a message that is not in processing is not refused.
pub add_processing-IsConserved :
    (msg : ConsumerMessage) (q : AckNackQueue) (held : ℕ)
    → IsConserved q (suc held)
    → contains msg.address q.processing_queue ≡ false
    → ((add_processing msg q).0 ≡ none)
      × (contains msg.address (add_processing msg q).1.processing_queue ≡ true)
      × IsConserved (add_processing msg q).1 held
unfolding add_processing add contains
add_processing-IsConserved msg q held v h = ground (arith, ==_iff msg.address msg.address)

after_broker-IsConserved :
    {W : Type 0} (wrapped : Error → Error) (msg : ConsumerMessage) (r : Option Error × W)
    (q : AckNackQueue) (held : ℕ)
    → IsConserved q held
    → contains msg.address q.processing_queue ≡ true
    → (after : Option Error × AckNackQueue × W) × (after_broker wrapped msg r q ≡ some after)
      × IsConserved after.1 held
unfolding after_broker finish_acknowledge
after_broker-IsConserved wrapped msg (some e, w) q held v h = (_, refl, v)
after_broker-IsConserved wrapped msg (none, w) q held v h = (
  (
    none,
    record q {
      processing_tokens = q.processing_tokens + 1;
      processing_queue = delete msg.address q.processing_queue;
    },
    w,
  ),
  ground (arith, length-delete msg.address q.processing_queue v.distinct h),
  record {
    conserved = omega (arith, length-delete msg.address q.processing_queue v.distinct h);
    positive = v.positive;
    distinct = delete-Distinct msg.address q.processing_queue v.distinct;
  },
)

-- To acknowledge a message in processing, with a result of either kind and whatever the broker
-- answers, returns rather than blocks, and keeps tokens and messages in balance.
pub acknowledge_result-IsConserved :
    {W : Type 0} (strategy : AckNackStrategy W) (msg : ConsumerMessage) (result : Option Error)
    (q : AckNackQueue) (w : W) (held : ℕ)
    → IsConserved q held
    → contains msg.address q.processing_queue ≡ true
    → (after : Option Error × AckNackQueue × W) × (acknowledge_result strategy msg result q w
        ≡ some after)
      × IsConserved after.1 held
unfolding acknowledge_result
acknowledge_result-IsConserved strategy msg none q w held v h =
    after_broker-IsConserved (Error.wrap "ack: %w") msg (strategy.ack msg w) q held v h
acknowledge_result-IsConserved strategy msg (some e) q w held v h =
    after_broker-IsConserved (Error.wrap "nack: %w") msg (strategy.nack msg w) q held v h
