-- ===== src/Message/Examples/Queues.antt =====
-- The processing queues at concrete messages, with a broker that keeps the calls it gets.
use go_service_template.Common.{
  ℕ, ◌≡◌, refl, ◌++◌, true, false, Option, none, some, List, [], ◌∷◌, ◌<◌, arith, Error, nat_eq,
}
use go_service_template.Common.Assoc.{contains}
use go_service_template.Message.{ConsumerMessage, Effect}
use go_service_template.Message.CommitOffsetQueue
use go_service_template.Message.CommitOffsetQueue.{
  ListenerMessage, CommitOffsetQueue, mark_processed, discard_items,
}
use go_service_template.Message.CommitOffsetQueue.Window.{
  processed_prefix, pending_rest, last_message,
}
use go_service_template.Message.CommitOffsetQueue.Settle.{settle, acknowledge_result-settle}
use go_service_template.Message.CommitOffsetQueue.Tokens
use go_service_template.Message.AckNackQueue
use go_service_template.Message.AckNackQueue.{AckNackQueue, AckNackStrategy}
use go_service_template.Message.AckNackQueue.Tokens as AckNackTokens

-- The message at an address.
abbrev at_address : ℕ → ConsumerMessage
at_address n = record {
  address = n;
  message = record { id = n; topic = "user"; key = ""; payload = [] };
}

abbrev logging : ConsumerMessage → Effect (List ℕ)
logging msg log = (none, log ++ msg.address ∷ [])

abbrev refusing : ConsumerMessage → Effect (List ℕ)
refusing msg log = (some (Error.external 7), log)

abbrev listed : ℕ → ListenerMessage
listed n = record { message = at_address n; processed = false }

abbrev handled : ℕ → ListenerMessage
handled n = record { message = at_address n; processed = true }

-- Message 2 was processed before message 1, and message 3 is not processed.
abbrev window : CommitOffsetQueue
window = record {
  capacity = 4;
  processing_tokens = 1;
  processing_queue = listed 1 ∷ handled 2 ∷ listed 3 ∷ [];
}

-- The acknowledgement of message 1 commits message 2 and gives two tokens back.
acknowledge_result-settle_example :
    CommitOffsetQueue.acknowledge_result logging (at_address 1) none window []
    ≡ some (
      none,
      record { capacity = 4; processing_tokens = 3; processing_queue = listed 3 ∷ [] },
      2 ∷ [],
    )
unfolding settle processed_prefix pending_rest last_message mark_processed
acknowledge_result-settle_example =
    acknowledge_result-settle logging (at_address 1) window [] (omega arith)

acknowledge_result_run :
    CommitOffsetQueue.acknowledge_result logging (at_address 3) none window []
    ≡ some (none, record window { processing_queue = listed 1 ∷ handled 2 ∷ handled 3 ∷ [] }, [])
unfolding CommitOffsetQueue.acknowledge_result
acknowledge_result_run = refl

abbrev first : ConsumerMessage
first = at_address 1

-- The queue of size 2 with one token taken and message 1 added.
reached : Tokens.Reach logging 2 [] (record {
  queue =
      (CommitOffsetQueue.add_processing first
        (record { capacity = 2; processing_tokens = 1; processing_queue = [] })).1;
  held = 0;
  world = [];
})
unfolding CommitOffsetQueue.new_commit_offset_queue CommitOffsetQueue.take_token
reached =
    Tokens.later (Tokens.later Tokens.start (Tokens.takes refl)) (Tokens.adds first (omega arith))

Reach-progress_example :
    let q =
      (CommitOffsetQueue.add_processing first
        (record { capacity = 2; processing_tokens = 1; processing_queue = [] })).1 in
    (0 < 0 → (CommitOffsetQueue.add_processing first q).0 ≡ none)
    × ((after : Option Error × CommitOffsetQueue × List ℕ) × (CommitOffsetQueue.acknowledge_result
            logging first none q []
          ≡ some after))
Reach-progress_example = Tokens.Reach-progress logging first none reached

abbrev accepting : AckNackStrategy (List ℕ)
accepting = record { ack = logging; nack = refusing }

-- Message 1 is in processing, and the other slot is a free token.
abbrev busy : AckNackQueue
busy = record { max_size = 2; processing_tokens = 1; processing_queue = 1 ∷ [] }

abbrev taken : AckNackQueue
taken = record { max_size = 2; processing_tokens = 1; processing_queue = [] }

busy-IsConserved : AckNackTokens.IsConserved busy 0
unfolding contains
busy-IsConserved = record { conserved = refl; positive = omega arith; distinct = (refl, tt) }

acknowledge_result-IsConserved_example :
    (after : Option Error × AckNackQueue × List ℕ) × (AckNackQueue.acknowledge_result accepting
        first none busy []
      ≡ some after)
    × AckNackTokens.IsConserved after.1 0
unfolding contains
acknowledge_result-IsConserved_example =
    AckNackTokens.acknowledge_result-IsConserved accepting first none busy [] 0 busy-IsConserved
      refl
