-- ===== src/Message/StorageConsumer/Threads.antt =====
-- The loop of `consumeStorageMessagesBatch` over the messages found, and its wait, as the steps of two
-- threads: the worker that delivers, and the listener that acknowledges what it has received.
pub mod Delivered
pub mod Orphans
use go_service_template.Common.{
  ℕ, zero, suc, ◌≡◌, ◌≢◌, Bool, true, false, Option, none, some, List, [], ◌∷◌, length, ltb, nat_eq,
  Error,
}
use go_service_template.Common.Assoc.{contains, add, delete}
use go_service_template.Message.{Uuid}
use go_service_template.Message.StorageConsumer.{
  Processing, add_to_processing, remove_from_processing,
}

-- Where the worker stands, with the messages that are left and `processedCount` of this batch.
pub data Phase : Type 0 where
  -- before the `select` of a round
  sending : List Uuid → ℕ → Phase
  -- after the channel has taken a message, before `addToProcessing`
  sent : Uuid → List Uuid → ℕ → Phase
  -- before the test of the loop `for c.processedCount != 0`
  testing : ℕ → Phase
  -- after the test, before `Wait` waits, and in `Wait`
  falling_asleep asleep : ℕ → Phase
  -- after the return
  ended : Bool → ℕ → Option Error → Phase

-- The state of both threads. `received` are the messages that the listener has received, and has not
-- acknowledged with success.
pub record System : Type 0 where
  pub phase : Phase
  pub processing : Processing
  pub received : List Uuid

-- `Signal` wakes the worker if it is in `Wait`, and is lost otherwise.
pub signal : Phase → Phase
signal (asleep n) = testing n
signal (sending ids n) = sending ids n
signal (sent id ids n) = sent id ids n
signal (testing n) = testing n
signal (falling_asleep n) = falling_asleep n
signal (ended all n e) = ended all n e

-- The end of `removeFromProcessing`.
unfoldable pub signal_if_empty : ℕ → Phase → Phase
unfolding signal
signal_if_empty zero phase = signal phase
signal_if_empty (suc n) phase = phase

abbrev pub acknowledged : Uuid → System → System
acknowledged id s =
    let p = remove_from_processing id s.processing in
    record {
      phase = signal_if_empty p.processed_count s.phase;
      processing = p;
      received = delete id s.received;
    }

-- The steps, for a batch of `total` messages. Between them any other step may happen.
pub data Step (batch_size total : ℕ) (s : System) : System → Type 0 where
  send :
      (id : Uuid) (ids : List Uuid) (n : ℕ)
      → s.phase ≡ sending (id ∷ ids) n
      → Step batch_size total s (record s { phase = sent id ids n; received = add id s.received })
  cancel :
      (id : Uuid) (ids : List Uuid) (n : ℕ) (ctx_err : Error)
      → s.phase ≡ sending (id ∷ ids) n
      → Step batch_size total s (record s { phase = ended true n (some ctx_err) })
  add_sent :
      (id : Uuid) (ids : List Uuid) (n : ℕ)
      → s.phase ≡ sent id ids n
      → Step batch_size total s
          (record s { phase = sending ids (suc n); processing = add_to_processing id s.processing })
  all_sent :
      (n : ℕ) → s.phase ≡ sending [] n → Step batch_size total s (record s { phase = testing n })
  test_empty :
      (n : ℕ)
      → s.phase ≡ testing n
      → s.processing.processed_count ≡ 0
      → Step batch_size total s (record s { phase = ended (ltb total batch_size) n none })
  test_left :
      (n : ℕ)
      → s.phase ≡ testing n
      → s.processing.processed_count ≢ 0
      → Step batch_size total s (record s { phase = falling_asleep n })
  wait :
      (n : ℕ) → s.phase ≡ falling_asleep n → Step batch_size total s (record s { phase = asleep n })
  -- `Ack` with success.
  acknowledge :
      (id : Uuid) → contains id s.received ≡ true → Step batch_size total s (acknowledged id s)

pub data Reach (batch_size total : ℕ) (s : System) : System → Type 0 where
  here : Reach batch_size total s s
  next :
      {t u : System}
      → Reach batch_size total s t
      → Step batch_size total t u
      → Reach batch_size total s u

-- The start of a batch with nothing in processing.
abbrev pub start : List Uuid → System
start ids = record {
  phase = sending ids 0;
  processing = record { processing_messages = []; processed_count = 0 };
  received = [];
}
