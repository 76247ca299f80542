-- ===== src/Message/StorageConsumer/Examples.antt =====
-- Runs of the threads of the storage consumer.
use go_service_template.Common.{ℕ, ◌≡◌, refl, true, false, none, [], ◌∷◌, length, nat_eq}
use go_service_template.Common.Assoc.{contains, add, delete}
use go_service_template.Message.{Uuid}
use go_service_template.Message.StorageConsumer.{add_to_processing, remove_from_processing}
use go_service_template.Message.StorageConsumer.Threads.{
  Phase, System, Step, Reach, start, signal_if_empty,
}
use go_service_template.Message.StorageConsumer.Threads.Delivered.{Reach-delivered}
use go_service_template.Message.StorageConsumer.Threads.Orphans.{
  NeverEnds, early_acknowledgement-NeverEnds, missed_signal-not-Step,
}

abbrev finished : System
finished = record {
  phase = Phase.ended true 1 none;
  processing = record { processing_messages = []; processed_count = 0 };
  received = [];
}

-- A batch of one message, which is added, acknowledged, and then waited for.
one_message : Reach 2 1 (start (7 ∷ [])) finished
unfolding add_to_processing remove_from_processing add delete contains signal_if_empty
one_message =
    let added =
      Reach.next (Reach.next Reach.here (Step.send 7 [] 0 refl)) (Step.add_sent 7 [] 0 refl) in
    let tested = Reach.next (Reach.next added (Step.acknowledge 7 refl)) (Step.all_sent 1 refl) in
    Reach.next tested (Step.test_empty 1 refl refl)

Reach-delivered_example :
    (1 ≡ length {A = ℕ} (7 ∷ [])) × ((id : Uuid) → contains {K = ℕ} id [] ≡ false)
Reach-delivered_example = Reach-delivered 2 (7 ∷ []) finished true 1 one_message refl

early_acknowledgement-NeverEnds_example :
    (s : System) × Reach 2 2 (start (7 ∷ 8 ∷ [])) s × NeverEnds 2 2 s
unfolding contains
early_acknowledgement-NeverEnds_example = early_acknowledgement-NeverEnds 2 7 (8 ∷ []) refl

missed_signal-not-Step_example :
    (s : System) × Reach 2 1 (start (7 ∷ [])) s
    × (s.processing.processed_count ≡ 0)
    × ((t : System) → ¬ Step 2 1 s t)
missed_signal-not-Step_example = missed_signal-not-Step 2 7
