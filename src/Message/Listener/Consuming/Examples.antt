-- ===== src/Message/Listener/Consuming/Examples.antt =====
-- A worker that handles a message and is stopped.
use go_service_template.Common.{ℕ, ◌≡◌, refl, inl, Option, none, [], Error, false, true, nat_eq}
use go_service_template.Message.{ConsumerMessage, Effect}
use go_service_template.Message.CommitOffsetQueue.{
  new_commit_offset_queue, take_token, add_processing,
}
use go_service_template.Message.Listener.Consuming.{
  WorkerPhase, ConsumerState, ConsumerStep, Consumes, after_add_processing, wrap_listener, IsEnd,
  Consumes-returned,
}

abbrev commit : ConsumerMessage → Effect ℕ
commit msg w = (none, w)

abbrev message : ConsumerMessage
message = record { address = 1; message = record { id = 1; topic = "t"; key = ""; payload = [] } }

abbrev waiting : ConsumerState ℕ
waiting = record {
  phase = WorkerPhase.waiting;
  queue = new_commit_offset_queue 1;
  held = 0;
  active = [];
  is_done = false;
  world = 0;
}

abbrev holding : ConsumerState ℕ
holding = record waiting {
  phase = WorkerPhase.holding;
  queue = record (new_commit_offset_queue 1) { processing_tokens = 0 };
  held = 1;
}

abbrev received : ConsumerState ℕ
received = after_add_processing message holding (add_processing message holding.queue)

abbrev handled : ConsumerState ℕ
handled = record received { active = [] }

abbrev canceled : ConsumerState ℕ
canceled = record handled { is_done = true }

abbrev stopped : ConsumerState ℕ
stopped = record canceled { phase = WorkerPhase.leaving none }

abbrev ended : ConsumerState ℕ
ended = record stopped { phase = WorkerPhase.returned none }

run : Consumes commit none 1 0 ended
unfolding new_commit_offset_queue take_token add_processing after_add_processing wrap_listener
run =
    Consumes.then stopped ended
      (Consumes.then canceled stopped
        (Consumes.then handled canceled
          (Consumes.then received handled
            (Consumes.then holding received
              (Consumes.then waiting holding Consumes.begins
                (ConsumerStep.takes_token holding.queue refl refl))
              (ConsumerStep.receives message refl))
            (ConsumerStep.ends [] [] message refl))
          ConsumerStep.cancels)
        (ConsumerStep.stops refl (inl refl)))
      (ConsumerStep.returns none refl refl)

Consumes-returned_example : (e : Option Error) × (none ≡ wrap_listener e) × IsEnd commit none e
Consumes-returned_example = Consumes-returned commit none 1 0 ended none run refl
