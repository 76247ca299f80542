-- ===== src/Message/Outbox/Worker/Examples.antt =====
-- A worker that is called while it runs.
use go_service_template.Common.{ℕ, ◌+◌, refl, some, Option, arith}
use go_service_template.Message.Outbox.Worker.{
  WorkerState, send_signal, signal, take_signal, start_worker, Step, new_worker, Reach, Serves,
  Reach-served,
}

abbrev count : ℕ → Option ℕ
count w = some (w + 1)

abbrev started : WorkerState ℕ
started = start_worker (new_worker 0)

abbrev running : WorkerState ℕ
running = take_signal started

abbrev called : WorkerState ℕ
called = signal running

called-Reach : Reach count 0 called
unfolding start_worker send_signal signal take_signal
called-Reach =
    Reach.next running called
      (Reach.next started running
        (Reach.next (new_worker 0) started Reach.begin (Step.start (new_worker 0) refl))
        (Step.take started refl refl))
      (Step.request running)

Reach-served_example : Serves count called
unfolding start_worker send_signal signal take_signal
Reach-served_example = Reach-served count 0 called 1 called-Reach (omega arith) refl (λ h. cc)
