-- ===== src/Message/Outbox/Worker.antt =====
-- `Worker` and `Process` of pkg/message/outbox.go as steps: the worker, the calls of `Process`, and the other
-- code that changes the world, in any order. The channel `processChan` has one slot.
mod Examples
use go_service_template.Common.{
  ℕ, zero, suc, ◌+◌, ◌<◌, ◌≡◌, ◌≢◌, refl, inl, inr, Bool, Bool-cases, true, false, Option, none,
  some, arith,
}

pub data Phase : Type 0 where
  starting waiting processing returned : Phase

-- `is_signalled` tells whether the slot is taken, `unserved` counts the calls of `Process` since the worker
-- took the last signal, and `is_done` tells whether the context of the worker is done.
pub record WorkerState (W : Type 0) : Type 0 where
  pub phase : Phase
  pub is_signalled : Bool
  pub unserved : ℕ
  pub is_done : Bool
  pub world : W

-- The select of `Process`, on whether the slot is taken; then it does nothing.
unfoldable pub send_signal : {W : Type 0} → Bool → WorkerState W → WorkerState W
send_signal true s = record s { unserved = s.unserved + 1 }
send_signal false s = record s { is_signalled = true; unserved = s.unserved + 1 }

-- `Process`.
unfoldable pub signal : {W : Type 0} → WorkerState W → WorkerState W
unfolding send_signal
signal s = send_signal s.is_signalled s

unfoldable pub take_signal : {W : Type 0} → WorkerState W → WorkerState W
take_signal s = record s { phase = processing; is_signalled = false; unserved = 0 }

unfoldable pub start_worker : {W : Type 0} → WorkerState W → WorkerState W
unfolding signal
start_worker s = record (signal s) { phase = waiting }

-- `process` is the method, which returns `none` if it does not end.
pub data Step {W : Type 0} (process : W → Option W) : WorkerState W → WorkerState W → Type 0 where
  start : (s : WorkerState W) → s.phase ≡ starting → Step process s (start_worker s)
  request : (s : WorkerState W) → Step process s (signal s)
  take :
      (s : WorkerState W)
      → s.phase ≡ waiting
      → s.is_signalled ≡ true
      → Step process s (take_signal s)
  finish :
      (s : WorkerState W) (w : W)
      → s.phase ≡ processing
      → process s.world ≡ some w
      → Step process s (record s { phase = waiting; world = w })
  stop :
      (s : WorkerState W)
      → s.phase ≡ waiting
      → s.is_done ≡ true
      → Step process s (record s { phase = returned })
  change : (s : WorkerState W) (w : W) → Step process s (record s { world = w })
  cancel : (s : WorkerState W) → Step process s (record s { is_done = true })

abbrev pub new_worker : {W : Type 0} → W → WorkerState W
new_worker w = record {
  phase = starting;
  is_signalled = false;
  unserved = 0;
  is_done = false;
  world = w;
}

pub data Reach {W : Type 0} (process : W → Option W) (w : W) : WorkerState W → Type 0 where
  begin : Reach process w (new_worker w)
  next : (s t : WorkerState W) → Reach process w s → Step process s t → Reach process w t

module _ {W : Type 0} (process : W → Option W) where
  -- A call that was not served has left its signal.
  abbrev IsKept : WorkerState W → Type 0
  IsKept s = 0 < s.unserved → s.is_signalled ≡ true

  send_signal-IsKept :
      (b : Bool) (s : WorkerState W) → s.is_signalled ≡ b → (send_signal b s).is_signalled ≡ true
  unfolding send_signal
  send_signal-IsKept true s e = e
  send_signal-IsKept false s e = refl

  signal-IsKept : (s : WorkerState W) → (signal s).is_signalled ≡ true
  unfolding signal
  signal-IsKept s = send_signal-IsKept s.is_signalled s refl

  Step-IsKept : (s t : WorkerState W) → IsKept s → Step process s t → IsKept t
  unfolding start_worker take_signal
  Step-IsKept s t k (Step.start _ p) h = signal-IsKept s
  Step-IsKept s t k (Step.request _) h = signal-IsKept s
  Step-IsKept s t k (Step.take _ p b) h = absurd (omega (arith, h))
  Step-IsKept s t k (Step.finish _ w p e) h = k h
  Step-IsKept s t k (Step.stop _ p d) h = k h
  Step-IsKept s t k (Step.change _ w) h = k h
  Step-IsKept s t k (Step.cancel _) h = k h

  Reach-IsKept : (w : W) (s : WorkerState W) → Reach process w s → IsKept s
  Reach-IsKept w s Reach.begin h = absurd (omega (arith, h))
  Reach-IsKept w s (Reach.next u _ r st) h = Step-IsKept u s (Reach-IsKept w u r) st h

  -- The run that serves a call: the worker starts it now, or once the run that it is in has ended.
  pub data Serves (s : WorkerState W) : Type 0 where
    now :
        (t : WorkerState W)
        → Step process s t
        → t.phase ≡ processing
        → t.unserved ≡ 0
        → t.world ≡ s.world
        → Serves s
    after :
        (u t : WorkerState W)
        → Step process s u
        → Step process u t
        → t.phase ≡ processing
        → t.unserved ≡ 0
        → Serves s

  serve_waiting : (s : WorkerState W) → s.phase ≡ waiting → s.is_signalled ≡ true → Serves s
  unfolding take_signal
  serve_waiting s p b = Serves.now (take_signal s) (Step.take s p b) refl refl refl

  served_in :
      (s : WorkerState W) (ended : W) (phase : Phase)
      → s.phase ≡ phase
      → (s.is_signalled ≡ true)
      → process s.world ≡ some ended
      → phase ≢ Phase.returned
      → Serves s
  unfolding take_signal start_worker
  served_in s ended Phase.starting p k e n =
      Serves.after (start_worker s) (take_signal (start_worker s)) (Step.start s p)
        (Step.take (start_worker s) refl (signal-IsKept s)) refl refl
  served_in s ended Phase.waiting p k e n = serve_waiting s p k
  served_in s ended Phase.processing p k e n =
      let u = record s { phase = Phase.waiting; world = ended } in
      Serves.after u (take_signal u) (Step.finish s ended p e) (Step.take u refl k) refl refl
  served_in s ended Phase.returned p k e n = absurd (n refl)

  -- No call of `Process` is lost: in every reachable state in which a call was not served and the worker has
  -- not returned, the worker can take its signal and run `process` after the call, at once or, if it runs
  -- `process` already, as soon as that run ends.
  pub Reach-served :
      (w : W) (s : WorkerState W) (ended : W)
      → Reach process w s
      → 0 < s.unserved
      → process s.world ≡ some ended
      → s.phase ≢ Phase.returned
      → Serves s
  Reach-served w s ended r h e p = served_in s ended s.phase refl (Reach-IsKept w s r h) e p
