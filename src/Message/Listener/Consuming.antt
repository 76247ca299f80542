-- ===== src/Message/Listener/Consuming.antt =====
-- `consumerWorker` of pkg/message/listener.go as steps, with the goroutines of `processMessage` that it starts,
-- over the queue for a broker that commits offsets. `close` is the result of `Close` of the consumer.
mod Examples
use mathlib.Core.Path.{subst}
use go_service_template.Common.{
  ℕ, zero, suc, ◌+◌, ◌-◌, ◌<◌, ◌≡◌, refl, sym, ap, ◌∙◌, ◌⊎◌, inl, inr, Bool, true, false, Option,
  none, some, List, [], ◌∷◌, ◌++◌, Error, arith,
}
use go_service_template.Message.{ConsumerMessage, Effect}
use go_service_template.Message.CommitOffsetQueue.{
  CommitOffsetQueue, new_commit_offset_queue, take_token, add_processing, acknowledge_result,
}
use go_service_template.Message.CommitOffsetQueue.Tokens.{Session, Reach, Step, Reach-progress}

-- Where the worker is: at the first select, at the second, in `wg.Wait`, or returned.
pub data WorkerPhase : Type 0 where
  waiting holding : WorkerPhase
  leaving returned : Option Error → WorkerPhase

-- `active` holds the messages whose `processMessage` has not ended, and `held` counts the tokens taken for
-- messages that are not added.
pub record ConsumerState (W : Type 0) : Type 0 where
  pub phase : WorkerPhase
  pub queue : CommitOffsetQueue
  pub held : ℕ
  pub active : List ConsumerMessage
  pub is_done : Bool
  pub world : W

abbrev pub channel_closed : Error
channel_closed = Error.message "consumer closed messages channel"

-- The end of `consumerWorker`.
unfoldable pub wrap_listener : Option Error → Option Error
wrap_listener none = none
wrap_listener (some e) = some (Error.wrap "message listener %s/%s: %w" e)

-- After `AddProcessing`.
unfoldable pub after_add_processing :
    {W : Type 0}
    → ConsumerMessage
    → ConsumerState W
    → Option Error × CommitOffsetQueue
    → ConsumerState W
after_add_processing msg s (none, q) = record s {
  phase = waiting;
  queue = q;
  held = s.held - 1;
  active = msg ∷ s.active;
}
after_add_processing msg s (some e, q) = record s {
  phase = leaving (some (Error.wrap "add to processing internal error: %w" e));
  queue = q;
  held = s.held - 1;
}

module _ {W : Type 0} (commit_offset : ConsumerMessage → Effect W) (close : Option Error) where
  pub data ConsumerStep (s : ConsumerState W) : ConsumerState W → Type 0 where
    takes_token :
        (q : CommitOffsetQueue)
        → s.phase ≡ WorkerPhase.waiting
        → take_token s.queue ≡ some q
        → ConsumerStep s (record s { phase = holding; queue = q; held = s.held + 1 })
    receives :
        (msg : ConsumerMessage)
        → s.phase ≡ WorkerPhase.holding
        → ConsumerStep s (after_add_processing msg s (add_processing msg s.queue))
    finds_closed :
        s.phase ≡ WorkerPhase.holding
        → ConsumerStep s (record s { phase = leaving (some channel_closed) })
    stops :
        s.is_done ≡ true
        → (s.phase ≡ WorkerPhase.waiting) ⊎ (s.phase ≡ WorkerPhase.holding)
        → ConsumerStep s (record s { phase = leaving close })
    acknowledges_result :
        (msg : ConsumerMessage) (result : Option Error)
        (after : Option Error × CommitOffsetQueue × W)
        → acknowledge_result commit_offset msg result s.queue s.world ≡ some after
        → ConsumerStep s (record s { queue = after.1; world = after.2 })
    ends :
        (before later : List ConsumerMessage) (msg : ConsumerMessage)
        → s.active ≡ before ++ msg ∷ later
        → ConsumerStep s (record s { active = before ++ later })
    returns :
        (r : Option Error)
        → s.phase ≡ leaving r
        → s.active ≡ []
        → ConsumerStep s (record s { phase = returned (wrap_listener r) })
    cancels : ConsumerStep s (record s { is_done = true })

  pub data Consumes (max_size : ℕ) (w : W) : ConsumerState W → Type 0 where
    begins : Consumes max_size w (record {
      phase = waiting;
      queue = new_commit_offset_queue max_size;
      held = 0;
      active = [];
      is_done = false;
      world = w;
    })
    then :
        (s t : ConsumerState W) → Consumes max_size w s → ConsumerStep s t → Consumes max_size w t

  -- The part of the state that the queue's protocol is about.
  abbrev session : ConsumerState W → Session W
  session s = record { queue = s.queue; held = s.held; world = s.world }

  -- How the worker ends: it was stopped, or the channel was closed.
  abbrev pub IsEnd : Option Error → Type 0
  IsEnd r = (r ≡ close) ⊎ (r ≡ some channel_closed)

  -- What is known in each phase, of the tokens in hand and the reason to leave.
  abbrev Orderly : ℕ → WorkerPhase → Type 0
  Orderly held waiting = Unit {0}
  Orderly held holding = 0 < held
  Orderly held (leaving r) = IsEnd r
  Orderly held (returned r) = (e : Option Error) × (r ≡ wrap_listener e) × IsEnd e

  -- The worker keeps to the protocol of the queue.
  record Known (max_size : ℕ) (w : W) (s : ConsumerState W) : Type 0 where
    reached : Reach commit_offset max_size w (session s)
    orderly : Orderly s.held s.phase

  after_add_processing-Known :
      (max_size : ℕ) (w : W) (msg : ConsumerMessage) (s : ConsumerState W)
      (r : Option Error × CommitOffsetQueue)
      → r.0 ≡ none
      → Reach commit_offset max_size w (record { queue = r.1; held = s.held - 1; world = s.world })
      → Known max_size w (after_add_processing msg s r)
  unfolding after_add_processing
  after_add_processing-Known max_size w msg s (none, q) n reach = record {
    reached = reach;
    orderly = tt;
  }
  after_add_processing-Known max_size w msg s (some e, q) n reach = cc

  Step-Known :
      (max_size : ℕ) (w : W) (s t : ConsumerState W)
      → Known max_size w s
      → ConsumerStep s t
      → Known max_size w t
  Step-Known max_size w s t k (takes_token q p e) = record {
    reached = Reach.later k.reached (Step.takes e);
    orderly = omega arith;
  }
  Step-Known max_size w s t k (receives msg p) =
      let h : 0 < s.held = subst (Orderly s.held) p k.orderly in
      after_add_processing-Known max_size w msg s (add_processing msg s.queue)
        ((Reach-progress commit_offset msg none k.reached).0 h)
        (Reach.later k.reached (Step.adds msg h))
  Step-Known max_size w s t k (finds_closed p) = record { reached = k.reached; orderly = inr refl }
  Step-Known max_size w s t k (stops d p) = record { reached = k.reached; orderly = inl refl }
  Step-Known max_size w s t k (acknowledges_result msg result after e) = record {
    reached = Reach.later k.reached (Step.acknowledges msg result e);
    orderly = k.orderly;
  }
  Step-Known max_size w s t k (ends before later msg e) = record {
    reached = k.reached;
    orderly = k.orderly;
  }
  Step-Known max_size w s t k (returns r p a) = record {
    reached = k.reached;
    orderly = (r, refl, subst (Orderly s.held) p k.orderly);
  }
  Step-Known max_size w s t k cancels = record { reached = k.reached; orderly = k.orderly }

  Consumes-Known :
      (max_size : ℕ) (w : W) (s : ConsumerState W) → Consumes max_size w s → Known max_size w s
  Consumes-Known max_size w s begins = record { reached = Reach.start; orderly = tt }
  Consumes-Known max_size w s (then u _ c st) =
      Step-Known max_size w u s (Consumes-Known max_size w u c) st

  -- When `consumerWorker` has returned over the queue for a broker that commits offsets, its error is that of
  -- `Close` or that the channel of messages was closed: `AddProcessing` of this queue has refused no
  -- message, in whatever order messages were received, handled and acknowledged.
  pub Consumes-returned :
      (max_size : ℕ) (w : W) (s : ConsumerState W) (r : Option Error)
      → Consumes max_size w s
      → s.phase ≡ WorkerPhase.returned r
      → (e : Option Error) × (r ≡ wrap_listener e) × IsEnd e
  Consumes-returned max_size w s r c p =
      let k = Consumes-Known max_size w s c in subst (Orderly s.held) p k.orderly
