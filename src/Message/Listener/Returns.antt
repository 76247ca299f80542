-- ===== src/Message/Listener/Returns.antt =====
-- The loops of the processing of a message end if only finitely many rounds can fail before the context
-- is done.
use go_service_template.Common.{
  ℕ, zero, suc, ◌+◌, ◌≤◌, ◌<◌, ◌≡◌, refl, sym, ◌∙◌, ◌⊎◌, inl, inr, Option, none, some, List, map,
  Error, Sentinel, Result, ok, err, is, string_eq, Bool-cases, Option-cases, arith,
}
use go_service_template.Common.Assoc.{lookup}
use go_service_template.Message.{ConsumerMessage, StructuredMessage, Metadata}
use go_service_template.Message.Outbox.{call_each, call_each_with}
use go_service_template.Message.Listener.{
  Handler, HandlerMetadata, with_handler_metadata, Listener, acknowledge_message, after_round,
  skip_and_ack_message, after_handlers, handle_message, handler_job, after_find_handlers,
  after_deserialize, process_message,
}
use go_service_template.Message.Listener.Settled.{Accepts, IsSettled, process_message-IsSettled}

-- The context of the listener is done.
abbrev pub IsDone : {W : Type 0} → Listener W → W → Type 0
IsDone l w = (s : Sentinel) × (l.ctx_err w ≡ some s)

-- How a round from `w` ends, with the error of the acknowledgement and the world: it has acknowledged,
-- the context is done, or fewer rounds can fail.
abbrev pub Moves : {W : Type 0} → Listener W → (W → ℕ) → W → Option (Option Error × W) → Type 0
Moves l refusals w r =
    (s : Option Error) × (w' : _) × (r ≡ some (s, w'))
    × ((s ≡ none) ⊎ IsDone l w' ⊎ (refusals w' < refusals w))

-- `refusals` bounds the rounds that can still fail while the context is not done. A round that begins before
-- it is done returns: the group with the jobs of the message's handlers, and the acknowledgement of
-- its result.
pub record Progress {W : Type 0} (l : Listener W) (msg : ConsumerMessage) : Type 0 where
  pub refusals : W → ℕ
  pub skips : (w : W) → l.ctx_err w ≡ none → Moves l refusals w (acknowledge_message l msg none w)
  pub handles :
      (handlers : List (Handler W)) (metadata : HandlerMetadata) (m : StructuredMessage) (w : W)
      → lookup m.message_type l.handlers ≡ some handlers
      → l.ctx_err w ≡ none
      → (r : Option Error) × (v : W) × (l.group (map (handler_job l metadata m) handlers) w
          ≡ some (r, v))
        × Moves l refusals w
            (acknowledge_message l msg r (call_each_with l.on_handler_result msg.message r v))
  pub on_before :
      (w : W) → refusals (call_each l.on_before_handle_message msg.message w) ≤ refusals w
  pub on_not_found :
      (w : W) → refusals (call_each l.on_handler_not_found msg.message w) ≤ refusals w
  pub on_unknown :
      (e : Option Error) (w : W)
      → refusals (call_each_with l.on_deserialized_unknown_msg msg.message e w) ≤ refusals w
  pub on_error :
      (e : Option Error) (w : W)
      → refusals (call_each_with l.on_deserialized_error msg.message e w) ≤ refusals w

module _ {W : Type 0} {l : Listener W} {msg : ConsumerMessage} (p : Progress l msg) where
  open p use {refusals}

  abbrev Returns : Option W → Type 0
  Returns result = (w' : W) × (result ≡ some w')

  -- Fuel for the rounds that can fail, one that does not, and one that finds the context done.
  abbrev Enough : ℕ → W → Type 0
  Enough fuel w = (IsDone l w × (0 < fuel)) ⊎ (refusals w + 1 < fuel)

  after_round-Returns :
      (result : Option (Option Error × W)) (again : W → Option W) (fuel : ℕ) (w : W)
      → Moves l refusals w result
      → refusals w < fuel
      → ((v : W) → Enough fuel v → Returns (again v))
      → Returns (after_round l result again)
  unfolding after_round
  after_round-Returns result again fuel w (none, w', e, d) h rest = (w', rw (e, after_round))
  after_round-Returns result again fuel w (some x, w', e, inl d) h rest = cc
  after_round-Returns result again fuel w (some x, w', e, inr (inl d)) h rest =
      let (v, f) = rest w' (inl (d, omega arith)) in (v, rw (e, after_round) f)
  after_round-Returns result again fuel w (some x, w', e, inr (inr d)) h rest =
      let (v, f) = rest w' (inr (omega arith)) in (v, rw (e, after_round) f)

  -- A round that begins before the context is done has fuel for the next.
  before_done : (fuel : ℕ) (w : W) → l.ctx_err w ≡ none → Enough (suc fuel) w → refusals w < fuel
  before_done fuel w d (inl ((s, e), h)) = let z : none ≡ some s = sym d ∙ e in cc
  before_done fuel w d (inr h) = omega arith

  no_fuel : (w : W) → ¬ Enough 0 w
  no_fuel w (inl (d, h)) = omega arith
  no_fuel w (inr h) = omega arith

  skip_and_ack_message-Returns :
      (fuel : ℕ) (w : W) → Enough fuel w → Returns (skip_and_ack_message l fuel msg w)
  unfolding skip_and_ack_message
  skip_and_ack_message-Returns zero w h = absurd (no_fuel w h)
  skip_and_ack_message-Returns (suc fuel) w h = elim (Option-cases (l.ctx_err w)) [
    | inl d ↦
        let r =
          after_round-Returns (acknowledge_message l msg none w) (skip_and_ack_message l fuel msg)
            fuel w (p.skips w d) (before_done fuel w d h) (skip_and_ack_message-Returns fuel) in
        (r.0, rw (d, skip_and_ack_message) r.1)
    | inr (s, d) ↦ (w, rw (d, skip_and_ack_message))
  ]

  module _ (handlers : List (Handler W)) (metadata : HandlerMetadata) (m : StructuredMessage)
      (found : lookup m.message_type l.handlers ≡ some handlers) where
    after_handlers-Moves :
        (w : W)
        → l.ctx_err w ≡ none
        → Moves l refusals w
            (after_handlers l msg (l.group (map (handler_job l metadata m) handlers) w))
    unfolding after_handlers
    after_handlers-Moves w d =
        let (r, v, g, k) = p.handles handlers metadata m w found d in rw (g, after_handlers) k

    handle_message-Returns :
        (fuel : ℕ) (w : W)
        → Enough fuel w
        → Returns (handle_message l fuel msg (map (handler_job l metadata m) handlers) w)
    unfolding handle_message
    handle_message-Returns zero w h = absurd (no_fuel w h)
    handle_message-Returns (suc fuel) w h = elim (Option-cases (l.ctx_err w)) [
      | inl d ↦
          let jobs = map (handler_job l metadata m) handlers in
          let r =
            after_round-Returns (after_handlers l msg (l.group jobs w))
              (handle_message l fuel msg jobs) fuel w (after_handlers-Moves w d)
              (before_done fuel w d h) (handle_message-Returns fuel) in
          (r.0, rw (d, handle_message) r.1)
      | inr (s, d) ↦ (w, rw (d, handle_message))
    ]

  after_find_handlers-Returns :
      (fuel : ℕ) (m : StructuredMessage) (metadata : Metadata) (found : Option (List (Handler W)))
      (w : W)
      → lookup m.message_type l.handlers ≡ found
      → refusals w + 1 < fuel
      → Returns (after_find_handlers l fuel msg m metadata found w)
  unfolding after_find_handlers
  after_find_handlers-Returns fuel m metadata none w e h =
      skip_and_ack_message-Returns fuel _ (inr (omega (arith, p.on_not_found w)))
  after_find_handlers-Returns fuel m metadata (some handlers) w e h =
      handle_message-Returns handlers (with_handler_metadata msg.message metadata) m e fuel _
        (inr (omega (arith, p.on_before w)))

  after_deserialize-Returns :
      (fuel : ℕ) (found : Result (StructuredMessage × Metadata)) (w : W)
      → refusals w + 1 < fuel
      → Returns (after_deserialize l fuel msg found w)
  unfolding after_deserialize
  after_deserialize-Returns fuel (err x) w h =
      elim (Bool-cases (is x Sentinel.deserialize_unknown_message)) [
        | inl e ↦
            rw (e)
              (skip_and_ack_message-Returns fuel _ (inr (omega (arith, p.on_unknown (some x) w))))
        | inr e ↦
            rw (e)
              (skip_and_ack_message-Returns fuel _ (inr (omega (arith, p.on_error (some x) w))))
      ]
  after_deserialize-Returns fuel (ok (m, metadata)) w h =
      after_find_handlers-Returns fuel m metadata _ w refl h

  -- If a round that begins before the context is done returns, and is acknowledged, leaves the context
  -- done or lowers the bound on the rounds that can fail, and if the options called before the loop do not
  -- raise this bound, then with two units of fuel more than it the processing of the message ends, and
  -- the queue has accepted its result, or the context is done.
  pub process_message_settles :
      (a : Accepts l msg) (fuel : ℕ) (w : W)
      → refusals w + 1 < fuel
      → (w' : W) × (process_message l fuel msg w ≡ some w') × IsSettled a w'
  unfolding process_message
  process_message_settles a fuel w h =
      let (w', e) = after_deserialize-Returns fuel (l.deserialize msg.message.payload) w h in
      (w', e, process_message-IsSettled a fuel w w' e)
