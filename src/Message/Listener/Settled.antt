-- ===== src/Message/Listener/Settled.antt =====
-- The processing of a message ends only when the message is acknowledged, or the context is done.
use mathlib.Core.Path.{subst}
use go_service_template.Common.{
  ℕ, zero, suc, ◌≡◌, ◌≢◌, refl, ◌⊎◌, inl, inr, Option-cases, Option, none, some, List, Error,
  Sentinel, Result, ok, err, is, string_eq, Bool-cases,
}
use go_service_template.Message.{ConsumerMessage, StructuredMessage, Metadata}
use go_service_template.Message.Outbox.{call_each_with}
use go_service_template.Message.Listener.{
  Run, Attempt, Handler, Listener, canceled_result, after_acknowledge, try_acknowledge,
  acknowledge_message, after_round, skip_and_ack_message, after_handlers, handle_message,
  after_find_handlers, after_deserialize, process_message,
}
use go_service_template.Message.Listener.Contracts.{Retries}

-- What shows that the queue has accepted a result of the message.
pub record Accepts {W : Type 0} (l : Listener W) (msg : ConsumerMessage) : Type 1 where
  pub Accepted : W → Type 0
  pub Passes : W → W → Type 0
  pub retries : Retries Passes l.queue_retry
  pub acknowledges :
      (r : Option Error) (w w' : W) → l.acknowledge_result msg r w ≡ (none, w') → Accepted w'
  pub on_acknowledge :
      (r : Option Error) (w : W)
      → Accepted w
      → Accepted (call_each_with l.on_acknowledge_result (msg.message, r) none w)

module _ {W : Type 0} {l : Listener W} {msg : ConsumerMessage} (a : Accepts l msg) where
  open a use {Accepted}

  after_acknowledge-Accepted :
      (r : Option Error) (w : W) (result : Option Error × W)
      → l.acknowledge_result msg r w ≡ result
      → (after_acknowledge l msg r result).0 ≡ Attempt.succeeded
      → Accepted (after_acknowledge l msg r result).1
  unfolding after_acknowledge
  after_acknowledge-Accepted r w (none, w') e h = a.on_acknowledge r w' (a.acknowledges r w w' e)
  after_acknowledge-Accepted r w (some x, w') e h =
      elim (Bool-cases (is x Sentinel.negative_ack_not_supported)) [ inl t ↦ cc | inr f ↦ cc ]

  try_acknowledge-Accepted :
      (r : Option Error) (w : W)
      → (try_acknowledge l msg r w).0 ≡ Attempt.succeeded
      → Accepted (try_acknowledge l msg r w).1
  unfolding try_acknowledge
  try_acknowledge-Accepted r w h = elim (Option-cases (canceled_result r (l.ctx_err w))) [
    | inl e ↦
        rw (e, try_acknowledge)
          (after_acknowledge-Accepted r w (l.acknowledge_result msg r w) refl
            (rw (e, try_acknowledge) at h))
    | inr (s, e) ↦ let z = rw (e, try_acknowledge) at h in cc
  ]

  acknowledge_message-Accepted :
      (r : Option Error) (w w' : W) → acknowledge_message l msg r w ≡ some (none, w') → Accepted w'
  unfolding acknowledge_message
  acknowledge_message-Accepted r w w' e =
      a.retries.achieves (λ v. Unit) Accepted (try_acknowledge l msg r) (λ v v' p u. tt) (λ v u. tt)
        (λ v u. try_acknowledge-Accepted r v) w w' e tt

  -- Where the processing of the message may end.
  abbrev pub IsSettled : W → Type 0
  IsSettled w = (l.ctx_err w ≢ none) ⊎ Accepted w

  after_round-IsSettled :
      (result : Option (Option Error × W)) (again : W → Option W)
      → ((w : W) → result ≡ some (none, w) → Accepted w)
      → ((w w' : W) → again w ≡ some w' → IsSettled w')
      → (w' : W) → after_round l result again ≡ some w'
      → IsSettled w'
  unfolding after_round
  after_round-IsSettled none again acked rest w' e = cc
  after_round-IsSettled (some (none, w)) again acked rest w' e =
      inr (subst Accepted (let p : w ≡ w' = cc in p) (acked w refl))
  after_round-IsSettled (some (some x, w)) again acked rest w' e = rest w w' e

  skip_and_ack_message-IsSettled :
      (fuel : ℕ) (w w' : W) → skip_and_ack_message l fuel msg w ≡ some w' → IsSettled w'
  unfolding skip_and_ack_message
  skip_and_ack_message-IsSettled zero w w' e = cc
  skip_and_ack_message-IsSettled (suc fuel) w w' e = elim (Option-cases (l.ctx_err w)) [
    | inl d ↦
        after_round-IsSettled (acknowledge_message l msg none w) (skip_and_ack_message l fuel msg)
          (acknowledge_message-Accepted none w) (skip_and_ack_message-IsSettled fuel) w'
          (rw (d, skip_and_ack_message) at e)
    | inr (s, d) ↦ let p = rw (d, skip_and_ack_message) at e in inl (λ z. cc)
  ]

  after_handlers-Accepted :
      (result : Option (Option Error × W)) (w : W)
      → after_handlers l msg result ≡ some (none, w)
      → Accepted w
  unfolding after_handlers
  after_handlers-Accepted none w e = cc
  after_handlers-Accepted (some (r, v)) w e = acknowledge_message-Accepted r _ w e

  handle_message-IsSettled :
      (fuel : ℕ) (jobs : List (Run W)) (w w' : W)
      → handle_message l fuel msg jobs w ≡ some w'
      → IsSettled w'
  unfolding handle_message
  handle_message-IsSettled zero jobs w w' e = cc
  handle_message-IsSettled (suc fuel) jobs w w' e = elim (Option-cases (l.ctx_err w)) [
    | inl d ↦
        after_round-IsSettled (after_handlers l msg (l.group jobs w))
          (handle_message l fuel msg jobs) (after_handlers-Accepted (l.group jobs w))
          (handle_message-IsSettled fuel jobs) w' (rw (d, handle_message) at e)
    | inr (s, d) ↦ let p = rw (d, handle_message) at e in inl (λ z. cc)
  ]

  after_find_handlers-IsSettled :
      (fuel : ℕ) (m : StructuredMessage) (metadata : Metadata) (found : Option (List (Handler W)))
      (w w' : W)
      → after_find_handlers l fuel msg m metadata found w ≡ some w'
      → IsSettled w'
  unfolding after_find_handlers
  after_find_handlers-IsSettled fuel m metadata none w w' e =
      skip_and_ack_message-IsSettled fuel _ w' e
  after_find_handlers-IsSettled fuel m metadata (some handlers) w w' e =
      handle_message-IsSettled fuel _ _ w' e

  after_deserialize-IsSettled :
      (fuel : ℕ) (found : Result (StructuredMessage × Metadata)) (w w' : W)
      → after_deserialize l fuel msg found w ≡ some w'
      → IsSettled w'
  unfolding after_deserialize
  after_deserialize-IsSettled fuel (err x) w w' e = skip_and_ack_message-IsSettled fuel _ w' e
  after_deserialize-IsSettled fuel (ok (m, metadata)) w w' e =
      after_find_handlers-IsSettled fuel m metadata _ w w' e

  -- When the processing of a message ends, on every branch, the queue has accepted its result, or the
  -- context of the listener is done.
  pub process_message-IsSettled :
      (fuel : ℕ) (w w' : W) → process_message l fuel msg w ≡ some w' → IsSettled w'
  unfolding process_message
  process_message-IsSettled fuel w w' e = after_deserialize-IsSettled fuel _ w w' e
