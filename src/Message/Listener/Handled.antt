-- ===== src/Message/Listener/Handled.antt =====
-- A message that has handlers is acknowledged as processed only after each of them has succeeded.
use mathlib.Core.Path.{subst}
use go_service_template.Common.{
  ℕ, zero, suc, ◌≡◌, refl, inl, inr, Option, none, some, List, map, get_elem?, get_elem?-map,
  get_elem?-map_inv, Error, ok, string_eq, Option-cases,
}
use go_service_template.Common.Assoc.{lookup}
use go_service_template.Message.{ConsumerMessage, StructuredMessage, Metadata}
use go_service_template.Message.Outbox.{call_each, call_each_with}
use go_service_template.Message.Listener.{
  Run, Attempt, Handler, HandlerMetadata, with_handler_metadata, Listener, canceled_result,
  attempted, after_acknowledge, try_acknowledge, acknowledge_message, after_round, after_handlers,
  handle_message, handler_job, after_find_handlers, after_deserialize, process_message,
}
use go_service_template.Message.Listener.Contracts.{Keeps, Retries, Groups}

-- What a trace of the world shows: which handlers have succeeded, and whether the message was
-- acknowledged as processed.
pub record Trace {W : Type 0} (l : Listener W) (msg : ConsumerMessage) : Type 1 where
  pub Succeeded : Handler W → W → Type 0
  pub Acknowledged : W → Type 0

module _ {W : Type 0} {l : Listener W} {msg : ConsumerMessage} (t : Trace l msg) where
  -- Between the two worlds no success is forgotten, and no acknowledgement is made.
  pub record Quiet (w w' : W) : Type 0 where
    pub succeeded : (h : Handler W) → t.Succeeded h w → t.Succeeded h w'
    pub acknowledged : t.Acknowledged w' → t.Acknowledged w

  -- What the calls do to the trace. Only the acknowledgement of a nil result acknowledges the message.
  pub record Ledger (handlers : List (Handler W)) : Type 1 where
    pub Passes : W → W → Type 0
    pub passes : (w w' : W) → Passes w w' → Quiet w w'
    pub handler_retries : Retries Passes l.handler_retry
    pub queue_retries : Retries Passes l.queue_retry
    pub groups : Groups Passes l.group
    pub handles :
        (i : ℕ) (h : Handler W) (metadata : HandlerMetadata) (m : StructuredMessage) (w : W)
        → get_elem? handlers i ≡ some h
        → Quiet w (h metadata m w).1
    pub handler_succeeds :
        (i : ℕ) (h : Handler W) (metadata : HandlerMetadata) (m : StructuredMessage) (w w' : W)
        → get_elem? handlers i ≡ some h
        → h metadata m w ≡ (none, w')
        → t.Succeeded h w'
    pub acknowledges_error : (e : Error) (w : W) → Quiet w (l.acknowledge_result msg (some e) w).1
    pub acknowledges_nil :
        (h : Handler W) (w : W)
        → t.Succeeded h w
        → t.Succeeded h (l.acknowledge_result msg none w).1
    pub on_before : (w : W) → Quiet w (call_each l.on_before_handle_message msg.message w)
    pub on_handled :
        (r : Option Error) (w : W) → Quiet w (call_each_with l.on_handler_result msg.message r w)
    pub on_acknowledge :
        (r e : Option Error) (w : W)
        → Quiet w (call_each_with l.on_acknowledge_result (msg.message, r) e w)

  module _ {handlers : List (Handler W)} (g : Ledger handlers) where
    -- Each handler has returned nil.
    abbrev pub AllSucceeded : W → Type 0
    AllSucceeded w = (i : ℕ) (h : Handler W) → get_elem? handlers i ≡ some h → t.Succeeded h w

    -- The message is not acknowledged as processed unless each handler has returned nil.
    abbrev pub IsHonest : W → Type 0
    IsHonest w = t.Acknowledged w → AllSucceeded w

    Quiet-AllSucceeded : (w w' : W) → Quiet w w' → AllSucceeded w → AllSucceeded w'
    Quiet-AllSucceeded w w' q a i h e = q.succeeded h (a i h e)

    Quiet-IsHonest : (w w' : W) → Quiet w w' → IsHonest w → IsHonest w'
    Quiet-IsHonest w w' q f k = Quiet-AllSucceeded w w' q (f (q.acknowledged k))

    -- What holds while the result `r` is being acknowledged.
    Ready : Option Error → W → Type 0
    Ready none w = AllSucceeded w
    Ready (some e) w = IsHonest w

    Quiet-Ready : (r : Option Error) (w w' : W) → Quiet w w' → Ready r w → Ready r w'
    unfolding Ready
    Quiet-Ready none w w' q a = Quiet-AllSucceeded w w' q a
    Quiet-Ready (some e) w w' q f = Quiet-IsHonest w w' q f

    Ready-IsHonest : (r : Option Error) (w : W) → Ready r w → IsHonest w
    unfolding Ready
    Ready-IsHonest none w a = λ k. a
    Ready-IsHonest (some e) w f = f

    acknowledge_result-Ready :
        (r : Option Error) (w : W) → Ready r w → Ready r (l.acknowledge_result msg r w).1
    unfolding Ready
    acknowledge_result-Ready none w a = λ i h e. g.acknowledges_nil h w (a i h e)
    acknowledge_result-Ready (some e) w f = Quiet-IsHonest w _ (g.acknowledges_error e w) f

    after_acknowledge-Ready :
        (r : Option Error) (result : Option Error × W)
        → Ready r result.1
        → Ready r (after_acknowledge l msg r result).1
    unfolding after_acknowledge
    after_acknowledge-Ready r (none, w) f = Quiet-Ready r w _ (g.on_acknowledge r none w) f
    after_acknowledge-Ready r (some e, w) f = Quiet-Ready r w _ (g.on_acknowledge r (some e) w) f

    try_acknowledge-Ready :
        (r : Option Error) (w : W) → Ready r w → Ready r (try_acknowledge l msg r w).1
    unfolding try_acknowledge
    try_acknowledge-Ready r w f = elim (Option-cases (canceled_result r (l.ctx_err w))) [
      | inl e ↦
          rw (e, try_acknowledge)
            (after_acknowledge-Ready r (l.acknowledge_result msg r w)
              (acknowledge_result-Ready r w f))
      | inr (s, e) ↦ rw (e, try_acknowledge) f
    ]

    acknowledge_message-IsHonest :
        (r s : Option Error) (w w' : W)
        → acknowledge_message l msg r w ≡ some (s, w')
        → Ready r w
        → IsHonest w'
    unfolding acknowledge_message
    acknowledge_message-IsHonest r s w w' e f = Ready-IsHonest r w' (
        g.queue_retries.keeps (Ready r) (try_acknowledge l msg r)
          (λ v v' p. Quiet-Ready r v v' (g.passes v v' p)) (try_acknowledge-Ready r) w w' s e f)

    attempted-Quiet :
        (w : W) (result : Option Error × W) → Quiet w result.1 → Quiet w (attempted result).1
    unfolding attempted
    attempted-Quiet w (none, v) q = q
    attempted-Quiet w (some e, v) q = q

    attempted-succeeded :
        (result : Option Error × W)
        → (attempted result).0 ≡ Attempt.succeeded
        → result ≡ (none, (attempted result).1)
    unfolding attempted
    attempted-succeeded (none, v) e = refl
    attempted-succeeded (some x, v) e = cc

    module _ (metadata : HandlerMetadata) (m : StructuredMessage) where
      -- A job of a handler keeps what no quiet step can undo.
      handler_job-Keeps :
          (P : W → Type 0)
          → ((w w' : W) → Quiet w w' → P w → P w')
          → (i : ℕ) (h : Handler W) → get_elem? handlers i ≡ some h
          → Keeps g.Passes P (handler_job l metadata m h)
      unfolding handler_job
      handler_job-Keeps P quiet i h e w w' r f p =
          g.handler_retries.keeps P (λ v. attempted (h metadata m v))
            (λ v v' q. quiet v v' (g.passes v v' q))
            (λ v. quiet v _ (attempted-Quiet v _ (g.handles i h metadata m v e))) w w' r f p

      handler_job-Succeeded :
          (i : ℕ) (h : Handler W)
          → get_elem? handlers i ≡ some h
          → (w w' : W) → handler_job l metadata m h w ≡ some (none, w')
          → t.Succeeded h w'
      unfolding handler_job
      handler_job-Succeeded i h e w w' f =
          g.handler_retries.achieves (λ v. Unit) (t.Succeeded h) (λ v. attempted (h metadata m v))
            (λ v v' p u. tt) (λ v u. tt)
            (λ v u s.
              g.handler_succeeds i h metadata m v _ e (attempted-succeeded (h metadata m v) s))
            w w' f tt

      -- What a job of the group keeps, for each job.
      jobs-Keeps :
          (P : W → Type 0)
          → ((w w' : W) → Quiet w w' → P w → P w')
          → (i : ℕ) (job : Run W) → get_elem? (map (handler_job l metadata m) handlers) i ≡ some job
          → Keeps g.Passes P job
      jobs-Keeps P quiet i job e =
          let (h, (f, k)) = get_elem?-map_inv (handler_job l metadata m) handlers i job e in
          subst (Keeps g.Passes P) k (handler_job-Keeps P quiet i h f)

      group-Ready :
          (r : Option Error) (w w' : W)
          → l.group (map (handler_job l metadata m) handlers) w ≡ some (r, w')
          → IsHonest w
          → Ready r w'
      unfolding Ready
      group-Ready none w w' e f = λ i h k.
          g.groups.achieves (t.Succeeded h) (map (handler_job l metadata m) handlers) i
            (handler_job l metadata m h) (λ v v' p. (g.passes v v' p).succeeded h)
            (jobs-Keeps (t.Succeeded h) (λ v v' q. q.succeeded h))
            (get_elem?-map (handler_job l metadata m) handlers i h k) (handler_job-Succeeded i h k)
            w w' e
      group-Ready (some x) w w' e f =
          g.groups.keeps IsHonest (map (handler_job l metadata m) handlers)
            (λ v v' p. Quiet-IsHonest v v' (g.passes v v' p)) (jobs-Keeps IsHonest Quiet-IsHonest) w
            w' (some x) e f

      after_handlers-IsHonest :
          (result : Option (Option Error × W)) (s : Option Error) (w' : W)
          → ((r : Option Error) (w : W) → result ≡ some (r, w) → Ready r w)
          → after_handlers l msg result ≡ some (s, w')
          → IsHonest w'
      unfolding after_handlers
      after_handlers-IsHonest none s w' ready e = cc
      after_handlers-IsHonest (some (r, w)) s w' ready e =
          acknowledge_message-IsHonest r s _ w' e
            (Quiet-Ready r w _ (g.on_handled r w) (ready r w refl))

      after_round-IsHonest :
          (result : Option (Option Error × W)) (again : W → Option W) (w' : W)
          → ((s : Option Error) (w : W) → result ≡ some (s, w) → IsHonest w)
          → ((w : W) → again w ≡ some w' → IsHonest w → IsHonest w')
          → after_round l result again ≡ some w'
          → IsHonest w'
      unfolding after_round
      after_round-IsHonest none again w' f rest e = cc
      after_round-IsHonest (some (none, w)) again w' f rest e =
          subst IsHonest (let p : w ≡ w' = cc in p) (f none w refl)
      after_round-IsHonest (some (some x, w)) again w' f rest e = rest w e (f (some x) w refl)

      handle_message-IsHonest :
          (fuel : ℕ) (w w' : W)
          → handle_message l fuel msg (map (handler_job l metadata m) handlers) w ≡ some w'
          → IsHonest w
          → IsHonest w'
      unfolding handle_message
      handle_message-IsHonest zero w w' e f = cc
      handle_message-IsHonest (suc fuel) w w' e f = elim (Option-cases (l.ctx_err w)) [
        | inl d ↦
            after_round-IsHonest
              (after_handlers l msg (l.group (map (handler_job l metadata m) handlers) w))
              (handle_message l fuel msg (map (handler_job l metadata m) handlers)) w'
              (λ s v.
                after_handlers-IsHonest (l.group (map (handler_job l metadata m) handlers) w) s v
                  (λ r u z. group-Ready r w u z f))
              (λ v z. handle_message-IsHonest fuel v w' z) (rw (d, handle_message) at e)
        | inr (s, d) ↦
            let p : w ≡ w' = (let q = rw (d, handle_message) at e in cc) in subst IsHonest p f
      ]

    -- A message that has handlers is acknowledged as processed only after each of them has returned nil,
    -- however often the handlers and the acknowledgement are retried.
    pub process_message-IsHonest :
        (fuel : ℕ) (m : StructuredMessage) (metadata : Metadata) (w w' : W)
        → l.deserialize msg.message.payload ≡ ok (m, metadata)
        → lookup m.message_type l.handlers ≡ some handlers
        → process_message l fuel msg w ≡ some w'
        → IsHonest w
        → IsHonest w'
    unfolding process_message after_deserialize after_find_handlers
    process_message-IsHonest fuel m metadata w w' d h e f =
        handle_message-IsHonest (with_handler_metadata msg.message metadata) m fuel _ w'
          (rw (d, h, process_message, after_deserialize, after_find_handlers) at e)
          (Quiet-IsHonest w _ (g.on_before w) f)
