-- ===== src/Message/Listener/Examples/Refusing.antt =====
-- A listener whose handler fails some times, and whose queue refuses a failed result, as the one for a
-- broker that commits offsets does. The context has a deadline.
use mathlib.Core.Path.{subst}
use go_service_template.Common.{
  ℕ, zero, suc, ◌-◌, ◌≡◌, refl, sym, ap, inl, inr, Bool, true, false, Option, none, some, List, [],
  ◌∷◌, map, Error, Sentinel, ok, String, string_eq, ◌==◌, Bool-cases, arith,
}
use go_service_template.Common.Assoc.{lookup}
use go_service_template.Message.{ConsumerMessage, StructuredMessage, Effect}
use go_service_template.Message.Outbox.{call_each, call_each_with}
use go_service_template.Message.Listener.{
  Handler, HandlerMetadata, Listener, attempted, after_acknowledge, try_acknowledge,
  acknowledge_message, handler_job, process_message,
}
use go_service_template.Message.Listener.Doubles.{
  retried, retry, retry-Retries, first_error, after_job, in_order,
}
use go_service_template.Message.Listener.Settled.{Accepts, IsSettled}
use go_service_template.Message.Listener.Returns.{Moves, Progress, process_message_settles}

abbrev sent : ConsumerMessage
sent = record { address = 1; message = record { id = 7; topic = "users"; key = ""; payload = [] } }

abbrev text : StructuredMessage
text = record { id = 7; message_type = "deleted"; reflect_type = 1; content = [] }

-- How often the handler still fails, how many calls of it are left before the context is done, and
-- whether the queue has accepted a result.
abbrev World : Type 0
World = ℕ × (ℕ × Bool)

abbrev failing : Handler World
failing metadata m (zero, (k, a)) = (none, (0, (k - 1, a)))
failing metadata m (suc n, (k, a)) = (some (Error.external 1), (n, (k - 1, a)))

abbrev accept : Option Error → Effect World
accept none (n, (k, a)) = (none, (n, (k, true)))
accept (some e) w = (some (Error.sentinel Sentinel.negative_ack_not_supported), w)

abbrev deadline : ℕ → Option Sentinel
deadline zero = some Sentinel.deadline_exceeded
deadline (suc k) = none

abbrev refusing : Listener World
refusing = record {
  ctx_err = λ w. deadline w.1.0;
  deserialize = λ payload. ok (text, []);
  handlers = ("deleted", failing ∷ []) ∷ [];
  handler_retry = retry 0;
  group = in_order;
  acknowledge_result = λ msg r. accept r;
  queue_retry = retry 0;
  on_handler_not_found = [];
  on_before_handle_message = [];
  on_handler_result = [];
  on_acknowledge_result = [];
  on_deserialized_unknown_msg = [];
  on_deserialized_error = [];
}

acknowledges_failed :
    (w : World)
    → acknowledge_message refusing sent (some (Error.external 1)) w
      ≡ some (some (Error.sentinel Sentinel.negative_ack_not_supported), w)
unfolding acknowledge_message try_acknowledge after_acknowledge retried call_each_with
acknowledges_failed (n, (zero, a)) = refl
acknowledges_failed (n, (suc k, a)) = refl

acknowledges_processed :
    (w : World) → acknowledge_message refusing sent none w ≡ some (none, (w.0, (w.1.0, true)))
unfolding acknowledge_message try_acknowledge after_acknowledge retried call_each_with
acknowledges_processed w = refl

abbrev Handles : List (Handler World) → Type 0
Handles handlers =
    (metadata : HandlerMetadata) (m : StructuredMessage) (w : World)
    → (r : Option Error) × (v : World) × (in_order (map (handler_job refusing metadata m) handlers)
          w
        ≡ some (r, v))
      × Moves refusing (λ u. u.0) w (acknowledge_message refusing sent r v)

failing-Handles : Handles (failing ∷ [])
unfolding in_order after_job first_error handler_job attempted retried
failing-Handles metadata m (zero, (k, a)) =
    (none, (0, (k - 1, a)), refl, (none, _, acknowledges_processed (0, (k - 1, a)), inl refl))
failing-Handles metadata m (suc n, (k, a)) = (
  some (Error.external 1),
  (n, (k - 1, a)),
  refl,
  (_, _, acknowledges_failed (n, (k - 1, a)), inr (inr (omega arith))),
)

found_failing :
    (t : String) (handlers : List (Handler World))
    → lookup t refusing.handlers ≡ some handlers
    → (failing ∷ []) ≡ handlers
unfolding lookup
found_failing t handlers e = elim (Bool-cases ("deleted" == t)) [
  | inl b ↦ let f = rw (b, lookup) at e in cc
  | inr b ↦ let f = rw (b, lookup) at e in cc
]

abbrev progress : Progress refusing sent
unfolding call_each call_each_with
progress = record {
  refusals = λ w. w.0;
  skips = λ w d. (none, _, acknowledges_processed w, inl refl);
  handles = λ handlers metadata m w e d.
      subst Handles (found_failing m.message_type handlers e) failing-Handles metadata m w;
  on_before = λ w. omega arith;
  on_not_found = λ w. omega arith;
  on_unknown = λ e w. omega arith;
  on_error = λ e w. omega arith;
}

accept_IsAccepted : (r : Option Error) (w w' : World) → accept r w ≡ (none, w') → w'.1.1 ≡ true
accept_IsAccepted none (n, (k, a)) w' e =
    let p : (n, (k, true)) ≡ w' = cc in sym (ap (λ (u : World). u.1.1) p)
accept_IsAccepted (some x) w w' e = cc

accepts : Accepts refusing sent
unfolding call_each_with
accepts = record {
  Accepted = λ w. w.1.1 ≡ true;
  Passes = λ w w'. w ≡ w';
  retries = retry-Retries 0;
  acknowledges = accept_IsAccepted;
  on_acknowledge = λ r w h. h;
}

-- The handler fails twice, and then the context is done.
process_message_settles_example :
    (w' : World) × (process_message refusing 7 sent (5, (2, false)) ≡ some w')
    × IsSettled accepts w'
unfolding progress
process_message_settles_example =
    process_message_settles progress accepts 7 (5, (2, false)) (omega arith)
