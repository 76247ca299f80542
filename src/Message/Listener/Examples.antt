-- ===== src/Message/Listener/Examples.antt =====
-- A listener with one handler, which panics at its first call and succeeds at the second. The world
-- counts its calls, and tells whether the message is acknowledged as processed.
mod Refusing
use mathlib.Core.Path.{subst}
use go_service_template.Common.{
  ℕ, zero, suc, ◌≤◌, ◌<◌, ◌≡◌, ◌≢◌, refl, sym, ◌⊎◌, inl, inr, Bool, true, false, Option, none, some,
  List, [], ◌∷◌, map, get_elem?, Error, Sentinel, Result, ok, err, is, string_eq, if◌then◌else◌,
  arith,
}
use go_service_template.Common.Assoc.{lookup}
use go_service_template.Message.{Message, ConsumerMessage, StructuredMessage, Metadata, Effect}
use go_service_template.Message.Outbox.{call_each, call_each_with}
use go_service_template.Message.Listener.{
  Run, Attempt, Handler, HandlerMetadata, Listener, canceled_result, attempted, after_acknowledge,
  try_acknowledge, acknowledge_message, after_round, skip_and_ack_message, after_handlers,
  handle_message, handler_job, after_find_handlers, after_deserialize, process_message,
}
use go_service_template.Message.Listener.Handlers.{
  Ending, RawHandler, new_handlers, wrap_handlers, wrap_with_middlewares, wrap_with_panic_handler,
  recover_panic, with_handler_idempotency_key_error_ignoring, with_handler_error_mapping, map_error,
  ignore_already_inserted,
}
use go_service_template.Message.Listener.Doubles.{
  retried, retry, retry-Retries, first_error, after_job, in_order, in_order-Groups,
}
use go_service_template.Message.Listener.Settled.{Accepts, IsSettled}
use go_service_template.Message.Listener.Handled.{
  Trace, Quiet, Ledger, IsHonest, process_message-IsHonest,
}
use go_service_template.Message.Listener.Returns.{Progress, process_message_settles}

abbrev World : Type 0
World = ℕ × Bool

abbrev fragile : RawHandler World
fragile metadata m (zero, b) = (Ending.panicked "nil map", (1, b))
fragile metadata m (suc n, b) = (Ending.returned none, (suc (suc n), b))

abbrev wrapped : Handler World
wrapped =
    with_handler_idempotency_key_error_ignoring (wrap_with_panic_handler (λ text w. w) fragile)

abbrev received : ConsumerMessage
received = record {
  address = 1;
  message = record { id = 7; topic = "users"; key = ""; payload = [] };
}

abbrev content : StructuredMessage
content = record { id = 7; message_type = "deleted"; reflect_type = 1; content = [] }

abbrev acknowledge : ConsumerMessage → Option Error → Effect World
acknowledge msg none (n, b) = (none, (n, true))
acknowledge msg (some e) (n, b) = (none, (n, b))

abbrev listener : Listener World
listener = record {
  ctx_err = λ w. none;
  deserialize = λ payload. ok (content, []);
  handlers =
      new_handlers (λ text w. w) (with_handler_idempotency_key_error_ignoring ∷ [])
        (("deleted", fragile ∷ []) ∷ []);
  handler_retry = retry 1;
  group = in_order;
  acknowledge_result = acknowledge;
  queue_retry = retry 0;
  on_handler_not_found = [];
  on_before_handle_message = [];
  on_handler_result = [];
  on_acknowledge_result = [];
  on_deserialized_unknown_msg = [];
  on_deserialized_error = [];
}

found_handlers : lookup "deleted" listener.handlers ≡ some (wrapped ∷ [])
unfolding lookup new_handlers wrap_handlers wrap_with_middlewares
found_handlers = refl

abbrev trace : Trace listener received
trace = record { Succeeded = λ h w. 1 < w.0; Acknowledged = λ w. w.1 ≡ true }

only_handler : (i : ℕ) (h : Handler World) → get_elem? (wrapped ∷ []) i ≡ some h → wrapped ≡ h
only_handler zero h e = let p : wrapped ≡ h = cc in p
only_handler (suc i) h e = cc

wrapped-Quiet :
    (metadata : HandlerMetadata) (m : StructuredMessage) (w : World)
    → Quiet trace w (wrapped metadata m w).1
unfolding with_handler_idempotency_key_error_ignoring with_handler_error_mapping map_error
    ignore_already_inserted wrap_with_panic_handler recover_panic
wrapped-Quiet metadata m (zero, b) = record {
  succeeded = λ h p. omega arith;
  acknowledged = λ k. k;
}
wrapped-Quiet metadata m (suc n, b) = record {
  succeeded = λ h p. omega arith;
  acknowledged = λ k. k;
}

wrapped_succeeds :
    (metadata : HandlerMetadata) (m : StructuredMessage) (w w' : World)
    → wrapped metadata m w ≡ (none, w')
    → 1 < w'.0
unfolding with_handler_idempotency_key_error_ignoring with_handler_error_mapping map_error
    ignore_already_inserted wrap_with_panic_handler recover_panic
wrapped_succeeds metadata m (zero, b) w' e = cc
wrapped_succeeds metadata m (suc n, b) w' e =
    subst (λ v. 1 < v.0) (let p : (suc (suc n), b) ≡ w' = cc in p) (omega arith)

still : (w : World) → Quiet trace w w
still w = record { succeeded = λ h p. p; acknowledged = λ k. k }

acknowledge_nil : (h : Handler World) (w : World) → 1 < w.0 → 1 < (acknowledge received none w).1.0
acknowledge_nil h (n, b) p = p

acknowledge_error : (e : Error) (w : World) → Quiet trace w (acknowledge received (some e) w).1
acknowledge_error e (n, b) = still (n, b)

ledger : Ledger trace (wrapped ∷ [])
unfolding call_each call_each_with
ledger = record {
  Passes = λ w w'. w ≡ w';
  passes = λ w w' p. subst (Quiet trace w) p (still w);
  handler_retries = retry-Retries 1;
  queue_retries = retry-Retries 0;
  groups = in_order-Groups;
  handles = λ i h metadata m w e.
      subst (λ f. Quiet trace w (f metadata m w).1) (only_handler i h e)
        (wrapped-Quiet metadata m w);
  handler_succeeds = λ i h metadata m w w' e f.
      wrapped_succeeds metadata m w w'
        (subst (λ k. k metadata m w ≡ (none, w')) (sym (only_handler i h e)) f);
  acknowledges_error = acknowledge_error;
  acknowledges_nil = acknowledge_nil;
  on_before = still;
  on_handled = λ r w. still w;
  on_acknowledge = λ r e w. still w;
}

abbrev no_run : World
no_run = (0, false)

-- The handler is called twice, and then the message is acknowledged.
run_example : process_message listener 1 received no_run ≡ some (2, true)
unfolding process_message after_deserialize after_find_handlers lookup new_handlers wrap_handlers
    wrap_with_middlewares handle_message handler_job attempted in_order after_job first_error
    after_handlers acknowledge_message try_acknowledge after_acknowledge after_round retried
    call_each call_each_with with_handler_idempotency_key_error_ignoring with_handler_error_mapping
    map_error ignore_already_inserted wrap_with_panic_handler recover_panic
run_example = refl

process_message-IsHonest_example : trace.Succeeded wrapped (2, true)
process_message-IsHonest_example =
    process_message-IsHonest trace ledger 1 content [] no_run (2, true) refl found_handlers
      run_example (λ k. absurd cc) refl 0 wrapped refl
