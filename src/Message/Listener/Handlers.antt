-- ===== src/Message/Listener/Handlers.antt =====
-- How `NewListener` of pkg/message/listener.go wraps the handlers, and the middlewares that change
-- the result of a handler.
use go_service_template.Common.{
  String, Option, none, some, List, [], ◌∷◌, map, Error, Sentinel, is, if◌then◌else◌,
}
use go_service_template.Message.{StructuredMessage}
use go_service_template.Message.Listener.{Handler, HandlerMetadata}

-- How the call of a handler that is not wrapped ends.
pub data Ending : Type 0 where
  returned : Option Error → Ending
  panicked : String → Ending

abbrev pub RawHandler : Type 0 → Type 0
RawHandler W = HandlerMetadata → StructuredMessage → W → Ending × W

abbrev pub Middleware : Type 0 → Type 0
Middleware W = Handler W → Handler W

unfoldable pub ignore_already_inserted : Option Error → Option Error
ignore_already_inserted none = none
ignore_already_inserted (some e) = if is e Sentinel.idk_already_inserted then none else some e

module _ {W : Type 0} where
  -- The deferred function; `record_panic` writes `meta.Panic`.
  unfoldable pub recover_panic : (String → W → W) → Ending × W → Option Error × W
  recover_panic record_panic (returned r, w) = (r, w)
  recover_panic record_panic (panicked text, w) =
      (some (Error.message "message handled with panic: %v"), record_panic text w)

  unfoldable pub wrap_with_panic_handler : (String → W → W) → RawHandler W → Handler W
  unfolding recover_panic
  wrap_with_panic_handler record_panic handler metadata msg w =
      recover_panic record_panic (handler metadata msg w)

  -- The loop over the middlewares, from the last to the first.
  unfoldable pub wrap_with_middlewares : List (Middleware W) → Handler W → Handler W
  wrap_with_middlewares [] handler = handler
  wrap_with_middlewares (middleware ∷ rest) handler =
      middleware (wrap_with_middlewares rest handler)

  unfoldable pub wrap_handlers :
      (String → W → W)
      → List (Middleware W)
      → String × List (RawHandler W)
      → String × List (Handler W)
  unfolding wrap_with_panic_handler wrap_with_middlewares
  wrap_handlers record_panic middlewares (message_type, handlers) = (
    message_type,
    map
        (λ handler.
          wrap_with_middlewares middlewares (wrap_with_panic_handler record_panic handler))
        handlers,
  )

  -- The handlers of the listener that `NewListener` returns.
  unfoldable pub new_handlers :
      (String → W → W)
      → List (Middleware W)
      → List (String × List (RawHandler W))
      → List (String × List (Handler W))
  unfolding wrap_handlers
  new_handlers record_panic middlewares handlers =
      map (wrap_handlers record_panic middlewares) handlers

  unfoldable pub map_error : (Option Error → Option Error) → Option Error × W → Option Error × W
  map_error f (r, w) = (f r, w)

  unfoldable pub with_handler_error_mapping : (Option Error → Option Error) → Middleware W
  unfolding map_error
  with_handler_error_mapping f handler metadata msg w = map_error f (handler metadata msg w)

  unfoldable pub with_handler_idempotency_key_error_ignoring : Middleware W
  unfolding ignore_already_inserted with_handler_error_mapping
  with_handler_idempotency_key_error_ignoring = with_handler_error_mapping ignore_already_inserted
