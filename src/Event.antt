-- ===== src/Event.antt =====
-- The event dispatcher of pkg/event/event.go. An event is its type and its content; a handler acts
-- on a world of type `W`.
use go_service_template.Common.{
  ℕ, String, true, false, nat_eq, Option, none, some, List, [], ◌∷◌, if◌then◌else◌, ◌==◌, string_eq,
  Error, Result, ok, err,
}
use go_service_template.Common.Assoc.{lookup, insert}
use go_service_template.Message.{Uuid, Effect, and_then, wrap_error}

pub record Event : Type 0 where
  pub id : Uuid
  pub event_type : String
  pub aggregate_id : Uuid
  pub reflect_type : ℕ

abbrev pub Handler : Type 0 → Type 0
Handler W = Event → Effect W

-- What a `RegisterHandlerFunc` returns.
abbrev pub RegisterHandlerFunc : Type 0 → Type 0
RegisterHandlerFunc W = Result (String × Handler W)

abbrev pub Dispatcher : Type 0 → Type 0
Dispatcher W = List (String × Handler W)

-- The handler that `RegisterHandler` puts around a typed one: `reflect_type` is the Go type of its
-- events, and the blank event has the type `event_type`.
unfoldable pub typed_handler : {W : Type 0} → ℕ → Handler W → Handler W
typed_handler reflect_type handler event w = elim (event.reflect_type == reflect_type) [
  | true ↦ handler event w
  | false ↦ (some (Error.message "invalid event struct type %T, expected %T"), w)
]

unfoldable pub register_handler : {W : Type 0} → String → ℕ → Handler W → RegisterHandlerFunc W
unfolding typed_handler
register_handler event_type reflect_type handler =
    if event_type == ""
    then err (Error.message "get event type for %T: blank event must return const value")
    else ok (event_type, typed_handler reflect_type handler)

-- The loop of `NewDispatcher`, and the function, on all its handlers.
pub add_handlers :
    {W : Type 0} → List (RegisterHandlerFunc W) → Dispatcher W → Result (Dispatcher W)
add_handlers [] d = ok d
add_handlers (err e ∷ fs) d = err e
add_handlers (ok (t, handler) ∷ fs) d =
    let rest = add_handlers fs (insert t handler d) in
    elim (lookup t d) [
      | some _ ↦ err (Error.message "event handler for %s already exists")
      | none ↦ rest
    ]

unfoldable pub new_dispatcher :
    {W : Type 0} → RegisterHandlerFunc W → List (RegisterHandlerFunc W) → Result (Dispatcher W)
unfolding add_handlers
new_dispatcher f fs = add_handlers (f ∷ fs) []

pub dispatch_one : {W : Type 0} → Option (Handler W) → Event → Effect W
dispatch_one none event w = (some (Error.message "handler not registered for %s"), w)
dispatch_one (some handler) event w = wrap_error (Error.wrap "handle event: %w") (handler event w)

unfoldable pub dispatch : {W : Type 0} → Dispatcher W → List Event → Effect W
unfolding dispatch_one
dispatch d [] w = (none, w)
dispatch d (event ∷ events) w =
    and_then (dispatch_one (lookup event.event_type d) event w) (dispatch d events)
