-- ===== src/Message/Typed.antt =====
-- The typed messages of pkg/message/event.go and pkg/message/task.go: events and tasks are produced over a
-- bus, and handlers of one Go type are registered for it. The Go type `T` is the `reflect_type` of its
-- blank value.
use go_service_template.Common.{
  ℕ, String, Bool, true, false, none, some, List, [], ◌∷◌, map, ◌==◌, nat_eq, if◌then◌else◌, Error,
}
use go_service_template.Message.{Time, StructuredMessage, RegisteredMessage, Effect, wrap_error}
use go_service_template.Message.Serializer.{PayloadDeserializer, payload_deserializer_impl}
use go_service_template.Message.Listener.{Handler}
use go_service_template.Message.BusListener.{RegisteredHandlers}

module _ {W : Type 0} where
  -- `Dispatch` of an `eventDispatcher`, over `Produce` of its bus.
  unfoldable pub dispatch_events :
      (List StructuredMessage → Effect W) → List StructuredMessage → Effect W
  dispatch_events produce [] w = (none, w)
  dispatch_events produce (evt ∷ events) w =
      wrap_error (Error.wrap "dispatch event: %w") (produce (evt ∷ events) w)

  -- `Schedule` of a `taskScheduler`, over `Schedule` of its bus.
  unfoldable pub schedule_tasks :
      (Time → List StructuredMessage → Effect W) → Time → List StructuredMessage → Effect W
  schedule_tasks schedule at [] w = (none, w)
  schedule_tasks schedule at (tsk ∷ tasks) w =
      wrap_error (Error.wrap "publish task: %w") (schedule at (tsk ∷ tasks) w)

-- `evt, ok := msg.(T)`
abbrev pub is_type : ℕ → StructuredMessage → Bool
is_type reflect_type msg = msg.reflect_type == reflect_type

-- The key builder of `RegisterEvent`, over `AggregateID` of the event, as a string.
unfoldable pub event_key : (StructuredMessage → String) → ℕ → StructuredMessage → String
event_key aggregate_id reflect_type msg = if is_type reflect_type msg then aggregate_id msg else ""

-- `RegisterEvent`.
unfoldable pub register_event : (StructuredMessage → String) → StructuredMessage → RegisteredMessage
unfolding event_key
register_event aggregate_id blank = record {
  schema = blank;
  key_builder = some (event_key aggregate_id blank.reflect_type);
}

-- `RegisterTask`.
unfoldable pub register_task : StructuredMessage → RegisteredMessage
register_task blank = record { schema = blank; key_builder = none }

module _ {W : Type 0} where
  -- The handler that `RegisterEventHandlers` and `RegisterTaskHandlers` put around a typed one.
  unfoldable pub typed_message_handler : String → ℕ → Handler W → Handler W
  typed_message_handler text reflect_type handler metadata msg w = elim (is_type reflect_type msg) [
    | true ↦ handler metadata msg w
    | false ↦ (some (Error.message text), w)
  ]

  unfoldable pub register_typed_handlers :
      String → PayloadDeserializer → StructuredMessage → List (Handler W) → RegisteredHandlers W
  unfolding typed_message_handler
  register_typed_handlers text unmarshal blank handlers = record {
    schema = blank;
    deserializer = payload_deserializer_impl unmarshal;
    handlers = map (typed_message_handler text blank.reflect_type) handlers;
  }

  -- `RegisterEventHandlers`, where `unmarshal` is `json.Unmarshal` at the type of the events.
  unfoldable pub register_event_handlers :
      PayloadDeserializer → StructuredMessage → List (Handler W) → RegisteredHandlers W
  unfolding register_typed_handlers
  register_event_handlers =
      register_typed_handlers "invalid event struct type %T for messageID %v, expected %T"

  -- `RegisterTaskHandlers`.
  unfoldable pub register_task_handlers :
      PayloadDeserializer → StructuredMessage → List (Handler W) → RegisteredHandlers W
  unfolding register_typed_handlers
  register_task_handlers =
      register_typed_handlers "invalid task struct type %T for messageID %v, expected %T"
