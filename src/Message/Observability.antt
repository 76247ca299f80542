-- ===== src/Message/Observability.antt =====
-- The fields of contexts in the metadata of messages: `WithBusProducerObservability` of
-- pkg/message/busproducer.go and `WithHandlerObservability` of pkg/message/listener.go. The world is a
-- context and the rest, of type `V`.
pub mod Collected
pub mod Carried
mod Examples
use Prim.Native.String.{◌++◌ as str_append}
use go_service_template.Common.{
  String, string_eq, ◌==◌, Option, none, some, List, [], ◌∷◌, ◌++◌, if◌then◌else◌, Error, Result,
  ok,
}
use go_service_template.Common.Assoc.{lookup, insert}
use go_service_template.Message.{StructuredMessage, Metadata}
use go_service_template.Message.BusProducer.{BusProducerConfig}
use go_service_template.Message.Listener.{Handler, HandlerMetadata}
use go_service_template.Message.Listener.Handlers.{Middleware}
use go_service_template.Observability.{Field, Context, Observer}

-- fmt.Sprintf("%s%s", observabilityMetaKeyPrefix, field)
abbrev pub meta_key : Field → String
meta_key field = str_append "observability/" field

-- The loop over the fields, which makes `values`.
unfoldable pub collect_values :
    Observer → Context → List Field → List (Field × String) → List (Field × String)
collect_values o c [] values = values
collect_values o c (field ∷ fields) values =
    collect_values o c fields
      (if o.field c field == "" then values else insert field (o.field c field) values)

-- The loop over `values`, which makes `data`.
unfoldable pub metadata_of : List (Field × String) → Metadata → Metadata
metadata_of [] target = target
metadata_of ((key, value) ∷ values) target = metadata_of values (insert (meta_key key) value target)

-- One field of the middleware, with what the metadata holds for it.
unfoldable pub restore_field : Observer → Option String → Field → Context → Context
restore_field o none field c = c
restore_field o (some value) field c = if value == "" then c else o.with_field c field value

-- The loop of the middleware.
unfoldable pub restore_fields : Observer → Metadata → List Field → Context → Context
unfolding restore_field
restore_fields o metadata [] c = c
restore_fields o metadata (field ∷ fields) c =
    restore_fields o metadata fields (restore_field o (lookup (meta_key field) metadata) field c)

module _ {V : Type 0} where
  -- `metadataBuilder`; a nil map has no entries either.
  unfoldable pub build_fields :
      Observer → List Field → Context × V → Result Metadata × (Context × V)
  unfolding collect_values metadata_of
  build_fields o fields (c, v) = (ok (metadata_of (collect_values o c fields []) []), (c, v))

  -- `WithBusProducerObservability`.
  unfoldable pub with_bus_producer_observability :
      Observer → List Field → BusProducerConfig (Context × V) → BusProducerConfig (Context × V)
  unfolding build_fields
  with_bus_producer_observability o [] config = config
  with_bus_producer_observability o (field ∷ fields) config = record config {
    metadata_builders = config.metadata_builders ++ build_fields o (field ∷ fields) ∷ [];
  }

  abbrev pub leave : Context → Option Error × (Context × V) → Option Error × (Context × V)
  leave c (e, (d, v)) = (e, (c, v))

  -- The middleware; the context that it makes is the handler's only.
  unfoldable pub observe : Observer → List Field → Middleware (Context × V)
  unfolding restore_fields
  observe o fields handler metadata msg (c, v) =
      leave c (handler metadata msg (restore_fields o metadata.message_metadata fields c, v))

  -- `WithHandlerObservability`, on the middlewares of the listener.
  unfoldable pub with_handler_observability :
      Observer → List Field → List (Middleware (Context × V)) → List (Middleware (Context × V))
  unfolding observe
  with_handler_observability o [] middlewares = middlewares
  with_handler_observability o (field ∷ fields) middlewares =
      middlewares ++ observe o (field ∷ fields) ∷ []
