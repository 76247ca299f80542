-- ===== src/Log.antt =====
-- The loggers of pkg/log/logger.go and pkg/log/stub.go. A `slog.Logger` of the standard library is its
-- minimal level and the fields that its entries start with; an entry is written to a list. The values of
-- fields are texts. Levels other than the constants of the package are not modelled.
use go_service_template.Common.{
  ℕ, String, Option, none, some, List, [], ◌∷◌, ◌++◌, if◌then◌else◌, leb, Error,
}

pub data Level : Type 0 where
  disabled debug info warn error : Level

-- The order of `slogLevelMap`.
unfoldable pub rank : Level → ℕ
rank disabled = 0
rank debug = 1
rank info = 2
rank warn = 3
rank error = 4

-- A `Fields` map, as the list of its entries in the order of `range`.
abbrev pub Fields : Type 0
Fields = List (String × String)

pub record Entry : Type 0 where
  pub level : Level
  pub text : String
  pub fields : Fields

-- The types that implement `Logger`.
pub data Logger : Type 0 where
  stub : Logger
  logger : Level → Fields → Logger

-- `New`.
unfoldable pub new_logger : Level → Logger
new_logger disabled = stub
new_logger debug = logger debug []
new_logger info = logger info []
new_logger warn = logger warn []
new_logger error = logger error []

-- `With`.
unfoldable pub with_fields : Fields → Logger → Logger
with_fields fields stub = stub
with_fields [] (logger minimal own) = logger minimal own
with_fields (field ∷ fields) (logger minimal own) = logger minimal (own ++ field ∷ fields)

-- `WithField`.
unfoldable pub with_field : String → String → Logger → Logger
with_field name value stub = stub
with_field name value (logger minimal own) = logger minimal (own ++ (name, value) ∷ [])

-- `WithError`, where `error_text` is the method `Error` of an error.
unfoldable pub with_error : (Error → String) → Option Error → Logger → Logger
with_error error_text e stub = stub
with_error error_text none (logger minimal own) = logger minimal own
with_error error_text (some e) (logger minimal own) =
    logger minimal (own ++ ("error", error_text e) ∷ [])

-- `WithContext`, on the fields that the context carries for a logger.
unfoldable pub with_context : Logger → Fields → Fields → Fields
with_context stub fields context_fields = context_fields
with_context (logger minimal own) [] context_fields = context_fields
with_context (logger minimal own) (field ∷ fields) context_fields = context_fields ++ field ∷ fields

-- A logger of `slog`: it drops what is below its minimal level.
unfoldable pub write_entry : Level → Entry → List Entry → List Entry
write_entry minimal entry entries =
    if leb (rank minimal) (rank entry.level) then entries ++ entry ∷ [] else entries

-- `Log`; `Debug`, `Info`, `Warn` and `Error` are this at their level.
unfoldable pub log : Logger → Fields → Level → String → List Entry → List Entry
unfolding write_entry rank
log stub context_fields level text entries = entries
log (logger minimal own) context_fields disabled text entries = entries
log (logger minimal own) context_fields level text entries =
    write_entry minimal (record { level = level; text = text; fields = own ++ context_fields })
      entries
