-- ===== src/Observability.antt =====
-- The observers of pkg/observability/observer.go and pkg/observability/stub.go: fields in a context, some of
-- which are logged.
pub mod Laws
use mathlib.Core.List.{foldl}
use go_service_template.Common.{
  String, string_eq, ◌==◌, Bool, true, false, Option, none, some, List, [], ◌∷◌, if◌then◌else◌,
}
use go_service_template.Common.Assoc.{lookup, insert, contains}
use go_service_template.Log.{Fields, Logger, with_context}

abbrev pub Field : Type 0
Field = String

-- What a context carries for observers, under a key of its own for each field, and for loggers.
pub record Context : Type 0 where
  pub values : List (Field × String)
  pub log_fields : Fields

-- An `Observer`.
pub record Observer : Type 0 where
  pub field : Context → Field → String
  pub with_field : Context → Field → String → Context

-- The fields of `observer`.
pub record ObserverConfig : Type 0 where
  pub logger : Logger
  pub logging_fields : List Field

-- The text of a value, or "" if there is none.
abbrev pub text_of : Option String → String
text_of none = ""
text_of (some value) = value

-- `ctx.Value(field).(string)`.
unfoldable pub field_of : Context → Field → String
field_of c field = text_of (lookup field c.values)

unfoldable pub put_field : ObserverConfig → Context → Field → String → Context
put_field o c field value = record {
  values = insert field value c.values;
  log_fields =
      if contains field o.logging_fields
      then with_context o.logger ((field, value) ∷ []) c.log_fields
      else c.log_fields;
}

-- `WithField`.
unfoldable pub set_field : ObserverConfig → Context → Field → String → Context
unfolding put_field
set_field o c field value = if value == "" then c else put_field o c field value

-- `WithFieldsLogging`.
unfoldable pub with_fields_logging : Logger → List Field → ObserverConfig → ObserverConfig
with_fields_logging l fields o = record { logger = l; logging_fields = fields }

abbrev pub configured : List (ObserverConfig → ObserverConfig) → ObserverConfig
configured opts = foldl (λ o opt. opt o) (record { logger = Logger.stub; logging_fields = [] }) opts

-- `New`; without an option the logger is nil, and never called.
unfoldable pub new_observer : List (ObserverConfig → ObserverConfig) → Observer
unfolding field_of set_field
new_observer opts = record { field = field_of; with_field = set_field (configured opts) }

-- `NewStub`.
unfoldable pub new_stub : Observer
new_stub = record { field = λ c field. ""; with_field = λ c field value. c }
