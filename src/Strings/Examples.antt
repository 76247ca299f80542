-- ===== src/Strings/Examples.antt =====
-- A `uint` that is parsed, which the type assertion then refuses.
use go_service_template.Common.{ℕ, ℤ, ◌≡◌, ◌&&◌, Error, ok, err}
use go_service_template.Strings.{Kind, Supported, type_of, Parsers, parse_as, parse_typed_value}
use go_service_template.Strings.Types.{
  panics, HasType, is_ok, is_mistyped, parse_typed_value-HasType,
}

abbrev parsers : Parsers ℕ
parsers = record {
  parse_bool = λ s. err (Error.external 1);
  atoi = λ s. ok 7;
  parse_uint = λ s. ok 7;
  parse_float = λ s. ok 7;
  parse_duration = λ s. err (Error.external 1);
  parse_uuid = λ s. err (Error.external 1);
  parse_rfc3339 = λ s. err (Error.external 1);
  parse_rfc3339_nano = λ s. err (Error.external 1);
  parse_int = λ s. ok (ℤ.pos 7);
  unix = λ n. n;
  text = λ s. 0;
}

parse_typed_value-HasType_example :
    (panics (parse_typed_value parsers (Supported.value_of Kind.uint) "7") ≡ (
      is_mistyped (Supported.value_of Kind.uint)
      && is_ok (parse_as parsers (Supported.value_of Kind.uint) "7")))
    × HasType
        (type_of (Supported.value_of Kind.uint))
        (parse_typed_value parsers (Supported.value_of Kind.uint) "7")
parse_typed_value-HasType_example =
    parse_typed_value-HasType parsers (Supported.value_of Kind.uint) "7"
