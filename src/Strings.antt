-- ===== src/Strings.antt =====
-- `ParseTypedValue` of pkg/strings/utils.go. The parsers of the standard library and of the uuid library
-- are parameters. A Go value in an `any` is its dynamic type with the value.
pub mod Types
mod Examples
use go_service_template.Common.{
  ℕ, ℤ, String, Bool, true, false, Error, Result, ok, err, nat_beq, if◌then◌else◌,
}

-- The types of `SupportedValueParsingTypes`.
pub data Kind : Type 0 where
  bool int uint float64 string time duration uuid : Kind

-- A type argument of the function: one of those, or a pointer to one.
pub data Supported : Type 0 where
  value_of pointer_to : Kind → Supported

-- The types that values have in the function; `any_type` is the interface type `any`.
pub data Base : Type 0 where
  known : Kind → Base
  uint64 any_type : Base

pub data GoType : Type 0 where
  plain pointer : Base → GoType

abbrev pub type_of : Supported → GoType
type_of (value_of k) = plain (known k)
type_of (pointer_to k) = pointer (known k)

abbrev number : Base → ℕ
number (known bool) = 0
number (known int) = 1
number (known uint) = 2
number (known float64) = 3
number (known string) = 4
number (known time) = 5
number (known duration) = 6
number (known uuid) = 7
number uint64 = 8
number any_type = 9

-- Whether a value of the second type passes a type assertion to the first.
unfoldable pub same_type : GoType → GoType → Bool
same_type (plain a) (plain b) = nat_beq (number a) (number b)
same_type (pointer a) (pointer b) = nat_beq (number a) (number b)
same_type (plain a) (pointer b) = false
same_type (pointer a) (plain b) = false

-- `strconv`, `time` and `uuid`, on values of type `V`: `parse_int` is `ParseInt(value, 10, 32)`, and
-- `unix` is `time.Unix(seconds, 0)`.
pub record Parsers (V : Type 0) : Type 0 where
  pub parse_bool : String → Result V
  pub atoi : String → Result V
  pub parse_uint : String → Result V
  pub parse_float : String → Result V
  pub parse_duration : String → Result V
  pub parse_uuid : String → Result V
  pub parse_rfc3339 : String → Result V
  pub parse_rfc3339_nano : String → Result V
  pub parse_int : String → Result ℤ
  pub unix : ℕ → V
  pub text : String → V

-- How a call ends that may panic.
pub data Outcome (V : Type 0) : Type 0 where
  returned : Result (GoType × V) → Outcome V
  panicked : Outcome V

module _ {V : Type 0} where
  -- A result of the static type `t`, in an `any`.
  pub boxed : Base → Result V → Result (GoType × V)
  boxed t (ok v) = ok (GoType.plain t, v)
  boxed t (err e) = err e

  -- `wrapWithPointer[T]`, where `T` is the static type `t` of its argument.
  pub wrap_with_pointer : Base → Result V → Result (GoType × V)
  wrap_with_pointer t (ok v) = ok (GoType.pointer t, v)
  wrap_with_pointer t (err e) = err e

  -- The end of `ParseTypedValue`, with its type assertion `v.(T)`.
  pub assert_type : GoType → Result (GoType × V) → Outcome V
  unfolding same_type
  assert_type blank (err e) = Outcome.returned (err (Error.wrap "convert to type %T: %w" e))
  assert_type blank (ok (t, v)) =
      if same_type blank t then Outcome.returned (ok (t, v)) else Outcome.panicked

module _ {V : Type 0} (p : Parsers V) where
  pub after_parse_int : Result ℤ → Result V
  after_parse_int (err e) =
      err (Error.message "possible formats RFC3339 or RFC3339Nano or UnixTime")
  after_parse_int (ok (ℤ.negsuc n)) =
      err (Error.message "possible formats RFC3339 or RFC3339Nano or UnixTime")
  after_parse_int (ok (ℤ.pos n)) = ok (p.unix n)

  pub after_rfc3339_nano : String → Result V → Result V
  unfolding after_parse_int
  after_rfc3339_nano value (ok v) = ok v
  after_rfc3339_nano value (err e) = after_parse_int (p.parse_int value)

  pub after_rfc3339 : String → Result V → Result V
  unfolding after_rfc3339_nano
  after_rfc3339 value (ok v) = ok v
  after_rfc3339 value (err e) = after_rfc3339_nano value (p.parse_rfc3339_nano value)

  -- `parseTimeImpl`: the value of the `any` that it returns, which is a `time.Time`.
  unfoldable pub parse_time_impl : String → Result V
  unfolding after_rfc3339
  parse_time_impl value = after_rfc3339 value (p.parse_rfc3339 value)

  -- The `switch` on the type of `blank`; its default is for no supported type.
  unfoldable pub parse_as : Supported → String → Result (GoType × V)
  unfolding boxed wrap_with_pointer parse_time_impl
  parse_as (Supported.value_of Kind.bool) value = boxed (Base.known Kind.bool) (p.parse_bool value)
  parse_as (Supported.pointer_to Kind.bool) value =
      wrap_with_pointer (Base.known Kind.bool) (p.parse_bool value)
  parse_as (Supported.value_of Kind.int) value = boxed (Base.known Kind.int) (p.atoi value)
  parse_as (Supported.pointer_to Kind.int) value =
      wrap_with_pointer (Base.known Kind.int) (p.atoi value)
  parse_as (Supported.value_of Kind.uint) value = boxed Base.uint64 (p.parse_uint value)
  parse_as (Supported.pointer_to Kind.uint) value =
      wrap_with_pointer Base.uint64 (p.parse_uint value)
  parse_as (Supported.value_of Kind.float64) value =
      boxed (Base.known Kind.float64) (p.parse_float value)
  parse_as (Supported.pointer_to Kind.float64) value =
      wrap_with_pointer (Base.known Kind.float64) (p.parse_float value)
  parse_as (Supported.value_of Kind.string) value =
      ok (GoType.plain (Base.known Kind.string), p.text value)
  parse_as (Supported.pointer_to Kind.string) value =
      ok (GoType.pointer (Base.known Kind.string), p.text value)
  parse_as (Supported.value_of Kind.time) value =
      boxed (Base.known Kind.time) (parse_time_impl value)
  parse_as (Supported.pointer_to Kind.time) value =
      wrap_with_pointer Base.any_type (parse_time_impl value)
  parse_as (Supported.value_of Kind.duration) value =
      boxed (Base.known Kind.duration) (p.parse_duration value)
  parse_as (Supported.pointer_to Kind.duration) value =
      wrap_with_pointer (Base.known Kind.duration) (p.parse_duration value)
  parse_as (Supported.value_of Kind.uuid) value = boxed (Base.known Kind.uuid) (p.parse_uuid value)
  parse_as (Supported.pointer_to Kind.uuid) value =
      wrap_with_pointer (Base.known Kind.uuid) (p.parse_uuid value)

  unfoldable pub parse_typed_value : Supported → String → Outcome V
  unfolding parse_as assert_type
  parse_typed_value blank value = assert_type (type_of blank) (parse_as blank value)
