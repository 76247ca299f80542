-- ===== src/Strings/Types.antt =====
-- For which types `ParseTypedValue` returns, and that what it returns has the type asked for.
use go_service_template.Common.{◌≡◌, refl, String, Bool, true, false, ◌&&◌, Error, Result, ok, err}
use go_service_template.Strings.{
  Kind, Supported, Base, GoType, type_of, same_type, Parsers, Outcome, boxed, wrap_with_pointer,
  assert_type, parse_time_impl, parse_as, parse_typed_value,
}

-- The types whose branch makes a value of another type: `uint64` for `uint`, and `*any` for
-- `*time.Time`.
abbrev pub is_mistyped : Supported → Bool
is_mistyped (Supported.value_of Kind.uint) = true
is_mistyped (Supported.pointer_to Kind.uint) = true
is_mistyped (Supported.pointer_to Kind.time) = true
is_mistyped t = false

module _ {V : Type 0} where
  abbrev pub is_ok : Result (GoType × V) → Bool
  is_ok (ok v) = true
  is_ok (err e) = false

  abbrev pub panics : Outcome V → Bool
  panics (Outcome.returned r) = false
  panics Outcome.panicked = true

  -- A value that is returned has the type.
  pub data HasType (t : GoType) : Outcome V → Type 0 where
    typed : (v : V) → HasType t (Outcome.returned (ok (t, v)))
    failed : (e : Error) → HasType t (Outcome.returned (err e))
    no_value : HasType t Outcome.panicked

  -- The end of a branch that makes a value of the type, and of one that does not.
  abbrev Ends : GoType → Bool → Result (GoType × V) → Type 0
  Ends t mistyped r =
      (panics (assert_type t r) ≡ (mistyped && is_ok r)) × HasType t (assert_type t r)

  boxed-Ends :
      (k : Kind) (r : Result V) → Ends (GoType.plain (Base.known k)) false (boxed (Base.known k) r)
  unfolding assert_type boxed same_type
  boxed-Ends k (err e) = (refl, HasType.failed _)
  boxed-Ends Kind.bool (ok v) = (refl, HasType.typed v)
  boxed-Ends Kind.int (ok v) = (refl, HasType.typed v)
  boxed-Ends Kind.uint (ok v) = (refl, HasType.typed v)
  boxed-Ends Kind.float64 (ok v) = (refl, HasType.typed v)
  boxed-Ends Kind.string (ok v) = (refl, HasType.typed v)
  boxed-Ends Kind.time (ok v) = (refl, HasType.typed v)
  boxed-Ends Kind.duration (ok v) = (refl, HasType.typed v)
  boxed-Ends Kind.uuid (ok v) = (refl, HasType.typed v)

  wrap_with_pointer-Ends :
      (k : Kind) (r : Result V)
      → Ends (GoType.pointer (Base.known k)) false (wrap_with_pointer (Base.known k) r)
  unfolding assert_type wrap_with_pointer same_type
  wrap_with_pointer-Ends k (err e) = (refl, HasType.failed _)
  wrap_with_pointer-Ends Kind.bool (ok v) = (refl, HasType.typed v)
  wrap_with_pointer-Ends Kind.int (ok v) = (refl, HasType.typed v)
  wrap_with_pointer-Ends Kind.uint (ok v) = (refl, HasType.typed v)
  wrap_with_pointer-Ends Kind.float64 (ok v) = (refl, HasType.typed v)
  wrap_with_pointer-Ends Kind.string (ok v) = (refl, HasType.typed v)
  wrap_with_pointer-Ends Kind.time (ok v) = (refl, HasType.typed v)
  wrap_with_pointer-Ends Kind.duration (ok v) = (refl, HasType.typed v)
  wrap_with_pointer-Ends Kind.uuid (ok v) = (refl, HasType.typed v)

  uint-Ends : (r : Result V) → Ends (GoType.plain (Base.known Kind.uint)) true (boxed Base.uint64 r)
  unfolding assert_type boxed same_type
  uint-Ends (ok v) = (refl, HasType.no_value)
  uint-Ends (err e) = (refl, HasType.failed _)

  uint_pointer-Ends :
      (r : Result V)
      → Ends (GoType.pointer (Base.known Kind.uint)) true (wrap_with_pointer Base.uint64 r)
  unfolding assert_type wrap_with_pointer same_type
  uint_pointer-Ends (ok v) = (refl, HasType.no_value)
  uint_pointer-Ends (err e) = (refl, HasType.failed _)

  time_pointer-Ends :
      (r : Result V)
      → Ends (GoType.pointer (Base.known Kind.time)) true (wrap_with_pointer Base.any_type r)
  unfolding assert_type wrap_with_pointer same_type
  time_pointer-Ends (ok v) = (refl, HasType.no_value)
  time_pointer-Ends (err e) = (refl, HasType.failed _)

module _ {V : Type 0} (p : Parsers V) where
  -- For every supported type, `ParseTypedValue` panics exactly if the text is parsed and the branch of
  -- the type makes a value of another type, and a value that it returns has the type.
  pub parse_typed_value-HasType :
      (blank : Supported) (value : String)
      → (panics (parse_typed_value p blank value)
          ≡ (is_mistyped blank && is_ok (parse_as p blank value)))
        × HasType (type_of blank) (parse_typed_value p blank value)
  unfolding parse_typed_value parse_as boxed wrap_with_pointer
  parse_typed_value-HasType (Supported.value_of Kind.bool) value =
      boxed-Ends Kind.bool (p.parse_bool value)
  parse_typed_value-HasType (Supported.pointer_to Kind.bool) value =
      wrap_with_pointer-Ends Kind.bool (p.parse_bool value)
  parse_typed_value-HasType (Supported.value_of Kind.int) value = boxed-Ends Kind.int (p.atoi value)
  parse_typed_value-HasType (Supported.pointer_to Kind.int) value =
      wrap_with_pointer-Ends Kind.int (p.atoi value)
  parse_typed_value-HasType (Supported.value_of Kind.uint) value = uint-Ends (p.parse_uint value)
  parse_typed_value-HasType (Supported.pointer_to Kind.uint) value =
      uint_pointer-Ends (p.parse_uint value)
  parse_typed_value-HasType (Supported.value_of Kind.float64) value =
      boxed-Ends Kind.float64 (p.parse_float value)
  parse_typed_value-HasType (Supported.pointer_to Kind.float64) value =
      wrap_with_pointer-Ends Kind.float64 (p.parse_float value)
  parse_typed_value-HasType (Supported.value_of Kind.string) value =
      boxed-Ends Kind.string (ok (p.text value))
  parse_typed_value-HasType (Supported.pointer_to Kind.string) value =
      wrap_with_pointer-Ends Kind.string (ok (p.text value))
  parse_typed_value-HasType (Supported.value_of Kind.time) value =
      boxed-Ends Kind.time (parse_time_impl p value)
  parse_typed_value-HasType (Supported.pointer_to Kind.time) value =
      time_pointer-Ends (parse_time_impl p value)
  parse_typed_value-HasType (Supported.value_of Kind.duration) value =
      boxed-Ends Kind.duration (p.parse_duration value)
  parse_typed_value-HasType (Supported.pointer_to Kind.duration) value =
      wrap_with_pointer-Ends Kind.duration (p.parse_duration value)
  parse_typed_value-HasType (Supported.value_of Kind.uuid) value =
      boxed-Ends Kind.uuid (p.parse_uuid value)
  parse_typed_value-HasType (Supported.pointer_to Kind.uuid) value =
      wrap_with_pointer-Ends Kind.uuid (p.parse_uuid value)
