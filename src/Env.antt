-- ===== src/Env.antt =====
-- The reading of environment variables of pkg/env/env.go. `lookup_env` is `os.LookupEnv`, `split` is
-- `strings.Split`, and `parse` is `ParseTypedValue` at the type of the value.
mod Tests
use go_service_template.Common.{
  ℕ, String, Bool, true, false, Option, none, some, List, [], ◌∷◌, map, Error, Result, ok, err,
  if◌then◌else◌,
}
use go_service_template.Common.Text.{Text, is_empty, trim_space}

unfoldable pub not_found_error : Error
not_found_error = Error.message "env %s with type %T not found"

unfoldable pub invalid_value_error : Error → Error
invalid_value_error e = Error.wrap "env %s with type %T is invalid: %w" e

module _ {A : Type 0} where
  unfoldable pub valid : Result A → Result A
  unfolding invalid_value_error
  valid (ok v) = ok v
  valid (err e) = err (invalid_value_error e)

  unfoldable pub some_valid : Result A → Result (Option A)
  unfolding invalid_value_error
  some_valid (ok v) = ok (some v)
  some_valid (err e) = err (invalid_value_error e)

  unfoldable pub add_parsed : Result A → Result (List A) → Result (List A)
  unfolding invalid_value_error
  add_parsed (err e) rest = err (invalid_value_error e)
  add_parsed (ok v) (err e) = err e
  add_parsed (ok v) (ok vs) = ok (v ∷ vs)

  -- `Must`, where none is a panic.
  unfoldable pub must : Result A → Option A
  must (ok v) = some v
  must (err e) = none

module _ {A : Type 0} (parse : Text → Result A) (lookup_env : String → Option Text) where
  -- `Parse`.
  unfoldable pub parse_env : String → Result A
  unfolding valid not_found_error
  parse_env key = elim (lookup_env key) [
    | none ↦ err not_found_error
    | some value ↦ valid (parse value)
  ]

  -- `ParseOptional`, whose result is nil if the variable is not set.
  unfoldable pub parse_optional : String → Result (Option A)
  unfolding some_valid
  parse_optional key = elim (lookup_env key) [
    | none ↦ ok none
    | some value ↦ some_valid (parse value)
  ]

  -- The loop of `parseListImpl`.
  unfoldable pub parse_trimmed : List Text → Result (List A)
  unfolding add_parsed trim_space
  parse_trimmed [] = ok []
  parse_trimmed (value ∷ values) =
      let rest = parse_trimmed values in
      if is_empty (trim_space value) then rest else add_parsed (parse (trim_space value)) rest

  unfoldable pub not_empty : Result (List A) → Result (List A)
  not_empty (err e) = err e
  not_empty (ok []) = err (Error.message "env %s with type %T is empty")
  not_empty (ok (v ∷ vs)) = ok (v ∷ vs)

  module _ (split : Text → Text → List Text) where
    unfoldable pub parse_list_impl : Text → Text → Result (List A)
    unfolding parse_trimmed
    parse_list_impl value delimiter = parse_trimmed (split value delimiter)

    -- `ParseList`.
    unfoldable pub parse_list : String → Text → Result (List A)
    unfolding parse_list_impl not_empty not_found_error
    parse_list key delimiter = elim (lookup_env key) [
      | none ↦ err not_found_error
      | some value ↦ not_empty (parse_list_impl value delimiter)
    ]

    -- `ParseListOptional`.
    unfoldable pub parse_list_optional : String → Text → Result (List A)
    unfolding parse_list_impl
    parse_list_optional key delimiter = elim (lookup_env key) [
      | none ↦ ok []
      | some value ↦ parse_list_impl value delimiter
    ]
