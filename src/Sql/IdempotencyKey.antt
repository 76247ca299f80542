-- ===== src/Sql/IdempotencyKey.antt =====
-- The storage of idempotency keys of pkg/sql/idempotencykey.go. A statement that the code builds is a value,
-- and the database, which runs it, is a parameter; `new_sha1` is `uuid.NewSHA1`.
use go_service_template.Common.{
  ℕ, zero, suc, String, string_eq, Option, none, some, Error, Sentinel, Result, ok, err,
  if◌then◌else◌, ◌==◌,
}
use go_service_template.Message.{Uuid, Time, Effect, wrap_error}
use go_service_template.Idk.{KeyStorage}

-- The columns of an insertion with `on conflict do nothing`.
pub record KeyRow : Type 0 where
  pub key : Uuid
  pub base : Uuid
  pub extra : Option String

-- The methods of the `Client` with these statements: what an insertion returns is `RowsAffected`.
pub record KeyClient (W : Type 0) : Type 0 where
  pub build_insert : KeyRow → Option Error
  pub build_delete : Time → Option Error
  pub exec_insert : KeyRow → W → Result (Result ℕ) × W
  pub exec_delete : Time → Effect W
  pub new_sha1 : Uuid → String → Uuid

abbrev pub extra_value : String → Option String
extra_value extra_key = if extra_key == "" then none else some extra_key

module _ {W : Type 0} where
  unfoldable pub after_rows_affected : Result ℕ → Effect W
  after_rows_affected (err e) w = (some (Error.wrap "get rows affected: %w" e), w)
  after_rows_affected (ok zero) w = (some (Error.sentinel Sentinel.idk_already_inserted), w)
  after_rows_affected (ok (suc n)) w = (none, w)

  unfoldable pub after_exec_insert : Result (Result ℕ) × W → Option Error × W
  unfolding after_rows_affected
  after_exec_insert (err e, w) = (some (Error.wrap "insert key: %w" e), w)
  after_exec_insert (ok affected, w) = after_rows_affected affected w

module _ {W : Type 0} (client : KeyClient W) where
  abbrev pub key_row : Uuid → String → KeyRow
  key_row key extra_key = record {
    key = client.new_sha1 key extra_key;
    base = key;
    extra = extra_value extra_key;
  }

  unfoldable pub insert_built : KeyRow → Option Error → Effect W
  unfolding after_exec_insert
  insert_built r (some e) w = (some (Error.wrap "build query: %w" e), w)
  insert_built r none w = after_exec_insert (client.exec_insert r w)

  -- `Insert`.
  unfoldable pub insert_row : Uuid → String → Effect W
  unfolding insert_built
  insert_row key extra_key w =
      let r = key_row key extra_key in insert_built r (client.build_insert r) w

  unfoldable pub delete_built : Time → Option Error → Effect W
  delete_built before (some e) w = (some (Error.wrap "build query: %w" e), w)
  delete_built before none w =
      wrap_error (Error.wrap "delete keys: %w") (client.exec_delete before w)

  -- `Delete`.
  unfoldable pub delete_rows : Time → Effect W
  unfolding delete_built
  delete_rows created_at_before w =
      delete_built created_at_before (client.build_delete created_at_before) w

  -- What `NewIdempotencyKeyStorage` returns.
  abbrev pub key_storage : KeyStorage W
  key_storage = record { insert = insert_row; delete = delete_rows }
