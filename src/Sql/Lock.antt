-- ===== src/Sql/Lock.antt =====
-- The advisory locks of pkg/sql/lock.go. The hash of a name and the database are parameters; values of
-- contexts stand in the world.
pub mod Balanced
pub mod Steps
mod Examples
use go_service_template.Common.{
  ℕ, String, Bool, true, false, Option, none, some, Error, Result, ok, err,
}
use go_service_template.Message.{Effect, wrap_error}

-- `lock_id` is `getLockIDByName`. `single_connection` is `WithinSingleConnection`, with the function
-- that it returns. The others are the queries: `exec_lock` of `pg_advisory_lock`, `get_unlock` of
-- `pg_advisory_unlock`, and `exec_xact_lock` of the locks of a transaction, shared or not.
pub record Session (W : Type 0) : Type 0 where
  pub lock_id : String → Result ℕ
  pub single_connection : W → Result (W → W) × W
  pub exec_lock : ℕ → Effect W
  pub get_unlock : ℕ → W → Result Bool × W
  pub exec_xact_lock : Bool → ℕ → Effect W

module _ {W : Type 0} (s : Session W) where
  -- The function that `withSessionLevelLock` returns, with the deferred `cancelConn`.
  unfoldable pub after_unlock : (W → W) → Result Bool × W → Option Error × W
  after_unlock cancel (err e, w) = (some (Error.wrap "release lock for %s: %w" e), cancel w)
  after_unlock cancel (ok false, w) =
      (some (Error.message "release lock for %s: lock wasn't released"), cancel w)
  after_unlock cancel (ok true, w) = (none, cancel w)

  unfoldable pub release_lock : ℕ → (W → W) → Effect W
  unfolding after_unlock
  release_lock id cancel w = after_unlock cancel (s.get_unlock id w)

  unfoldable pub after_exec_lock : ℕ → (W → W) → Option Error × W → Result (Effect W) × W
  unfolding release_lock
  after_exec_lock id cancel (some e, w) = (err (Error.wrap "get lock for %s: %w" e), cancel w)
  after_exec_lock id cancel (none, w) = (ok (release_lock id cancel), w)

  unfoldable pub after_connection : ℕ → Result (W → W) × W → Result (Effect W) × W
  unfolding after_exec_lock
  after_connection id (err e, w) = (err (Error.wrap "get connection for %s: %w" e), w)
  after_connection id (ok cancel, w) = after_exec_lock id cancel (s.exec_lock id w)

  unfoldable pub after_lock_id : Result ℕ → W → Result (Effect W) × W
  unfolding after_connection
  after_lock_id (err e) w = (err e, w)
  after_lock_id (ok id) w = after_connection id (s.single_connection w)

  unfoldable pub with_session_level_lock : String → W → Result (Effect W) × W
  unfolding after_lock_id
  with_session_level_lock name w = after_lock_id (s.lock_id name) w

  pub exec_transaction_lock : Bool → Result ℕ → Effect W
  exec_transaction_lock shared (err e) w = (some e, w)
  exec_transaction_lock shared (ok id) w =
      wrap_error (Error.wrap "get lock for %s: %w") (s.exec_xact_lock shared id w)

  unfoldable pub with_transaction_level_lock : String → Bool → Effect W
  unfolding exec_transaction_lock
  with_transaction_level_lock name shared w = exec_transaction_lock shared (s.lock_id name) w
