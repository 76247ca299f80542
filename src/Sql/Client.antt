-- ===== src/Sql/Client.antt =====
-- The client of pkg/sql/transaction.go: which connection a query, a transaction or a caller gets.
use go_service_template.Common.{ℕ, String, true, false, Option, none, some, Result, ok, err}
use go_service_template.Sql.Transaction.{Context, has_transaction}

-- Where a call goes: a transaction, a connection, or the pool of connections.
pub data Target : Type 0 where
  transaction connection : ℕ → Target
  pool : Target

-- `ExecContext`, `GetContext` and `SelectContext` choose in one way.
pub choose : Option (String × ℕ) → Option ℕ → Target
choose (some (instance_id, tx)) k = transaction tx
choose none (some k) = connection k
choose none none = pool

unfoldable pub target : Context → Target
unfolding choose
target c = choose c.tx c.connection

-- `Begin` begins on the connection of the context, or on one of the pool.
unfoldable pub begin_target : Context → Target
unfolding choose
begin_target c = choose none c.connection

-- `WithinSingleConnection`, where `connx` takes a connection from the pool: the context, and the
-- connection that its function closes, if it is a new one.
pub with_connection : {W : Type 0} → Context → Result ℕ × W → Result (Context × Option ℕ) × W
with_connection c (ok k, w) = (ok (record c { connection = some k }, some k), w)
with_connection c (err e, w) = (err e, w)

unfoldable pub within_single_connection :
    {W : Type 0} → (W → Result ℕ × W) → Context → W → Result (Context × Option ℕ) × W
unfolding with_connection
within_single_connection connx c w = elim c.connection [
  | some k ↦ (ok (c, none), w)
  | none ↦ elim (has_transaction c) [
    | true ↦ (ok (c, none), w)
    | false ↦ with_connection c (connx w)
  ]
]
