-- ===== src/Sql.antt =====
-- The SQL package of pkg/sql.
pub mod Transaction
pub mod Migration
pub mod Client
pub mod IdempotencyKey
pub mod Lock
pub mod MessageStorage
