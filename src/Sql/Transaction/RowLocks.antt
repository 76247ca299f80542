-- ===== src/Sql/Transaction/RowLocks.antt =====
-- The row lock that a query takes is the one that was requested last.
use go_service_template.Common.{
  String, ◌≡◌, Bool, true, false, List, [], ◌∷◌, ◌++◌, append_assoc, arith,
}
use go_service_template.Sql.Transaction.{
  Context, has_transaction, lock_update, prepare_update_lock_query,
}

-- The suffixes of a row lock.
abbrev pub row_lock : Bool → Bool → List String
row_lock true true = "FOR UPDATE" ∷ "SKIP LOCKED" ∷ []
row_lock true false = "FOR UPDATE" ∷ []
row_lock false true = "FOR SHARE" ∷ "SKIP LOCKED" ∷ []
row_lock false false = "FOR SHARE" ∷ []

-- Within a transaction, a query prepared after `LockUpdate` ends in the lock asked for last,
-- whatever lock was asked for before.
pub lock_update-row_lock :
    (c : Context) (exclusively skip_locked : Bool) (q : List String)
    → has_transaction c ≡ true
    → prepare_update_lock_query (lock_update c exclusively skip_locked) q
      ≡ q ++ row_lock exclusively skip_locked
unfolding lock_update prepare_update_lock_query
lock_update-row_lock c true true q h =
    ground (arith, append_assoc q ("FOR UPDATE" ∷ []) ("SKIP LOCKED" ∷ []))
lock_update-row_lock c true false q h = ground arith
lock_update-row_lock c false true q h =
    ground (arith, append_assoc q ("FOR SHARE" ∷ []) ("SKIP LOCKED" ∷ []))
lock_update-row_lock c false false q h = ground arith
