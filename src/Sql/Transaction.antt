-- ===== src/Sql/Transaction.antt =====
-- Transactions of pkg/sql/transaction.go: `WithinContext`, `LockUpdate`, the suffix of a query that
-- locks rows, and which connection a client uses. The database is a parameter that acts on a world
-- of type `W`.
pub mod Atomic
pub mod RowLocks
mod Examples
use Prim.Native.Nat.{Ordering}
use Prim.Native.String.{compare}
use go_service_template.Common.{
  ℕ, String, Bool, true, false, ◌&&◌, ◌||◌, not, Option, none, some, List, [], ◌∷◌, ◌++◌,
  if◌then◌else◌, ◌==◌, string_eq, Error, Result, ok, err,
}
use go_service_template.Message.{Effect, and_then}
use go_service_template.User.{Lock}

pub record UpdateLock : Type 0 where
  pub for_update : Bool
  pub skip_locked : Bool

-- The values of a context under the three keys of pkg/sql/context.go: a connection, a transaction
-- with the name of its database, and the requested row lock. Transactions and connections are
-- numbers.
pub record Context : Type 0 where
  pub connection : Option ℕ
  pub tx : Option (String × ℕ)
  pub update_lock : Option UpdateLock

-- What `WithinContext` is given: `BeginTxx` on a connection and `Begin` of the client, the calls of a
-- transaction, and `withTransactionLevelLock` of lock.go.
pub record SqlTransaction (W : Type 0) : Type 0 where
  pub instance_id : String
  pub begin_on_connection : ℕ → W → Result ℕ × W
  pub begin : Context → W → Result ℕ × W
  pub commit : ℕ → Effect W
  pub rollback : ℕ → Effect W
  pub transaction_level_lock : ℕ → Lock → Effect W
  pub on_commit : Option (W → W)

-- The comparison of `slices.SortFunc(locks, …)`, and a sort by it.
abbrev pub key_leb : Lock → Lock → Bool
key_leb a b = elim (compare a.key b.key) [ Ordering.gt ↦ false | _ ↦ true ]

pub insert_lock : Lock → List Lock → List Lock
insert_lock l [] = l ∷ []
insert_lock l (k ∷ ks) = if key_leb l k then l ∷ k ∷ ks else k ∷ insert_lock l ks

pub sort_locks : List Lock → List Lock
unfolding insert_lock
sort_locks [] = []
sort_locks (l ∷ ls) = insert_lock l (sort_locks ls)

-- The transaction of a context, if it is one of this database.
pub parent_tx : String → Option (String × ℕ) → Option ℕ
parent_tx id none = none
parent_tx id (some (instance_id, tx)) = if instance_id == id then some tx else none

module _ {W : Type 0} (t : SqlTransaction W) where
  open t use {instance_id, begin_on_connection, commit, rollback, transaction_level_lock, on_commit}

  -- The loop over the locks.
  pub take_locks : ℕ → List Lock → Effect W
  take_locks tx [] w = (none, w)
  take_locks tx (l ∷ ls) w = and_then (transaction_level_lock tx l w) (take_locks tx ls)

  pub begin_with : Option ℕ → Context → W → Result ℕ × W
  begin_with (some connection) c w = begin_on_connection connection w
  begin_with none c w = t.begin c w

  pub begin_tx : Context → W → Result ℕ × W
  unfolding begin_with
  begin_tx c w = begin_with c.connection c w

  pub after_commit : Option Error × W → ℕ → Option Error × W
  after_commit (none, w) tx = elim on_commit [ none ↦ (none, w) | some f ↦ (none, f w) ]
  after_commit (some e, w) tx = (some (Error.wrap "commit transaction: %w" e), (rollback tx w).1)

  module _ {S : Type 0} where
    abbrev pub with_state : S → Option Error × W → Option Error × (S × W)
    with_state a (e, w) = (e, (a, w))

    -- The locks, and then `fn`.
    pub after_locks :
        Option Error × W → (Context → Effect (S × W)) → Context → S → Option Error × (S × W)
    after_locks (some e, w) fn c a = (some e, (a, w))
    after_locks (none, w) fn c a = fn c (a, w)

    pub run_locked : (Context → Effect (S × W)) → List Lock → ℕ → Context → Effect (S × W)
    unfolding take_locks sort_locks after_locks
    run_locked fn locks tx c (a, w) = after_locks (take_locks tx (sort_locks locks) w) fn c a

    -- The end of a transaction that was begun here: a commit, or the deferred rollback.
    pub finish : ℕ → Option Error × (S × W) → Option Error × (S × W)
    unfolding after_commit
    finish tx (some e, (a, w)) = (some e, (a, (rollback tx w).1))
    finish tx (none, (a, w)) = with_state a (after_commit (commit tx w) tx)

    pub after_begin :
        Result ℕ × W → (Context → Effect (S × W)) → List Lock → Context → S → Option Error × (S × W)
    unfolding run_locked finish
    after_begin (err e, w) fn locks c a = (some (Error.wrap "start db transaction: %w" e), (a, w))
    after_begin (ok tx, w) fn locks c a =
        finish tx (run_locked fn locks tx (record c { tx = some (instance_id, tx) }) (a, w))

    pub run_in : Option ℕ → (Context → Effect (S × W)) → List Lock → Context → Effect (S × W)
    unfolding after_begin begin_tx
    run_in (some tx) fn locks c (a, w) = run_locked fn locks tx c (a, w)
    run_in none fn locks c (a, w) = after_begin (begin_tx c w) fn locks c a

    unfoldable pub within_context :
        (Context → Effect (S × W)) → List Lock → Context → Effect (S × W)
    unfolding run_in parent_tx
    within_context fn locks c s = run_in (parent_tx instance_id c.tx) fn locks c s

-- `HasTransaction` and `IsUpdateLockRequested`.
abbrev pub has_transaction : Context → Bool
has_transaction c = elim c.tx [ none ↦ false | some _ ↦ true ]

abbrev pub is_update_lock_requested : Context → Bool × Bool × Bool
is_update_lock_requested c = elim c.update_lock [
  | none ↦ (false, false, false)
  | some l ↦ (true, l.for_update, l.skip_locked)
]

abbrev pub bool_beq : Bool → Bool → Bool
bool_beq true b = b
bool_beq false b = not b

-- `LockUpdate`; `skip_locked` tells whether its options hold `SkipAlreadyLockedData`.
unfoldable pub lock_update : Context → Bool → Bool → Context
lock_update c exclusively skip_locked =
    let (requested, had_exclusively, had_skip_locked) = is_update_lock_requested c in
    if not (has_transaction c)
    then c
    else if requested
        && bool_beq had_exclusively exclusively
        && bool_beq had_skip_locked skip_locked
    then c
    else record c {
      update_lock = some (record { for_update = exclusively; skip_locked = skip_locked });
    }

-- `PrepareUpdateLockQuery`, on the suffixes of a query.
unfoldable pub prepare_update_lock_query : Context → List String → List String
prepare_update_lock_query c suffixes =
    let (requested, for_update, skip_locked) = is_update_lock_requested c in
    if not requested
    then suffixes
    else (let locking = suffixes ++ (if for_update then "FOR UPDATE" else "FOR SHARE") ∷ [] in
        if skip_locked then locking ++ "SKIP LOCKED" ∷ [] else locking)
