-- ===== src/User.antt =====
-- The user domain of internal/user/domain (user.go, userevent.go), and what its services are given:
-- the repository, transactions (pkg/persistence/transaction.go) and the authentication in a context.
pub mod Http
pub mod Stored
pub mod Repository
pub mod Service
pub mod Session
pub mod Authentication
mod Examples
use go_service_template.Common.{
  ℕ, String, Bool, Option, none, some, List, [], ◌∷◌, ◌++◌, Error, Result, ok, err,
}
use go_service_template.Common.Text.{Text}
use go_service_template.Message.{Uuid, Time, Effect}

-- EventUserDeleted
pub record UserDeleted : Type 0 where
  pub event_id : Uuid
  pub user_id : Uuid

pub record User : Type 0 where
  pub id : Uuid
  pub login : Text
  pub password_hash : String
  pub deleted_at : Option Time
  pub changes : List UserDeleted

-- `SetDeletedAt`; `event_id` is what `uuid.New` returns.
unfoldable pub set_deleted_at : Time → Uuid → User → User
set_deleted_at t event_id u = record u {
  deleted_at = some t;
  changes = u.changes ++ record { event_id = event_id; user_id = u.id } ∷ [];
}

pub record FindUserSpecification : Type 0 where
  pub ids : List Uuid
  pub logins : List Text

-- A context of type `C` carries the transaction, its row locks and the authentication.
pub record UserRepository (C W : Type 0) : Type 0 where
  pub next_id : W → Uuid × W
  pub store : C → User → Effect W
  pub find : C → FindUserSpecification → W → Result (List User) × W
  pub find_one : C → FindUserSpecification → W → Result User × W

pub record Lock : Type 0 where
  pub key : String
  pub shared : Bool

-- A `Transaction`. The function that it runs may also write to the variables of its closure, which
-- are the state of type `S`.
pub record Transaction (C W : Type 0) : Type 1 where
  pub within_context : {S : Type 0} → (C → Effect (S × W)) → List Lock → C → Effect (S × W)
  pub lock_update : Bool → C → C

-- result, err = fn(ctx); return err
pub assign : {W A : Type 0} → A → Result A × W → Option Error × (A × W)
assign zero_value (ok a, w) = (none, (a, w))
assign zero_value (err e, w) = (some e, (zero_value, w))

-- return result, err
pub return_result : {W A : Type 0} → Option Error × (A × W) → Result A × W
return_result (none, (a, w)) = (ok a, w)
return_result (some e, (a, w)) = (err e, w)

-- `WithinTransactionWithResult`.
unfoldable pub within_transaction_with_result :
    {C W A : Type 0}
    → A
    → Transaction C W
    → (C → W → Result A × W)
    → List Lock
    → C
    → W
    → Result A × W
unfolding assign return_result
within_transaction_with_result zero_value tx fn locks c w =
    return_result
      (tx.within_context (λ d (a, v). assign zero_value (fn d v)) locks c (zero_value, w))
