-- ===== src/User/Stored.antt =====
-- What the user service relies on: the rows of the table of users, as the repository of
-- internal/user/infra/sql/userrepository.go and the database keep them, and transactions.
use go_service_template.Common.{
  String, ◌≡◌, ◌≢◌, ◌⊎◌, true, false, Option, none, some, List, [], ◌∷◌, Sentinel, Error, is,
  Result, ok, err,
}
use go_service_template.Common.Text.{Text}
use go_service_template.Message.{Uuid, Time, Effect}
use go_service_template.User.{User, UserRepository, FindUserSpecification, Transaction, Lock}

-- SqlxUser
pub record SqlxUser : Type 0 where
  pub id : Uuid
  pub login : Text
  pub password_hash : String
  pub deleted_at : Option Time

-- The columns that `Store` writes.
abbrev pub row : User → SqlxUser
row u = record {
  id = u.id;
  login = u.login;
  password_hash = u.password_hash;
  deleted_at = u.deleted_at;
}

-- What `FindOne` finds, where `P` is the condition on the rows.
pub data Found {W : Type 0} (Row : SqlxUser → W → Type 0) (P : SqlxUser → Type 0) (w : W)
    : Result User → Type 0 where
  found : (u : User) → Row (row u) w → P (row u) → Found Row P w (ok u)
  not_found :
      (e : Error)
      → is e Sentinel.domain_user_not_found ≡ true
      → ((r : SqlxUser) → Row r w → ¬ P r)
      → Found Row P w (err e)
  failed : (e : Error) → is e Sentinel.domain_user_not_found ≡ false → Found Row P w (err e)

-- The same rows.
abbrev pub Same : {W : Type 0} → (SqlxUser → W → Type 0) → W → W → Type 0
Same Row w w' = (r : SqlxUser) → (Row r w → Row r w') × (Row r w' → Row r w)

-- What `Store` does: an upsert by id, or nothing if it fails.
pub data Written {W : Type 0} (Row : SqlxUser → W → Type 0) (u : User) (w : W)
    : Option Error × W → Type 0 where
  written :
      (w' : W)
      → Row (row u) w'
      → ((r : SqlxUser) → Row r w' → (r ≡ row u) ⊎ (Row r w × (r.id ≢ u.id)))
      → ((r : SqlxUser) → r.id ≢ u.id → Row r w → Row r w')
      → Written Row u w (none, w')
  kept : (e : Error) (w' : W) → Same Row w w' → Written Row u w (some e, w')

-- What `WithinContext` does: the function ran without an error and its writes were committed, or no
-- write was. An error may still be reported of a commit that took place.
pub data Ran {C W S : Type 0} (Row : SqlxUser → W → Type 0) (fn : C → Effect (S × W)) (a : S)
    (w : W) : Option Error × (S × W) → Type 0 where
  committed :
      (c : C) (v v' : W) (b : S) (e : Option Error) (w' : W)
      → Same Row w v
      → fn c (a, v) ≡ (none, (b, v'))
      → Same Row v' w'
      → Ran Row fn a w (e, (b, w'))
  rolled_back : (e : Error) (b : S) (w' : W) → Same Row w w' → Ran Row fn a w (some e, (b, w'))

pub record Table {C W : Type 0} (repo : UserRepository C W) (tx : Transaction C W) : Type 1 where
  pub Row : SqlxUser → W → Type 0
  pub ids_distinct : (w : W) (r q : SqlxUser) → Row r w → Row q w → r.id ≡ q.id → r ≡ q
  pub finds_login :
      (c : C) (l : Text) (w : W)
      → let r = repo.find_one c (record { ids = []; logins = l ∷ [] }) w in
        Found Row (λ q. q.login ≡ l) r.1 r.0
  pub finds_id :
      (c : C) (id : Uuid) (w : W)
      → let r = repo.find_one c (record { ids = id ∷ []; logins = [] }) w in
        Found Row (λ q. q.id ≡ id) r.1 r.0
  pub finds_same :
      (c : C) (spec : FindUserSpecification) (w : W) → Same Row w (repo.find_one c spec w).1
  pub next_same : (w : W) → Same Row w (repo.next_id w).1
  pub stores : (c : C) (u : User) (w : W) → Written Row u w (repo.store c u w)
  pub runs :
      {S : Type 0} (fn : C → Effect (S × W)) (locks : List Lock) (c : C) (a : S) (w : W)
      → Ran Row fn a w (tx.within_context fn locks c (a, w))
