-- ===== src/User/Repository.antt =====
-- The repository of internal/user/infra/sql/userrepository.go. A query that the code builds is a value, and
-- the database, which runs queries, is a parameter, as are the event dispatcher, `uuid.New` and the
-- generated converter of rows.
pub mod Table
pub mod Registering
mod Examples
use go_service_template.Common.{
  ℕ, String, Option, none, some, List, [], ◌∷◌, ◌++◌, map, Error, Sentinel, is, Result, ok, err,
  if◌then◌else◌,
}
use go_service_template.Common.Text.{Text}
use go_service_template.Message.{Uuid, Effect, and_then, wrap_error}
use go_service_template.Sql.Transaction.{Context, prepare_update_lock_query}
use go_service_template.User.{User, UserDeleted, UserRepository, FindUserSpecification}
use go_service_template.User.Stored.{SqlxUser, row}

-- The conditions of `Where`.
pub data UserCondition : Type 0 where
  id_in : List Uuid → UserCondition
  login_in : List Text → UserCondition

-- A `select` from the table of users.
pub record UserQuery : Type 0 where
  pub conditions : List UserCondition
  pub suffixes : List String
  pub limit : Option ℕ

-- The methods of the `Client` with these queries, and with the insertion of a row that updates the row
-- of its id; `build` and `build_upsert` are the errors of `ToSql`.
pub record UserClient (C W : Type 0) : Type 0 where
  pub build : UserQuery → Option Error
  pub build_upsert : SqlxUser → Option Error
  pub select : C → UserQuery → W → Result (List SqlxUser) × W
  pub get : C → UserQuery → W → Result SqlxUser × W
  pub upsert : C → SqlxUser → Effect W

-- A `userRepository`, with what it calls; `sql_context` is the part of a context that pkg/sql reads.
pub record SqlUserRepository (C W : Type 0) : Type 0 where
  pub db : UserClient C W
  pub dispatch : C → List UserDeleted → Effect W
  pub to_domain_user : SqlxUser → User
  pub new_uuid : W → Uuid × W
  pub sql_context : C → Context

-- `if len(…) > 0`.
unfoldable pub id_conditions : List Uuid → List UserCondition
id_conditions [] = []
id_conditions (id ∷ ids) = UserCondition.id_in (id ∷ ids) ∷ []

unfoldable pub login_conditions : List Text → List UserCondition
login_conditions [] = []
login_conditions (login ∷ logins) = UserCondition.login_in (login ∷ logins) ∷ []

module _ {C W : Type 0} (r : SqlUserRepository C W) where
  open r use {db, dispatch, to_domain_user, new_uuid, sql_context}

  -- `buildFindQuery`.
  unfoldable pub build_find_query : C → FindUserSpecification → UserQuery
  unfolding id_conditions login_conditions prepare_update_lock_query
  build_find_query c spec = record {
    conditions = id_conditions spec.ids ++ login_conditions spec.logins;
    suffixes = prepare_update_lock_query (sql_context c) [];
    limit = none;
  }

  unfoldable pub after_upsert_built : C → SqlxUser → Option Error → Effect W
  after_upsert_built c user (some e) w = (some (Error.wrap "build query: %w" e), w)
  after_upsert_built c user none w = db.upsert c user w

  unfoldable pub store_row : C → SqlxUser → Effect W
  unfolding after_upsert_built
  store_row c user w = after_upsert_built c user (db.build_upsert user) w

  -- `Store`.
  unfoldable pub store_user : C → User → Effect W
  unfolding store_row
  store_user c user w =
      and_then (wrap_error (Error.wrap "dispatch events: %w") (dispatch c user.changes w))
        (store_row c (row user))

  unfoldable pub convert_rows : Result (List SqlxUser) × W → Result (List User) × W
  convert_rows (ok rows, w) = (ok (map to_domain_user rows), w)
  convert_rows (err e, w) = (err e, w)

  unfoldable pub after_find_built : C → UserQuery → Option Error → W → Result (List User) × W
  unfolding convert_rows
  after_find_built c query (some e) w = (err (Error.wrap "build query: %w" e), w)
  after_find_built c query none w = convert_rows (db.select c query w)

  -- `Find`.
  unfoldable pub find_users : C → FindUserSpecification → W → Result (List User) × W
  unfolding after_find_built build_find_query
  find_users c spec w =
      let query = build_find_query c spec in after_find_built c query (db.build query) w

  unfoldable pub convert_row : Result SqlxUser × W → Result User × W
  convert_row (ok user, w) = (ok (to_domain_user user), w)
  convert_row (err e, w) =
      if is e Sentinel.no_rows
      then (err (Error.sentinel Sentinel.domain_user_not_found), w)
      else (err e, w)

  unfoldable pub after_find_one_built : C → UserQuery → Option Error → W → Result User × W
  unfolding convert_row
  after_find_one_built c query (some e) w = (err (Error.wrap "build query: %w" e), w)
  after_find_one_built c query none w = convert_row (db.get c query w)

  -- `FindOne`.
  unfoldable pub find_one_user : C → FindUserSpecification → W → Result User × W
  unfolding after_find_one_built build_find_query
  find_one_user c spec w =
      let query = record (build_find_query c spec) { limit = some 1 } in
      after_find_one_built c query (db.build query) w

  -- What `NewUserRepository` returns.
  abbrev pub user_repository : UserRepository C W
  user_repository = record {
    next_id = new_uuid;
    store = store_user;
    find = find_users;
    find_one = find_one_user;
  }
