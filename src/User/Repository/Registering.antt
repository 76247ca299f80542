-- ===== src/User/Repository/Registering.antt =====
-- The user service over the repository, down to the rows of the database.
use mathlib.Core.Path.{subst}
use go_service_template.Common.{◌≡◌, String, ok}
use go_service_template.Common.Text.{trim_space}
use go_service_template.Message.{Uuid}
use go_service_template.User.Stored.{Table}
use go_service_template.User.Service.{UserService, UserCredentials, register}
use go_service_template.User.Service.Register.{
  IsUnique, IsRegistered, register-IsUnique, register-IsRegistered,
}
use go_service_template.User.Repository.{SqlUserRepository, user_repository}
use go_service_template.User.Repository.Table.{UserDatabase, IsAllOrNothing, repository_table}

module _ {C W : Type 0} (r : SqlUserRepository C W) (d : UserDatabase r) (s : UserService C W)
    (all_or_nothing : IsAllOrNothing d.Row s.transaction) where
  -- The service with the repository.
  abbrev pub over_sql : UserService C W
  over_sql = record s { user_repo = user_repository r }

  abbrev sql_table : Table over_sql.user_repo over_sql.transaction
  sql_table = repository_table r d s.transaction all_or_nothing

  -- Over a database that keeps the rows of users, a `Register` that returns an id has stored a row with
  -- it that has the trimmed login in lower case and the hash of the trimmed password and is not deleted, and
  -- no two rows have one login if none had before.
  pub register-over_sql :
      (c : C) (credentials : UserCredentials) (hash : String) (w w' : W) (id : Uuid)
      → IsUnique d.Row w
      → s.hash_password (trim_space credentials.password) ≡ ok hash
      → register over_sql c credentials w ≡ (ok id, w')
      → IsUnique d.Row w'
        × IsRegistered d.Row (s.to_lower (trim_space credentials.login)) hash id w'
  unfolding repository_table
  register-over_sql c credentials hash w w' id unique hashed h = (
    subst (λ x. IsUnique d.Row x.1) h (register-IsUnique over_sql sql_table c credentials w unique),
    register-IsRegistered over_sql sql_table c credentials hash w w' id hashed h,
  )
