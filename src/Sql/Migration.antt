-- ===== src/Sql/Migration.antt =====
-- SQL migrations of pkg/sql/migration.go. The sources, the lock, the database and the statement that
-- records a migration are parameters, which act on a world of type `W`; logging is left out.
pub mod Pending
mod Examples
use Prim.Native.Nat.{Ordering}
use Prim.Native.Char.{code}
use Prim.Native.String.{compare}
use go_service_template.Common.{
  ℕ, Bool, true, false, ◌&&◌, Option, none, some, String, List, [], ◌∷◌, ◌++◌, if◌then◌else◌,
  nat_beq, string_eq, Error, Result, ok, err,
}
use go_service_template.Common.Assoc.{contains}
use go_service_template.Common.Text.{Text, is_empty, trim_space}
use go_service_template.Message.{Effect, and_then, wrap_error}

-- The code points of a text.
abbrev pub codes : String → Text
codes String.[] = []
codes (String.◌∷◌ c s) = code c ∷ codes s

pub record Migration : Type 0 where
  pub id : String
  pub sql : Text

-- What the query for the performed migrations returns.
pub data Selected : Type 0 where
  rows : List String → Selected
  relation_does_not_exist : Error → Selected
  failed : Error → Selected

pub record Migrator (W : Type 0) : Type 0 where
  pub begin : W → Result ℕ × W
  pub commit : ℕ → Effect W
  pub rollback : ℕ → Effect W
  pub exec : ℕ → Text → Effect W
  pub create_migration_record : ℕ → String → Effect W
  pub select_ids : W → Selected × W
  pub session_level_lock : W → Result (Effect W) × W

-- strings.Split(sql, ";\n"): where the separator begins, the piece after it loses its line feed.
pub prepend : ℕ → List Text → List Text
prepend c [] = (c ∷ []) ∷ []
prepend c (q ∷ qs) = (c ∷ q) ∷ qs

pub after_separator : List Text → List Text
after_separator ((c ∷ q) ∷ qs) = [] ∷ q ∷ qs
after_separator qs = [] ∷ qs

pub starts_with_line_feed : Text → Bool
starts_with_line_feed [] = false
starts_with_line_feed (c ∷ s) = nat_beq c 10

pub split : Text → List Text
unfolding prepend after_separator starts_with_line_feed
split [] = [] ∷ []
split (c ∷ s) =
    let rest = split s in
    if nat_beq c 59 && starts_with_line_feed s then after_separator rest else prepend c rest

-- The loop of `splitIntoQueries`.
pub trim_queries : List Text → List Text
unfolding trim_space
trim_queries [] = []
trim_queries (q ∷ qs) =
    let rest = trim_queries qs in if is_empty (trim_space q) then rest else trim_space q ∷ rest

unfoldable pub split_into_queries : Text → List Text
unfolding split trim_queries
split_into_queries sql = trim_queries (split sql)

-- The sort by ids.
abbrev pub id_leb : Migration → Migration → Bool
id_leb a b = elim (compare a.id b.id) [ Ordering.gt ↦ false | _ ↦ true ]

pub insert_migration : Migration → List Migration → List Migration
insert_migration x [] = x ∷ []
insert_migration x (y ∷ ys) = if id_leb x y then x ∷ y ∷ ys else y ∷ insert_migration x ys

pub sort_migrations : List Migration → List Migration
unfolding insert_migration
sort_migrations [] = []
sort_migrations (x ∷ xs) = insert_migration x (sort_migrations xs)

-- `migrationTableDDL`
abbrev pub migration_table_ddl : Migration
migration_table_ddl = record {
  id = "0000-00-00-000-create-migration-table";
  sql =
      codes
        "\n\t\t\t\tcreate table if not exists migration (\n\t\t\t\t\tid text primary key\n\t\t\t\t);\n\t\t\t";
}

-- The loop over the sources, the last of which is `migrationTableDDL`.
pub collect_sources : List (Result (List Migration)) → Result (List Migration)
collect_sources [] = ok (migration_table_ddl ∷ [])
collect_sources (err e ∷ sources) = err e
collect_sources (ok xs ∷ sources) = elim (collect_sources sources) [
  | ok ys ↦ ok (xs ++ ys)
  | err e ↦ err e
]

-- `getPerformedMigrationIDs`
pub performed_ids : Selected → Result (List String)
performed_ids (rows ids) = ok ids
performed_ids (relation_does_not_exist e) = ok []
performed_ids (failed e) = err e

module _ {W : Type 0} (m : Migrator W) where
  open m use {
    begin, commit, rollback, exec, create_migration_record, select_ids, session_level_lock,
  }

  pub run_queries : ℕ → List Text → Effect W
  run_queries tx [] w = (none, w)
  run_queries tx (q ∷ qs) w = and_then (exec tx q w) (run_queries tx qs)

  pub perform_migration_impl : ℕ → Migration → Effect W
  unfolding run_queries split_into_queries
  perform_migration_impl tx x w =
      if is_empty (trim_space x.sql)
      then (some (Error.message "empty migration"), w)
      else and_then (run_queries tx (split_into_queries (trim_space x.sql)) w)
          (create_migration_record tx x.id)

  pub after_impl : ℕ → Option Error × W → Option Error × W
  after_impl tx (none, w) = wrap_error (Error.wrap "commit tx: %w") (commit tx w)
  after_impl tx (some e, w) = (some (Error.wrap "migration %s failed: %w" e), (rollback tx w).1)

  pub after_begin_migration : Migration → Result ℕ × W → Option Error × W
  unfolding perform_migration_impl after_impl
  after_begin_migration x (err e, w) = (some (Error.wrap "start tx: %w" e), w)
  after_begin_migration x (ok tx, w) = after_impl tx (perform_migration_impl tx x w)

  unfoldable pub perform_migration : Migration → Effect W
  unfolding after_begin_migration
  perform_migration x w = after_begin_migration x (begin w)

  -- The loop of `performMigrations`.
  unfoldable pub perform_pending : List String → List Migration → Effect W
  unfolding perform_migration
  perform_pending performed [] w = (none, w)
  perform_pending performed (x ∷ xs) w =
      if contains x.id performed
      then perform_pending performed xs w
      else and_then (perform_migration x w) (perform_pending performed xs)

  pub after_select : List Migration → Selected × W → Option Error × W
  unfolding perform_pending performed_ids
  after_select xs (rows ids, w) = perform_pending ids xs w
  after_select xs (relation_does_not_exist e, w) = perform_pending [] xs w
  after_select xs (failed e, w) = (some (Error.wrap "get performed migrations: %w" e), w)

  pub perform_migrations : List Migration → Effect W
  unfolding after_select
  perform_migrations xs w = after_select xs (select_ids w)

  -- `Execute`. An error of the release is dropped, since `err` is no named result.
  pub after_migration_lock : List Migration → Result (Effect W) × W → Option Error × W
  unfolding perform_migrations
  after_migration_lock xs (err e, w) = (some (Error.wrap "get migration lock: %w" e), w)
  after_migration_lock xs (ok release, w) =
      let (e, w') = perform_migrations xs w in (e, (release w').1)

  pub after_sources : Result (List Migration) → Effect W
  unfolding after_migration_lock sort_migrations
  after_sources (err e) w = (some (Error.wrap "get migrations from source: %w" e), w)
  after_sources (ok xs) w = after_migration_lock (sort_migrations xs) (session_level_lock w)

  unfoldable pub execute : List (Result (List Migration)) → Effect W
  unfolding after_sources collect_sources
  execute [] w = (none, w)
  execute (source ∷ sources) w = after_sources (collect_sources (source ∷ sources)) w
