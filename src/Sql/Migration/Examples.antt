-- ===== src/Sql/Migration/Examples.antt =====
-- Migrations over a log of the statements that were executed.
use go_service_template.Common.{◌≡◌, refl, none, List, [], ◌∷◌, ◌++◌, ok}
use go_service_template.Common.Text.{Text, trim_space}
use go_service_template.Sql.Migration.{
  Migration, Migrator, Selected, codes, split_into_queries, perform_pending,
}
use go_service_template.Sql.Migration.Pending.{perform_each, pending, perform_pending-each}

abbrev logging : Migrator (List Text)
logging = record {
  begin = λ w. (ok 0, w);
  commit = λ tx w. (none, w);
  rollback = λ tx w. (none, w);
  exec = λ tx q w. (none, w ++ q ∷ []);
  create_migration_record = λ tx id w. (none, w ++ codes id ∷ []);
  select_ids = λ w. (Selected.rows [], w);
  session_level_lock = λ w. (ok (λ v. (none, v)), w);
}

abbrev first : Migration
first = record { id = "1"; sql = codes "a" }

abbrev second : Migration
second = record { id = "2"; sql = codes "b" }

perform_pending-each_example :
    perform_pending logging ("1" ∷ []) (first ∷ second ∷ []) []
    ≡ perform_each logging (pending ("1" ∷ []) (first ∷ second ∷ [])) []
perform_pending-each_example = perform_pending-each logging ("1" ∷ []) (first ∷ second ∷ []) []

-- Two queries, with the spaces around them cut.
split_two : split_into_queries (97 ∷ 59 ∷ 10 ∷ 32 ∷ 98 ∷ 59 ∷ 10 ∷ []) ≡ (97 ∷ []) ∷ (98 ∷ []) ∷ []
unfolding split_into_queries trim_space
split_two = refl
