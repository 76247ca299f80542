-- ===== src/Sql/Migration/Pending.antt =====
-- Only the pending migrations are performed, and no empty query is sent.
use go_service_template.Common.{
  ◌≡◌, refl, false, Option, none, some, String, List, [], ◌∷◌, if◌then◌else◌, All, Bool-cases, inl,
  inr, string_eq, Error,
}
use go_service_template.Common.Assoc.{contains}
use go_service_template.Common.Text.{Text, is_empty, trim_space}
use go_service_template.Message.{Effect, and_then}
use go_service_template.Sql.Migration.{
  Migration, Migrator, split, trim_queries, split_into_queries, perform_migration, perform_pending,
}

trim_queries-All : (qs : List Text) → All (λ q. is_empty q ≡ false) (trim_queries qs)
unfolding trim_queries
trim_queries-All [] = tt
trim_queries-All (q ∷ qs) = elim (Bool-cases (is_empty (trim_space q))) [
  | inl e ↦ rw e (trim_queries-All qs)
  | inr e ↦ rw e (e, trim_queries-All qs)
]

-- No query that a migration is split into is empty.
pub split_into_queries-All : (sql : Text) → All (λ q. is_empty q ≡ false) (split_into_queries sql)
unfolding split_into_queries
split_into_queries-All sql = trim_queries-All (split sql)

-- The migrations that are not recorded as performed.
pub pending : List String → List Migration → List Migration
pending performed [] = []
pending performed (x ∷ xs) =
    let rest = pending performed xs in if contains x.id performed then rest else x ∷ rest

-- One migration after another, up to the first error.
pub perform_each : {W : Type 0} → Migrator W → List Migration → Effect W
perform_each m [] w = (none, w)
perform_each m (x ∷ xs) w = and_then (perform_migration m x w) (perform_each m xs)

and_then-ap :
    {W : Type 0} (r : Option Error × W) (f g : Effect W)
    → ((w : W) → f w ≡ g w)
    → and_then r f ≡ and_then r g
and_then-ap (none, w) f g h = h w
and_then-ap (some e, w) f g h = refl

-- The loop over the sorted migrations performs those that are not recorded, in their order and up to
-- the first error, and no other.
pub perform_pending-each :
    {W : Type 0} (m : Migrator W) (performed : List String) (xs : List Migration) (w : W)
    → perform_pending m performed xs w ≡ perform_each m (pending performed xs) w
unfolding perform_pending pending perform_each
perform_pending-each m performed [] w = refl
perform_pending-each m performed (x ∷ xs) w = elim (Bool-cases (contains x.id performed)) [
  | inl e ↦ rw e (perform_pending-each m performed xs w)
  | inr e ↦
      rw e (and_then-ap (perform_migration m x w) _ _ (λ v. perform_pending-each m performed xs v))
]
