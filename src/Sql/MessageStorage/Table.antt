-- ===== src/Sql/MessageStorage/Table.antt =====
-- What the database does with the queries of the message storage, on the rows of the table.
use go_service_template.Common.{
  ℕ, ◌<◌, ◌≤◌, ◌≡◌, ◌⊎◌, Bool, true, not, ◌&&◌, Option, none, some, List, [], ◌∷◌, ◌++◌, leb, ◌==◌,
  nat_eq, string_eq, any, filter, length, if◌then◌else◌, Error, ok,
}
use go_service_template.Common.Assoc.{contains}
use go_service_template.Message.{Topic, Uuid}
use go_service_template.Sql.MessageStorage.{Row, Condition, Select, Statement, Client}

abbrev pub meets : Condition → Row → Bool
meets (Condition.scheduled_at_lt_or_eq t) r = leb r.scheduled_at t
meets (Condition.id_not_eq ids) r = not (contains r.id ids)
meets (Condition.topic_eq ts) r = contains r.topic ts
meets (Condition.id_eq ids) r = contains r.id ids

abbrev pub meets_all : List Condition → Row → Bool
meets_all [] r = true
meets_all (c ∷ cs) r = meets c r && meets_all cs r

-- The row with the primary key.
abbrev pub has_key : Topic → Uuid → Row → Bool
has_key topic id r = r.topic == topic && r.id == id

-- `insert … on conflict (id, topic) do nothing`, and `delete … where`.
abbrev pub insert_rows : List Row → List Row → List Row
insert_rows [] rows = rows
insert_rows (r ∷ rs) rows =
    insert_rows rs (if any (has_key r.topic r.id) rows then rows else rows ++ r ∷ [])

unfoldable pub run : Statement → List Row → List Row
run (Statement.insert rs) rows = insert_rows rs rows
run (Statement.delete conditions) rows = filter (λ r. not (meets_all conditions r)) rows

-- A limit on the number of rows is kept, and leaves none out before it is reached.
abbrev pub IsWithin : Option ℕ → ℕ → Type 0
IsWithin none n = Unit
IsWithin (some limit) n = n ≤ limit

abbrev pub IsBelow : Option ℕ → ℕ → Type 0
IsBelow none n = Unit
IsBelow (some limit) n = n < limit

-- The rows that answer a query, told by the tests that they pass.
pub record Answer (q : Select) (rows answer : List Row) : Type 0 where
  pub sound :
      (p : Row → Bool)
      → any p answer ≡ true
      → any (λ r. p r && meets_all q.conditions r) rows ≡ true
  pub complete :
      (p : Row → Bool)
      → IsBelow q.limit (length answer)
      → any (λ r. p r && meets_all q.conditions r) rows ≡ true
      → any p answer ≡ true
  pub within : IsWithin q.limit (length answer)

-- A database that holds the table: `select` changes no row, and a statement that fails has run or not.
pub record Database {W : Type 0} (client : Client W) : Type 0 where
  pub rows : W → List Row
  pub select_keeps : (q : Select) (w : W) → rows (client.select q w).1 ≡ rows w
  pub select_answers :
      (q : Select) (w w' : W) (answer : List Row)
      → client.select q w ≡ (ok answer, w')
      → Answer q (rows w) answer
  pub execs : (q : Statement) (w w' : W) → client.exec q w ≡ (none, w') → rows w' ≡ run q (rows w)
  pub exec_fails :
      (q : Statement) (w w' : W) (e : Error)
      → client.exec q w ≡ (some e, w')
      → (rows w' ≡ rows w) ⊎ (rows w' ≡ run q (rows w))
