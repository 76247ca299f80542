-- ===== src/Sql/MessageStorage/Double.antt =====
-- A database in memory, which keeps what Database asks for: the rows, the messages sent, and the
-- connections taken.
use mathlib.Core.Path.{subst}
use go_service_template.Common.{
  ℕ, zero, suc, ◌+◌, ◌-◌, ◌≤◌, ◌<◌, ◌≡◌, refl, sym, ap, ◌∙◌, ◌⊎◌, Bool, true, ◌&&◌, Option, none,
  some, List, [], ◌∷◌, any, any_cong, any-filter, filter, take, length, Error, ok, arith,
}
use go_service_template.Message.{Message}
use go_service_template.Sql.MessageStorage.{Row, Condition, Select, Statement, Client}
use go_service_template.Sql.MessageStorage.Table.{
  meets_all, run, IsWithin, IsBelow, Answer, Database,
}

pub record Memory : Type 0 where
  pub stored : List Row
  pub sent : List Message
  pub connections : ℕ

abbrev limited : Option ℕ → List Row → List Row
limited none rows = rows
limited (some n) rows = take n rows

unfoldable pub answer : Select → List Row → List Row
answer q rows = limited q.limit (filter (meets_all q.conditions) rows)

unfoldable pub client : Client Memory
unfolding answer run
client = record {
  build_select = λ q. none;
  build = λ q. none;
  select = λ q w. (ok (answer q w.stored), w);
  exec = λ q w. (none, record w { stored = run q w.stored });
  session = record {
    lock_id = λ name. ok 1;
    single_connection = λ w. (
      ok (λ v. record v { connections = v.connections - 1 }),
      record w { connections = w.connections + 1 },
    );
    exec_lock = λ id w. (none, w);
    get_unlock = λ id w. (ok true, w);
    exec_xact_lock = λ shared id w. (none, w);
  };
}

any-take :
    (p : Row → Bool) (n : ℕ) (rows : List Row) → any p (take n rows) ≡ true → any p rows ≡ true
any-take p zero rows h = cc
any-take p (suc n) [] h = h
any-take p (suc n) (r ∷ rows) h = ground (arith, any-take p n rows)

take_all : (n : ℕ) (rows : List Row) → length (take n rows) < n → take n rows ≡ rows
take_all zero rows h = absurd (omega arith)
take_all (suc n) [] h = refl
take_all (suc n) (r ∷ rows) h = ap (λ rs. r ∷ rs) (take_all n rows (omega arith))

length-take : (n : ℕ) (rows : List Row) → length (take n rows) ≤ n
length-take zero rows = omega arith
length-take (suc n) [] = omega arith
length-take (suc n) (r ∷ rows) = omega (arith, length-take n rows)

filtered :
    (p : Row → Bool) (conditions : List Condition) (rows : List Row)
    → any p (filter (meets_all conditions) rows) ≡ any (λ r. p r && meets_all conditions r) rows
filtered p conditions rows =
    any-filter p (meets_all conditions) rows ∙ any_cong _ _ (λ r. ground arith) rows

limited_sound :
    (limit : Option ℕ) (p : Row → Bool) (rows : List Row)
    → any p (limited limit rows) ≡ true
    → any p rows ≡ true
limited_sound none p rows h = h
limited_sound (some n) p rows h = any-take p n rows h

limited_complete :
    (limit : Option ℕ) (p : Row → Bool) (rows : List Row)
    → IsBelow limit (length (limited limit rows))
    → any p rows ≡ true
    → any p (limited limit rows) ≡ true
limited_complete none p rows b h = h
limited_complete (some n) p rows b h = ap (any p) (take_all n rows b) ∙ h

limited-IsWithin :
    (limit : Option ℕ) (rows : List Row) → IsWithin limit (length (limited limit rows))
limited-IsWithin none rows = tt
limited-IsWithin (some n) rows = length-take n rows

answer-Answer : (q : Select) (rows : List Row) → Answer q rows (answer q rows)
unfolding answer
answer-Answer q rows =
    let found = filter (meets_all q.conditions) rows in
    record {
      sound = λ p h. sym (filtered p q.conditions rows) ∙ limited_sound q.limit p found h;
      complete = λ p b h. limited_complete q.limit p found b (filtered p q.conditions rows ∙ h);
      within = limited-IsWithin q.limit found;
    }

pub select_answers :
    (q : Select) (w w' : Memory) (rows : List Row)
    → client.select q w ≡ (ok rows, w')
    → Answer q w.stored rows
unfolding client
select_answers q w w' rows h =
    subst (Answer q w.stored) (let p : answer q w.stored ≡ rows = cc in p)
      (answer-Answer q w.stored)

pub execs :
    (q : Statement) (w w' : Memory) → client.exec q w ≡ (none, w') → w'.stored ≡ run q w.stored
unfolding client
execs q w w' h = ap (λ r. r.1.stored) (sym h)

pub exec_never_fails :
    (q : Statement) (w w' : Memory) (e : Error)
    → client.exec q w ≡ (some e, w')
    → (w'.stored ≡ w.stored) ⊎ (w'.stored ≡ run q w.stored)
unfolding client
exec_never_fails q w w' e h = cc

unfoldable pub database : Database client
unfolding client
database = record {
  rows = λ w. w.stored;
  select_keeps = λ q w. refl;
  select_answers = select_answers;
  execs = execs;
  exec_fails = exec_never_fails;
}
