-- ===== src/Sql/Lock/Examples.antt =====
-- A session lock over a count of taken connections, where the release reports that nothing was locked.
use go_service_template.Common.{ℕ, ◌+◌, ◌-◌, refl, sym, ap, false, none, Result, ok, err}
use go_service_template.Sql.Lock.{Session, with_session_level_lock}
use go_service_template.Sql.Lock.Balanced.{
  Connections, IsBalanced, with_session_level_lock-IsBalanced,
}

abbrev session : Session ℕ
session = record {
  lock_id = λ name. ok 1;
  single_connection = λ w. (ok (λ v. v - 1), w + 1);
  exec_lock = λ id w. (none, w);
  get_unlock = λ id w. (ok false, w);
  exec_xact_lock = λ shared id w. (none, w);
}

abbrev cancel_of : Result (ℕ → ℕ) × ℕ → ℕ → ℕ
cancel_of (ok cancel, w) = cancel
cancel_of (err e, w) = λ v. v

connections : Connections session
connections = record {
  taken = λ w. w;
  takes = λ w w' cancel e. (1, sym (ap (λ r. r.1) e), λ v. sym (ap (λ r. cancel_of r v) e));
  takes_not = λ w w' e h. cc;
  locks = λ id w. refl;
  unlocks = λ id w. refl;
}

with_session_level_lock-IsBalanced_example :
    IsBalanced connections 3 (with_session_level_lock session "migration" 3)
with_session_level_lock-IsBalanced_example =
    with_session_level_lock-IsBalanced connections "migration" 3
