-- ===== src/User/Repository/Examples.antt =====
-- The user service over the repository and a table with room for one user.
use go_service_template.Common.{
  ◌≡◌, refl, sym, ap, ◌∙◌, inl, inr, false, Option, none, some, [], ◌∷◌, Bool-cases, ◌==◌, ==_iff,
  nat_eq, list_eq, string_eq, if◌then◌else◌, Sentinel, Error, is, Result, ok, err,
}
use mathlib.Core.Path.{subst}
use go_service_template.Auth.{Authentication}
use go_service_template.Common.Text.{trim_space}
use go_service_template.Sql.Transaction.{Context}
use go_service_template.User.{within_transaction_with_result}
use go_service_template.User.Stored.{SqlxUser}
use go_service_template.User.Examples.{
  IsRow, World, to_user, put, service, commit-Ran, some-injective_row,
}
use go_service_template.User.Service.{UserCredentials, register}
use go_service_template.User.Service.Register.{IsUnique, IsRegistered}
use go_service_template.User.Repository.{
  UserQuery, UserClient, SqlUserRepository, find_one_user, build_find_query, store_user,
}
use go_service_template.User.Repository.Table.{matches, Got, Upserted, UserDatabase, IsAllOrNothing}
use go_service_template.User.Repository.Registering.{register-over_sql}

abbrev no_rows : Error
no_rows = Error.sentinel Sentinel.no_rows

abbrev get : UserQuery → World → Result SqlxUser
get q none = err no_rows
get q (some r) = if matches q.conditions r then ok r else err no_rows

abbrev client : UserClient (Option Authentication) World
client = record {
  build = λ q. none;
  build_upsert = λ r. none;
  select = λ c q w. (ok [], w);
  get = λ c q w. (get q w, w);
  upsert = λ c r w. put (to_user r) w;
}

abbrev no_transaction : Context
no_transaction = record { connection = none; tx = none; update_lock = none }

abbrev repository : SqlUserRepository (Option Authentication) World
repository = record {
  db = client;
  dispatch = λ c events w. (none, w);
  to_domain_user = to_user;
  new_uuid = λ w. (7, w);
  sql_context = λ c. no_transaction;
}

get-Got : (q : UserQuery) (w : World) → Got IsRow q w (get q w)
get-Got q none = Got.no_rows no_rows refl (λ r h. cc)
get-Got q (some r) = elim (Bool-cases (matches q.conditions r)) [
  | inl e ↦ rw (e) (Got.got r refl e)
  | inr e ↦ rw (e) (
      Got.no_rows no_rows refl
        (λ x h. subst (λ y. matches q.conditions y ≡ false) (some-injective_row r x h) e))
]

put-Upserted : (r : SqlxUser) (w : World) → Upserted IsRow r w (put (to_user r) w)
put-Upserted r none =
    Upserted.upserted _ refl (λ x h. inl (sym (some-injective_row r x h))) (λ x n h. cc)
put-Upserted r (some q) = elim (Bool-cases (q.id == r.id)) [
  | inl e ↦ rw (e) (
      Upserted.upserted _ refl (λ x h. inl (sym (some-injective_row r x h)))
        (λ x n h.
          absurd (n (sym (ap (λ y. y.id) (some-injective_row q x h)) ∙ (==_iff q.id r.id).0 e))))
  | inr e ↦ rw (e) (Upserted.failed _ _ (λ x. ((λ h. h), (λ h. h))))
]

never_fails : (e : Error) → none ≡ some e → is e Sentinel.domain_user_not_found ≡ false
never_fails e h = cc

abbrev rows : UserDatabase repository
rows = record {
  Row = IsRow;
  ids_distinct = λ w r q hr hq i. some-injective_row r q (sym hr ∙ hq);
  gets = λ c q w. get-Got q w;
  get_same = λ c q w r. ((λ h. h), (λ h. h));
  select_same = λ c q w r. ((λ h. h), (λ h. h));
  upserts = λ c r w. put-Upserted r w;
  dispatch_same = λ c events w r. ((λ h. h), (λ h. h));
  uuid_same = λ w r. ((λ h. h), (λ h. h));
  build_fails = λ q e h. never_fails e h;
  converts = λ r. refl;
}

abbrev transactions : IsAllOrNothing IsRow service.transaction
transactions = record { runs = λ fn locks c a w. commit-Ran fn c a w (fn c (a, w)) refl }

-- The texts " a" and "b".
abbrev credentials : UserCredentials
credentials = record { login = 32 ∷ 97 ∷ []; password = 98 ∷ [] }

abbrev stored : SqlxUser
stored = record { id = 7; login = 97 ∷ []; password_hash = "hash"; deleted_at = none }

register-over_sql_example :
    IsUnique IsRow (some stored) × IsRegistered IsRow (97 ∷ []) "hash" 7 (some stored)
unfolding register trim_space within_transaction_with_result find_one_user build_find_query
    store_user
register-over_sql_example =
    register-over_sql repository rows service transactions none credentials "hash" none
      (some stored) 7 (λ r q hr hq l. cc) refl refl
