-- ===== src/User/Examples.antt =====
-- The user service over a table with room for one user, and a database whose calls succeed.
use go_service_template.Common.{
  ◌≡◌, refl, sym, ap, ◌∙◌, inl, inr, Bool, true, Option, none, some, List, [], ◌∷◌, Bool-cases,
  ◌==◌, ==_iff, nat_eq, list_eq, string_eq, if◌then◌else◌, Sentinel, Error, is, Result, ok, err,
}
use go_service_template.Common.Text.{Text}
use go_service_template.Message.{Uuid, Effect}
use go_service_template.Auth.{Authentication}
use go_service_template.User.{User, UserRepository, FindUserSpecification, Transaction}
use go_service_template.User.Stored.{SqlxUser, row, Found, Written, Ran, Table}
use go_service_template.User.Service.{UserService, UserCredentials, register}
use go_service_template.User.Service.Register.{IsUnique, register-IsUnique}

abbrev pub World : Type 0
World = Option SqlxUser

abbrev pub Context : Type 0
Context = Option Authentication

abbrev pub IsRow : SqlxUser → World → Type 0
IsRow r w = w ≡ some r

abbrev pub to_user : SqlxUser → User
to_user r = record {
  id = r.id;
  login = r.login;
  password_hash = r.password_hash;
  deleted_at = r.deleted_at;
  changes = [];
}

abbrev pub is_asked_id : List Uuid → Uuid → Bool
is_asked_id [] id = true
is_asked_id (i ∷ is) id = id == i

abbrev pub is_asked_login : List Text → Text → Bool
is_asked_login [] login = true
is_asked_login (l ∷ ls) login = login == l

abbrev pub absent : Error
absent = Error.sentinel Sentinel.domain_user_not_found

abbrev pub select : FindUserSpecification → World → Result User
select spec none = err absent
select spec (some r) =
    if is_asked_id spec.ids r.id
    then (if is_asked_login spec.logins r.login then ok (to_user r) else err absent)
    else err absent

abbrev pub put : User → World → Option Error × World
put u none = (none, some (row u))
put u (some r) =
    if r.id == u.id then (none, some (row u)) else (some (Error.message "no room"), some r)

abbrev pub repository : UserRepository Context World
repository = record {
  next_id = λ w. (7, w);
  store = λ c u w. put u w;
  find = λ c spec w. (ok [], w);
  find_one = λ c spec w. (select spec w, w);
}

abbrev pub commit :
    {S : Type 0} → S × World → Option Error × (S × World) → Option Error × (S × World)
commit before (none, after) = (none, after)
commit before (some e, after) = (some e, before)

abbrev pub database : Transaction Context World
database = record {
  within_context = λ fn locks c before. commit before (fn c before);
  lock_update = λ exclusively c. c;
}

pub some-injective_row : (r q : SqlxUser) → some r ≡ some q → r ≡ q
some-injective_row r q h = cc

pub select_login :
    (l : Text) (w : World)
    → Found IsRow (λ q. q.login ≡ l) w (select (record { ids = []; logins = l ∷ [] }) w)
select_login l none = Found.not_found absent refl (λ r h. cc)
select_login l (some r) = elim (Bool-cases (r.login == l)) [
  | inl e ↦ rw e (Found.found (to_user r) refl ((==_iff r.login l).0 e))
  | inr e ↦ rw e (
      Found.not_found absent refl (λ q h i.
        let same : r.login ≡ l = ap (λ x. x.login) (some-injective_row r q h) ∙ i in
        let known = (==_iff r.login l).1 same in cc))
]

pub select_id :
    (j : Uuid) (w : World)
    → Found IsRow (λ q. q.id ≡ j) w (select (record { ids = j ∷ []; logins = [] }) w)
select_id j none = Found.not_found absent refl (λ r h. cc)
select_id j (some r) = elim (Bool-cases (r.id == j)) [
  | inl e ↦ rw e (Found.found (to_user r) refl ((==_iff r.id j).0 e))
  | inr e ↦ rw e (
      Found.not_found absent refl (λ q h i.
        let same : r.id ≡ j = ap (λ x. x.id) (some-injective_row r q h) ∙ i in
        let known = (==_iff r.id j).1 same in cc))
]

pub put-Written : (u : User) (w : World) → Written IsRow u w (put u w)
put-Written u none =
    Written.written _ refl (λ r h. inl (sym (some-injective_row (row u) r h))) (λ r n h. cc)
put-Written u (some q) = elim (Bool-cases (q.id == u.id)) [
  | inl e ↦ rw e (
      Written.written _ refl (λ r h. inl (sym (some-injective_row (row u) r h)))
        (λ r n h.
          absurd (n (sym (ap (λ x. x.id) (some-injective_row q r h)) ∙ (==_iff q.id u.id).0 e))))
  | inr e ↦ rw e (Written.kept _ _ (λ r. ((λ h. h), (λ h. h))))
]

pub commit-Ran :
    {S : Type 0} (fn : Context → Effect (S × World)) (c : Context) (a : S) (w : World)
    (r : Option Error × (S × World))
    → fn c (a, w) ≡ r
    → Ran IsRow fn a w (commit (a, w) r)
commit-Ran fn c a w (none, (b, v)) eq =
    Ran.committed c w v b none v (λ r. ((λ h. h), (λ h. h))) eq (λ r. ((λ h. h), (λ h. h)))
commit-Ran fn c a w (some e, _) eq = Ran.rolled_back e a w (λ r. ((λ h. h), (λ h. h)))

abbrev pub table : Table repository database
table = record {
  Row = IsRow;
  ids_distinct = λ w r q hr hq i. some-injective_row r q (sym hr ∙ hq);
  finds_login = λ c l w. select_login l w;
  finds_id = λ c j w. select_id j w;
  finds_same = λ c spec w r. ((λ h. h), (λ h. h));
  next_same = λ w r. ((λ h. h), (λ h. h));
  stores = λ c u w. put-Written u w;
  runs = λ fn locks c a w. commit-Ran fn c a w (fn c (a, w)) refl;
}

abbrev pub service : UserService Context World
service = record {
  user_repo = repository;
  hash_password = λ password. ok "hash";
  authentication = λ c. c;
  transaction = database;
  to_lower = λ login. login;
  now = λ w. 5;
  new_uuid = λ w. (9, w);
}

-- The texts " a" and "b".
abbrev credentials : UserCredentials
credentials = record { login = 32 ∷ 97 ∷ []; password = 98 ∷ [] }

abbrev stored : SqlxUser
stored = record { id = 7; login = 97 ∷ []; password_hash = "hash"; deleted_at = none }

abbrev gone : SqlxUser
gone = record { id = 7; login = 97 ∷ []; password_hash = "hash"; deleted_at = some 5 }

abbrev admin : Context
admin = some (record {
  principal = some (record { user_id = none; admin_user_id = some "root"; service_name = none });
})

register-IsUnique_example : IsUnique IsRow (register service none credentials none).1
register-IsUnique_example =
    register-IsUnique service table none credentials none (λ r q hr hq l. cc)
