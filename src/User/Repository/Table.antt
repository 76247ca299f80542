-- ===== src/User/Repository/Table.antt =====
-- The repository keeps the table of users that the user service relies on, over a database that keeps
-- the rows and runs the queries.
use go_service_template.Common.{
  Eq, ◌≡◌, ◌≢◌, refl, sym, ◌⊎◌, inl, inr, Bool, true, false, ◌&&◌, Option, none, some, List, [],
  ◌∷◌, Error, Sentinel, is, Result, ok, err, Bool-cases, ◌==◌, ==_iff, nat_eq, list_eq, arith,
}
use mathlib.Core.Path.{subst}
use go_service_template.Common.Text.{Text}
use go_service_template.Common.Assoc.{contains}
use go_service_template.Message.{Uuid, Effect, and_then, wrap_error}
use go_service_template.User.{User, UserDeleted, Transaction, Lock}
use go_service_template.User.Stored.{SqlxUser, row, Found, Same, Written, Ran, Table}
use go_service_template.User.Repository.{
  UserCondition, UserQuery, SqlUserRepository, id_conditions, login_conditions, build_find_query,
  after_upsert_built, store_row, store_user, convert_row, after_find_one_built, find_one_user,
  user_repository,
}

abbrev pub meets : UserCondition → SqlxUser → Bool
meets (UserCondition.id_in ids) r = contains r.id ids
meets (UserCondition.login_in logins) r = contains r.login logins

abbrev pub matches : List UserCondition → SqlxUser → Bool
matches [] r = true
matches (c ∷ cs) r = meets c r && matches cs r

-- What `GetContext` gets: a row that matches, `sql.ErrNoRows` if there is none, or another error.
pub data Got {W : Type 0} (Row : SqlxUser → W → Type 0) (q : UserQuery) (w : W)
    : Result SqlxUser → Type 0 where
  got : (r : SqlxUser) → Row r w → matches q.conditions r ≡ true → Got Row q w (ok r)
  no_rows :
      (e : Error)
      → is e Sentinel.no_rows ≡ true
      → ((r : SqlxUser) → Row r w → matches q.conditions r ≡ false)
      → Got Row q w (err e)
  failed :
      (e : Error)
      → is e Sentinel.no_rows ≡ false
      → is e Sentinel.domain_user_not_found ≡ false
      → Got Row q w (err e)

-- What an insertion with `on conflict (id) do update` does, unless it fails.
pub data Upserted {W : Type 0} (Row : SqlxUser → W → Type 0) (user : SqlxUser) (w : W)
    : Option Error × W → Type 0 where
  upserted :
      (w' : W)
      → Row user w'
      → ((r : SqlxUser) → Row r w' → (r ≡ user) ⊎ (Row r w × (r.id ≢ user.id)))
      → ((r : SqlxUser) → r.id ≢ user.id → Row r w → Row r w')
      → Upserted Row user w (none, w')
  failed : (e : Error) (w' : W) → Same Row w w' → Upserted Row user w (some e, w')

-- A database that holds the table, and code that does not write it: the dispatcher and `uuid.New`.
pub record UserDatabase {C W : Type 0} (s : SqlUserRepository C W) : Type 1 where
  pub Row : SqlxUser → W → Type 0
  pub ids_distinct : (w : W) (r q : SqlxUser) → Row r w → Row q w → r.id ≡ q.id → r ≡ q
  pub gets : (c : C) (q : UserQuery) (w : W) → Got Row q (s.db.get c q w).1 (s.db.get c q w).0
  pub get_same : (c : C) (q : UserQuery) (w : W) → Same Row w (s.db.get c q w).1
  pub select_same : (c : C) (q : UserQuery) (w : W) → Same Row w (s.db.select c q w).1
  pub upserts : (c : C) (user : SqlxUser) (w : W) → Upserted Row user w (s.db.upsert c user w)
  pub dispatch_same :
      (c : C) (events : List UserDeleted) (w : W) → Same Row w (s.dispatch c events w).1
  pub uuid_same : (w : W) → Same Row w (s.new_uuid w).1
  pub build_fails :
      (q : UserQuery) (e : Error)
      → s.db.build q ≡ some e
      → is e Sentinel.domain_user_not_found ≡ false
  -- The converter copies the columns.
  pub converts : (r : SqlxUser) → row (s.to_domain_user r) ≡ r

-- A transaction that is all or nothing on the rows.
pub record IsAllOrNothing {C W : Type 0} (Row : SqlxUser → W → Type 0) (tx : Transaction C W)
    : Type 1 where
  pub runs :
      {S : Type 0} (fn : C → Effect (S × W)) (locks : List Lock) (c : C) (a : S) (w : W)
      → Ran Row fn a w (tx.within_context fn locks c (a, w))

is_one : {K : Type 0} ⦃eq : Eq K⦄ → (k j : K) → (contains k (j ∷ []) && true) ≡ true → k ≡ j
unfolding contains
is_one k j h = let e : (j == k) ≡ true = ground (arith, h) in sym ((==_iff j k).0 e)

one_is : {K : Type 0} ⦃eq : Eq K⦄ → (k j : K) → k ≡ j → (contains k (j ∷ []) && true) ≡ true
unfolding contains
one_is k j h = let e : (j == k) ≡ true = (==_iff j k).1 (sym h) in rw (e)

module _ {C W : Type 0} (s : SqlUserRepository C W) (d : UserDatabase s) where
  open d use {Row}

  rows-Same : (w : W) → Same Row w w
  rows-Same w r = ((λ h. h), (λ h. h))

  -- What is found of what the database gets, where the conditions are those of `P`.
  convert_row-Found :
      (q : UserQuery) (P : SqlxUser → Type 0) (r : Result SqlxUser) (w : W)
      → ((x : SqlxUser) → matches q.conditions x ≡ true → P x)
      → ((x : SqlxUser) → P x → matches q.conditions x ≡ true)
      → Got Row q w r
      → Found Row P (convert_row s (r, w)).1 (convert_row s (r, w)).0
  unfolding convert_row
  convert_row-Found q P (ok r) w f g (Got.got _ h m) =
      let back : r ≡ row (s.to_domain_user r) = sym (d.converts r) in
      Found.found (s.to_domain_user r) (subst (λ x. Row x w) back h) (subst P back (f r m))
  convert_row-Found q P (err e) w f g (Got.no_rows _ n h) =
      rw (n) (Found.not_found _ refl (λ r k p. let a = h r k in let b = g r p in cc))
  convert_row-Found q P (err e) w f g (Got.failed _ n h) = rw (n) (Found.failed e h)

  find_one_built-Found :
      (c : C) (q : UserQuery) (P : SqlxUser → Type 0) (built : Option Error) (w : W)
      → s.db.build q ≡ built
      → ((x : SqlxUser) → matches q.conditions x ≡ true → P x)
      → ((x : SqlxUser) → P x → matches q.conditions x ≡ true)
      → let r = after_find_one_built s c q built w in Found Row P r.1 r.0
  unfolding after_find_one_built
  find_one_built-Found c q P (some e) w b f g = Found.failed _ (d.build_fails q e b)
  find_one_built-Found c q P none w b f g =
      convert_row-Found q P (s.db.get c q w).0 (s.db.get c q w).1 f g (d.gets c q w)

  pub finds_login :
      (c : C) (l : Text) (w : W)
      → let r = find_one_user s c (record { ids = []; logins = l ∷ [] }) w in
        Found Row (λ q. q.login ≡ l) r.1 r.0
  unfolding find_one_user build_find_query id_conditions login_conditions
  finds_login c l w =
      find_one_built-Found c _ (λ q. q.login ≡ l) _ w refl (λ x h. is_one x.login l h)
        (λ x h. one_is x.login l h)

  pub finds_id :
      (c : C) (id : Uuid) (w : W)
      → let r = find_one_user s c (record { ids = id ∷ []; logins = [] }) w in
        Found Row (λ q. q.id ≡ id) r.1 r.0
  unfolding find_one_user build_find_query id_conditions login_conditions
  finds_id c id w =
      find_one_built-Found c _ (λ q. q.id ≡ id) _ w refl (λ x h. is_one x.id id h)
        (λ x h. one_is x.id id h)

  convert_row-Same :
      (w : W) (r : Result SqlxUser × W) → Same Row w r.1 → Same Row w (convert_row s r).1
  unfolding convert_row
  convert_row-Same w (ok r, w') h = h
  convert_row-Same w (err e, w') h = elim (Bool-cases (is e Sentinel.no_rows)) [
    | inl n ↦ rw (n) h
    | inr n ↦ rw (n) h
  ]

  pub after_find_one_built-Same :
      (c : C) (q : UserQuery) (built : Option Error) (w : W)
      → Same Row w (after_find_one_built s c q built w).1
  unfolding after_find_one_built
  after_find_one_built-Same c q (some e) w = rows-Same w
  after_find_one_built-Same c q none w = convert_row-Same w (s.db.get c q w) (d.get_same c q w)

  upserted-Written :
      (user : User) (v w : W) (r : Option Error × W)
      → Same Row w v
      → Upserted Row (row user) v r
      → Written Row user w r
  upserted-Written user v w (none, w') h (Upserted.upserted _ a b k) =
      Written.written w' a (λ x y. elim (b x y) [ inl i ↦ inl i | inr (z, n) ↦ inr ((h x).1 z, n) ])
        (λ x n y. k x n ((h x).0 y))
  upserted-Written user v w (some e, w') h (Upserted.failed _ _ same) =
      Written.kept e w' (λ x. ((λ y. (same x).0 ((h x).0 y)), (λ y. (h x).1 ((same x).1 y))))

  after_upsert_built-Written :
      (c : C) (user : User) (built : Option Error) (v w : W)
      → Same Row w v
      → Written Row user w (after_upsert_built s c (row user) built v)
  unfolding after_upsert_built
  after_upsert_built-Written c user (some e) v w h = Written.kept _ v h
  after_upsert_built-Written c user none v w h =
      upserted-Written user v w (s.db.upsert c (row user) v) h (d.upserts c (row user) v)

  pub stored-Written :
      (c : C) (user : User) (w : W) (r : Option Error × W)
      → Same Row w r.1
      → Written Row user w
          (and_then (wrap_error (Error.wrap "dispatch events: %w") r) (store_row s c (row user)))
  unfolding store_row
  stored-Written c user w (some e, v) h = Written.kept _ v h
  stored-Written c user w (none, v) h =
      after_upsert_built-Written c user (s.db.build_upsert (row user)) v w h

  -- The repository keeps the table that the user service relies on, with any transaction that is all or
  -- nothing on these rows.
  unfoldable pub repository_table :
      (tx : Transaction C W) → IsAllOrNothing Row tx → Table (user_repository s) tx
  unfolding find_one_user store_user
  repository_table tx all_or_nothing = record {
    Row = Row;
    ids_distinct = d.ids_distinct;
    finds_login = finds_login;
    finds_id = finds_id;
    finds_same = λ c spec w. after_find_one_built-Same c _ _ w;
    next_same = d.uuid_same;
    stores = λ c user w.
        stored-Written c user w (s.dispatch c user.changes w) (d.dispatch_same c user.changes w);
    runs = all_or_nothing.runs;
  }
