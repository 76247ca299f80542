-- ===== src/User/Service/Register.antt =====
-- `Register` of internal/user/app/service/user.go: logins stay unique, and success means that the
-- user is there.
use mathlib.Core.Path.{subst}
use go_service_template.Common.{
  String, ◌≡◌, ◌≢◌, refl, sym, ap, ◌∙◌, ◌⊎◌, inl, inr, Bool, true, false, ◌||◌, Option, none, some,
  Option-cases, Bool-cases, arith, ◌==◌, ==_iff, string_eq, if◌then◌else◌, Error, Result, ok, err,
}
use go_service_template.Common.Text.{Text, trim_space, is_empty}
use go_service_template.Message.{Uuid}
use go_service_template.User.{User, assign, return_result, within_transaction_with_result}
use go_service_template.User.Stored.{SqlxUser, row, Found, Same, Written, Ran, Table}
use go_service_template.User.Service.{
  UserService, UserCredentials, check_existing, return_id, create_user, after_find_login,
  register_user_impl, after_hash, register,
}

module _ {W : Type 0} (Row : SqlxUser → W → Type 0) where
  -- No two users have one login.
  abbrev pub IsUnique : W → Type 0
  IsUnique w = (r q : SqlxUser) → Row r w → Row q w → r.login ≡ q.login → r ≡ q

  -- The registered user: it has the id, login and password, and is not deleted.
  abbrev pub IsRegistered : Text → String → Uuid → W → Type 0
  IsRegistered login password_hash id w =
      (r : SqlxUser) × Row r w
      × (r.id ≡ id)
      × (r.login ≡ login)
      × (r.password_hash ≡ password_hash)
      × (r.deleted_at ≡ none)

  -- What is proved of a step from `w`.
  abbrev Succeeded : Text → String → Result Uuid × W → Type 0
  Succeeded login hash (ok id, w) = IsRegistered login hash id w
  Succeeded login hash (err e, w) = Unit

  abbrev Fine : Text → String → W → Result Uuid × W → Type 0
  Fine login hash w r = (IsUnique w → IsUnique r.1) × Succeeded login hash r

  Succeeded-if :
      (login : Text) (hash : String) (b : Bool) (x y : Result Uuid × W)
      → Succeeded login hash x
      → Succeeded login hash y
      → Succeeded login hash (if b then x else y)
  Succeeded-if login hash true x y hx hy = hx
  Succeeded-if login hash false x y hx hy = hy

  IsUnique-Same : (w w' : W) → Same Row w w' → IsUnique w → IsUnique w'
  IsUnique-Same w w' same h r q hr hq = h r q ((same r).1 hr) ((same q).1 hq)

  IsRegistered-Same :
      (login : Text) (hash : String) (id : Uuid) (w w' : W)
      → Same Row w w'
      → IsRegistered login hash id w
      → IsRegistered login hash id w'
  IsRegistered-Same login hash id w w' same (r, h, i, l, p, d) = (r, (same r).0 h, i, l, p, d)

  check_existing-Succeeded :
      (login : Text) (hash : String) (u : User) (w : W)
      → Row (row u) w
      → u.login ≡ login
      → Succeeded login hash (check_existing hash u, w)
  unfolding check_existing
  check_existing-Succeeded login hash u w h l = elim (Option-cases u.deleted_at) [
    | inr (d, e) ↦ rw e tt
    | inl e ↦ elim (Bool-cases (u.password_hash == hash)) [
      | inl p ↦ rw (e, p) (row u, h, refl, l, (==_iff u.password_hash hash).0 p, e)
      | inr p ↦ rw (e, p) tt
    ]
  ]

  -- A stored user with a login that no row had.
  IsUnique-written :
      (u : User) (w w' : W)
      → ((r : SqlxUser) → Row r w → r.login ≢ u.login)
      → ((r : SqlxUser) → Row r w' → (r ≡ row u) ⊎ (Row r w × (r.id ≢ u.id)))
      → IsUnique w
      → IsUnique w'
  IsUnique-written u w w' free rows h r q hr hq l = elim (rows r hr) [
    | inl er ↦ elim (rows q hq) [
      | inl eq ↦ er ∙ sym eq
      | inr (oq, _) ↦ absurd (free q oq (sym l ∙ ap (λ x. x.login) er))
    ]
    | inr (or, _) ↦ elim (rows q hq) [
      | inl eq ↦ absurd (free r or (l ∙ ap (λ x. x.login) eq))
      | inr (oq, _) ↦ h r q or oq l
    ]
  ]

module _ {C W : Type 0} (s : UserService C W) (t : Table s.user_repo s.transaction) where
  open t use {Row}

  return_id-Fine :
      (u : User) (w : W) (r : Option Error × W)
      → u.deleted_at ≡ none
      → ((q : SqlxUser) → Row q w → q.login ≢ u.login)
      → Written Row u w r
      → Fine Row u.login u.password_hash w (return_id u.id r)
  unfolding return_id
  return_id-Fine u w (none, w') d free (Written.written _ h rows others) =
      (IsUnique-written Row u w w' free rows, (row u, h, refl, refl, refl, d))
  return_id-Fine u w (some e, w') d free (Written.kept _ _ same) = (IsUnique-Same Row w w' same, tt)

  create_user-Fine :
      (c : C) (login : Text) (hash : String) (w : W)
      → ((q : SqlxUser) → Row q w → q.login ≢ login)
      → Fine Row login hash w (create_user s c login hash w)
  unfolding create_user
  create_user-Fine c login hash w free =
      let same = t.next_same w in
      let fine =
        return_id-Fine _ (s.user_repo.next_id w).1 _ refl (λ q h. free q ((same q).1 h))
          (t.stores c _ (s.user_repo.next_id w).1) in
      ((λ h. fine.0 (IsUnique-Same Row _ _ same h)), fine.1)

  after_find_login-Fine :
      (c : C) (login : Text) (hash : String) (r : Result User × W)
      → Found Row (λ q. q.login ≡ login) r.1 r.0
      → Fine Row login hash r.1 (after_find_login s c login hash r)
  unfolding after_find_login
  after_find_login-Fine c login hash (ok u, w) (Found.found _ h l) =
      ((λ h. h), check_existing-Succeeded Row login hash u w h l)
  after_find_login-Fine c login hash (err e, w) (Found.not_found _ i free) =
      rw i (create_user-Fine c login hash w free)
  after_find_login-Fine c login hash (err e, w) (Found.failed _ i) = rw i ((λ h. h), tt)

  register_user_impl-Fine :
      (login : Text) (hash : String) (c : C) (w : W)
      → Fine Row login hash w (register_user_impl s login hash c w)
  unfolding register_user_impl
  register_user_impl-Fine login hash c w =
      let fine = after_find_login-Fine c login hash _ (t.finds_login c login w) in
      ((λ h. fine.0 (IsUnique-Same Row _ _ (t.finds_same c _ w) h)), fine.1)

  assign-ok : (x : Result Uuid × W) (b : Uuid) (v : W) → assign 0 x ≡ (none, (b, v)) → x ≡ (ok b, v)
  unfolding assign
  assign-ok (ok a, w) b v h = cc
  assign-ok (err e, w) b v h = cc

  committed-Fine :
      (login : Text) (hash : String) (w v v' w' : W) (b : Uuid) (x : Result Uuid × W)
      → Same Row w v
      → Same Row v' w'
      → assign 0 x ≡ (none, (b, v'))
      → Fine Row login hash v x
      → Fine Row login hash w (ok b, w')
  committed-Fine login hash w v v' w' b x before after eq fine =
      let f = subst (Fine Row login hash v) (assign-ok x b v' eq) fine in
      (
        (λ h. IsUnique-Same Row v' w' after (f.0 (IsUnique-Same Row w v before h))),
        IsRegistered-Same Row login hash b v' w' after f.1,
      )

  Ran-Fine :
      (login : Text) (hash : String) (fn : C → W → Result Uuid × W) (w : W)
      (r : Option Error × (Uuid × W))
      → ((c : C) (v : W) → Fine Row login hash v (fn c v))
      → Ran Row (λ (c : C) ((a, v) : Uuid × W). assign 0 (fn c v)) 0 w r
      → Fine Row login hash w (return_result r)
  unfolding return_result
  Ran-Fine login hash fn w (none, (b, w')) fine (Ran.committed c v v' _ _ _ before eq after) =
      committed-Fine login hash w v v' w' b (fn c v) before after eq (fine c v)
  Ran-Fine login hash fn w (some e, (b, w')) fine (Ran.committed c v v' _ _ _ before eq after) =
      ((committed-Fine login hash w v v' w' b (fn c v) before after eq (fine c v)).0, tt)
  Ran-Fine login hash fn w (some e, (b, w')) fine (Ran.rolled_back _ _ _ same) =
      (IsUnique-Same Row w w' same, tt)

  after_hash-IsUnique :
      (login : Text) (r : Result String) (c : C) (w : W)
      → IsUnique Row w
      → IsUnique Row (after_hash s login r c w).1
  unfolding after_hash within_transaction_with_result
  after_hash-IsUnique login (err e) c w h = h
  after_hash-IsUnique login (ok hash) c w h =
      (Ran-Fine (s.to_lower login) hash (register_user_impl s (s.to_lower login) hash) w _
          (register_user_impl-Fine (s.to_lower login) hash) (t.runs _ _ c 0 w)).0
        h

  -- `Register` keeps logins unique, whatever its input, and whichever of its calls fails.
  pub register-IsUnique :
      (c : C) (credentials : UserCredentials) (w : W)
      → IsUnique Row w
      → IsUnique Row (register s c credentials w).1
  unfolding register
  register-IsUnique c credentials w h = ground (
    arith,
    after_hash-IsUnique (trim_space credentials.login)
        (s.hash_password (trim_space credentials.password)) c w h,
  )

  after_hash-IsRegistered :
      (login : Text) (r : Result String) (hash : String) (c : C) (w : W)
      → r ≡ ok hash
      → Succeeded Row (s.to_lower login) hash (after_hash s login r c w)
  unfolding after_hash within_transaction_with_result
  after_hash-IsRegistered login r hash c w e =
      rw e
        (Ran-Fine (s.to_lower login) hash (register_user_impl s (s.to_lower login) hash) w _
          (register_user_impl-Fine (s.to_lower login) hash) (t.runs _ _ c 0 w)).1

  -- When `Register` returns an id, a user with it is stored that has the trimmed login in lower
  -- case and the hash of the trimmed password, and is not deleted.
  pub register-IsRegistered :
      (c : C) (credentials : UserCredentials) (hash : String) (w w' : W) (id : Uuid)
      → s.hash_password (trim_space credentials.password) ≡ ok hash
      → register s c credentials w ≡ (ok id, w')
      → IsRegistered Row (s.to_lower (trim_space credentials.login)) hash id w'
  unfolding register
  register-IsRegistered c credentials hash w w' id p eq =
      subst (Succeeded Row (s.to_lower (trim_space credentials.login)) hash) eq (
        Succeeded-if Row (s.to_lower (trim_space credentials.login)) hash
          (is_empty (trim_space credentials.login) || is_empty (trim_space credentials.password)) _
          _ tt
          (after_hash-IsRegistered (trim_space credentials.login)
            (s.hash_password (trim_space credentials.password)) hash c w p))

  after_hash_hashes :
      (login : Text) (r : Result String) (c : C) (w w' : W) (id : Uuid)
      → after_hash s login r c w ≡ (ok id, w')
      → (hash : String) × (r ≡ ok hash)
  unfolding after_hash
  after_hash_hashes login (ok hash) c w w' id h = (hash, refl)
  after_hash_hashes login (err e) c w w' id h = cc

  -- The password was hashed before an id was returned.
  pub register_hashes :
      (c : C) (credentials : UserCredentials) (w w' : W) (id : Uuid)
      → register s c credentials w ≡ (ok id, w')
      → (hash : String) × (s.hash_password (trim_space credentials.password) ≡ ok hash)
  unfolding register
  register_hashes c credentials w w' id h =
      elim (Bool-cases
        (is_empty (trim_space credentials.login) || is_empty (trim_space credentials.password))) [
          | inl b ↦ let z = rw (b, register) at h in cc
          | inr b ↦
              after_hash_hashes (trim_space credentials.login)
                (s.hash_password (trim_space credentials.password)) c w w' id
                (rw (b, register) at h)
        ]
