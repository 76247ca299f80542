-- ===== src/UserProfile/Repository/Rows.antt =====
-- What the repository of profiles reads after it has written, over a database that keeps the rows.
use mathlib.Core.Path.{subst}
use go_service_template.Common.{
  ℕ, zero, suc, ◌≡◌, ◌≢◌, refl, sym, ap, ◌∙◌, Bool, true, false, Option, none, some, Error,
  Sentinel, is, Result, ok, err,
}
use go_service_template.Message.{Uuid}
use go_service_template.UserProfile.{UserProfile}
use go_service_template.UserProfile.Repository.{
  SqlxUserProfile, ProfileQuery, ProfileClient, profile_row, after_deleted_rows, after_exec_delete,
  store_built, store_profile_row, convert_profile, find_built, find_profile_row,
  delete_profile_built, delete_profile_row,
}

-- What the database gets: the row of the id, `sql.ErrNoRows` if there is none, or another error.
pub data Got {W : Type 0} (Row : SqlxUserProfile → W → Type 0) (id : Uuid) (w : W)
    : Result SqlxUserProfile → Type 0 where
  got : (r : SqlxUserProfile) → Row r w → r.id ≡ id → Got Row id w (ok r)
  no_rows :
      (e : Error)
      → is e Sentinel.no_rows ≡ true
      → ((r : SqlxUserProfile) → Row r w → r.id ≢ id)
      → Got Row id w (err e)
  failed :
      (e : Error)
      → is e Sentinel.no_rows ≡ false
      → is e Sentinel.domain_user_profile_not_found ≡ false
      → Got Row id w (err e)

-- A database that holds the table of profiles, and a converter that copies the columns.
pub record ProfileTable {C W : Type 0} (client : ProfileClient C W) : Type 1 where
  pub Row : SqlxUserProfile → W → Type 0
  pub ids_distinct : (w : W) (r q : SqlxUserProfile) → Row r w → Row q w → r.id ≡ q.id → r ≡ q
  pub gets : (c : C) (id : Uuid) (w : W) → Got Row id w (client.get c id w).0
  pub upserts :
      (c : C) (r : SqlxUserProfile) (w w' : W) → client.exec_upsert c r w ≡ (none, w') → Row r w'
  pub deletes :
      (c : C) (id : Uuid) (w w' : W) (n : ℕ)
      → client.exec_delete c id w ≡ (ok (ok n), w')
      → (r : SqlxUserProfile) → Row r w'
      → r.id ≢ id
  pub build_fails :
      (q : ProfileQuery) (e : Error)
      → client.build q ≡ some e
      → is e Sentinel.domain_user_profile_not_found ≡ false
  pub converts : (p : UserProfile) → client.to_domain_user_profile (profile_row p) ≡ p

abbrev pub is_ok : {A : Type 0} → Result A → Bool
is_ok (ok a) = true
is_ok (err e) = false

-- What is read: the profile, or an error that does not tell that there is none.
pub data Reads (p : UserProfile) : Result UserProfile → Type 0 where
  read : Reads p (ok p)
  unread : (e : Error) → is e Sentinel.domain_user_profile_not_found ≡ false → Reads p (err e)

module _ {C W : Type 0} (client : ProfileClient C W) (t : ProfileTable client) where
  open t use {Row}

  store_built-Row :
      (c : C) (r : SqlxUserProfile) (built : Option Error) (w w' : W)
      → store_built client c r built w ≡ (none, w')
      → Row r w'
  unfolding store_built
  store_built-Row c r (some e) w w' h = cc
  store_built-Row c r none w w' h = t.upserts c r w w' h

  convert_profile-Reads :
      (p : UserProfile) (r : Result SqlxUserProfile) (v w : W)
      → Row (profile_row p) w
      → Got Row p.id w r
      → Reads p (convert_profile client (r, v)).0
  unfolding convert_profile
  convert_profile-Reads p (ok r) v w there (Got.got _ h i) =
      let same : profile_row p ≡ r = t.ids_distinct w (profile_row p) r there h (sym i) in
      subst (λ x. Reads p (ok x)) (sym (t.converts p) ∙ ap client.to_domain_user_profile same)
        Reads.read
  convert_profile-Reads p (err e) v w there (Got.no_rows _ n h) =
      absurd (h (profile_row p) there refl)
  convert_profile-Reads p (err e) v w there (Got.failed _ n d) = rw (n) (Reads.unread e d)

  find_built-Reads :
      (c : C) (p : UserProfile) (built : Option Error) (w : W)
      → client.build (ProfileQuery.select_by_id p.id) ≡ built
      → Row (profile_row p) w
      → Reads p (find_built client c p.id built w).0
  unfolding find_built
  find_built-Reads c p (some e) w b there = Reads.unread _ (t.build_fails _ e b)
  find_built-Reads c p none w b there =
      convert_profile-Reads p (client.get c p.id w).0 (client.get c p.id w).1 w there
        (t.gets c p.id w)

  -- After a `Store` without an error `FindByID` returns the profile as it was stored, or an error other
  -- than that there is none.
  pub find_profile_row-store :
      (c : C) (p : UserProfile) (w w' : W)
      → store_profile_row client c p w ≡ (none, w')
      → Reads p (find_profile_row client c p.id w').0
  unfolding find_profile_row store_profile_row
  find_profile_row-store c p w w' h =
      find_built-Reads c p _ w' refl (store_built-Row c (profile_row p) _ w w' h)

  abbrev IsGone : Uuid → W → Type 0
  IsGone id w = (r : SqlxUserProfile) → Row r w → r.id ≢ id

  after_exec_delete-IsGone :
      (c : C) (id : Uuid) (w w' : W) (r : Result (Result ℕ) × W)
      → client.exec_delete c id w ≡ r
      → after_exec_delete r ≡ (none, w')
      → IsGone id w'
  unfolding after_exec_delete after_deleted_rows
  after_exec_delete-IsGone c id w w' (err e, v) d h = cc
  after_exec_delete-IsGone c id w w' (ok (err e), v) d h = cc
  after_exec_delete-IsGone c id w w' (ok (ok zero), v) d h = cc
  after_exec_delete-IsGone c id w w' (ok (ok (suc n)), v) d h =
      subst (IsGone id) (ap (λ x. x.1) h) (t.deletes c id w v (suc n) d)

  delete_profile_built-IsGone :
      (c : C) (id : Uuid) (built : Option Error) (w w' : W)
      → delete_profile_built client c id built w ≡ (none, w')
      → IsGone id w'
  unfolding delete_profile_built
  delete_profile_built-IsGone c id (some e) w w' h = cc
  delete_profile_built-IsGone c id none w w' h =
      after_exec_delete-IsGone c id w w' (client.exec_delete c id w) refl h

  convert_profile_gone :
      (id : Uuid) (r : Result SqlxUserProfile) (v w : W)
      → IsGone id w
      → Got Row id w r
      → is_ok (convert_profile client (r, v)).0 ≡ false
  unfolding convert_profile
  convert_profile_gone id (ok r) v w gone (Got.got _ h i) = absurd (gone r h i)
  convert_profile_gone id (err e) v w gone (Got.no_rows _ n h) = rw (n)
  convert_profile_gone id (err e) v w gone (Got.failed _ n d) = rw (n)

  find_built_gone :
      (c : C) (id : Uuid) (built : Option Error) (w : W)
      → IsGone id w
      → is_ok (find_built client c id built w).0 ≡ false
  unfolding find_built
  find_built_gone c id (some e) w gone = refl
  find_built_gone c id none w gone =
      convert_profile_gone id (client.get c id w).0 (client.get c id w).1 w gone (t.gets c id w)

  -- After a `DeleteByID` without an error `FindByID` returns no profile.
  pub find_profile_row-delete :
      (c : C) (id : Uuid) (w w' : W)
      → delete_profile_row client c id w ≡ (none, w')
      → is_ok (find_profile_row client c id w').0 ≡ false
  unfolding find_profile_row delete_profile_row
  find_profile_row-delete c id w w' h =
      find_built_gone c id _ w' (delete_profile_built-IsGone c id _ w w' h)
