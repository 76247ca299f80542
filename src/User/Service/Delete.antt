-- ===== src/User/Service/Delete.antt =====
-- `Delete` of internal/user/app/service/user.go: it marks the user as deleted, and keeps all else.
use mathlib.Core.Path.{subst}
use go_service_template.Common.{
  ◌≡◌, ◌≢◌, sym, ap, ◌∙◌, inl, inr, true, Option, none, some, Option-cases, Error, Result, ok, err,
}
use go_service_template.Message.{Uuid, wrap_error}
use go_service_template.User.{User, set_deleted_at}
use go_service_template.User.Stored.{SqlxUser, row, Found, Same, Written, Ran, Table}
use go_service_template.User.Service.{
  UserService, delete_found, after_find_id, delete_impl, with_unit, after_check, delete,
}

module _ {W : Type 0} (Row : SqlxUser → W → Type 0) where
  -- The user with the id, if there is one, is marked as deleted.
  abbrev pub IsGone : Uuid → W → Type 0
  IsGone id w = (r : SqlxUser) → Row r w → r.id ≡ id → r.deleted_at ≢ none

  -- The users with other ids are the same as before.
  abbrev pub KeepsOthers : Uuid → W → W → Type 0
  KeepsOthers id w w' = (r : SqlxUser) → r.id ≢ id → (Row r w → Row r w') × (Row r w' → Row r w)

  abbrev Succeeded : Uuid → Option Error × W → Type 0
  Succeeded id (none, w) = IsGone id w
  Succeeded id (some e, w) = Unit

  abbrev Fine : Uuid → W → Option Error × W → Type 0
  Fine id w r = KeepsOthers id w r.1 × Succeeded id r

  Same-trans : (u v w : W) → Same Row u v → Same Row v w → Same Row u w
  Same-trans u v w f g r = ((λ h. (g r).0 ((f r).0 h)), (λ h. (f r).1 ((g r).1 h)))

  Fine-after :
      (id : Uuid) (v w : W) (r : Option Error × W) → Same Row v w → Fine id w r → Fine id v r
  Fine-after id v w r f (keeps, gone) =
      ((λ x n. ((λ h. (keeps x n).0 ((f x).0 h)), (λ h. (f x).1 ((keeps x n).1 h)))), gone)

  Fine-before : (id : Uuid) (u v w : W) → Same Row v w → Fine id u (none, v) → Fine id u (none, w)
  Fine-before id u v w f (keeps, gone) = (
    (λ x n. ((λ h. (f x).0 ((keeps x n).0 h)), (λ h. (keeps x n).1 ((f x).1 h)))),
    (λ x h. gone x ((f x).1 h)),
  )

  -- The store of a user with the id that is marked as deleted.
  Written-Fine :
      (u : User) (w : W) (r : Option Error × W)
      → u.deleted_at ≢ none
      → Written Row u w r
      → Fine u.id w (wrap_error (Error.wrap "store user: %w") r)
  Written-Fine u w (none, w') d (Written.written _ h rows others) = (
    (λ x n. (
      others x n,
      (λ g. elim (rows x g) [ inl e ↦ absurd (n (ap (λ y. y.id) e)) | inr (o, _) ↦ o ]),
    )),
    (λ x g i. elim (rows x g) [
      | inl e ↦ λ z. d (sym (ap (λ y. y.deleted_at) e) ∙ z)
      | inr (_, n) ↦ absurd (n i)
    ]),
  )
  Written-Fine u w (some e, w') d (Written.kept _ _ same) = ((λ x n. same x), tt)

unit-injective :
    {W : Type 0} (r : Option Error × W) (b : Unit {0}) (v : W)
    → ◌≡◌ {A = Option Error × (Unit {0} × W)} (r.0, (tt, r.1)) (none, (b, v))
    → r ≡ (none, v)
unit-injective (e, w) b v h = cc

some-not_none {ℓ} : {A : Type ℓ} (a : A) → some a ≢ none
some-not_none a h = cc

module _ {C W : Type 0} (s : UserService C W) (t : Table s.user_repo s.transaction)
    (uuid_same : (w : W) → Same t.Row w (s.new_uuid w).1) where
  open t use {Row}

  Same-Fine : (id : Uuid) (w w' : W) (e : Error) → Same Row w w' → Fine Row id w (some e, w')
  Same-Fine id w w' e same = ((λ r n. same r), tt)

  delete_found-Fine :
      (c : C) (u : User) (w : W) → Row (row u) w → Fine Row u.id w (delete_found s c u w)
  unfolding delete_found set_deleted_at
  delete_found-Fine c u w h = elim (Option-cases u.deleted_at) [
    | inl e ↦ rw e (
        Fine-after Row u.id w (s.new_uuid w).1 _ (uuid_same w) (
          Written-Fine Row (set_deleted_at (s.now w) (s.new_uuid w).0 u) (s.new_uuid w).1 _
            (some-not_none _) (t.stores c _ _)))
    | inr (d, e) ↦ rw e (
      (λ r n. ((λ g. g), (λ g. g))),
      (λ r g i z.
          some-not_none d
            (sym e ∙ sym (ap (λ y. y.deleted_at) (t.ids_distinct w r (row u) g h i)) ∙ z)),
    )
  ]

  after_find_id-Fine :
      (c : C) (id : Uuid) (r : Result User × W)
      → Found Row (λ q. q.id ≡ id) r.1 r.0
      → Fine Row id r.1 (after_find_id s c r)
  unfolding after_find_id
  after_find_id-Fine c id (ok u, w) (Found.found _ h i) =
      subst (λ j. Fine Row j w (delete_found s c u w)) i (delete_found-Fine c u w h)
  after_find_id-Fine c id (err e, w) (Found.not_found _ i free) =
      rw i ((λ r n. ((λ g. g), (λ g. g))), (λ r g j. absurd (free r g j)))
  after_find_id-Fine c id (err e, w) (Found.failed _ i) = rw i ((λ r n. ((λ g. g), (λ g. g))), tt)

  delete_impl-Fine : (id : Uuid) (c : C) (w : W) → Fine Row id w (delete_impl s id c w)
  unfolding delete_impl
  delete_impl-Fine id c w =
      Fine-after Row id w _ _ (t.finds_same _ _ w)
        (after_find_id-Fine _ id _ (t.finds_id (s.transaction.lock_update true c) id w))

  Ran-Fine :
      (id : Uuid) (w : W) (r : Option Error × (Unit × W))
      → Ran Row (λ (c : C) ((a, v) : Unit × W). with_unit s a (delete_impl s id c v)) tt w r
      → Fine Row id w (r.0, r.1.1)
  Ran-Fine id w (none, (b, w')) (Ran.committed c v v' _ _ _ before eq after) =
      Fine-before Row id w v' w' after (
        Fine-after Row id w v (none, v') before
          (subst (Fine Row id v) (unit-injective _ b v' eq) (delete_impl-Fine id c v)))
  Ran-Fine id w (some e, (b, w')) (Ran.committed c v v' _ _ _ before eq after) = (
    (Fine-before Row id w v' w' after (
        Fine-after Row id w v (none, v') before
          (subst (Fine Row id v) (unit-injective _ b v' eq) (delete_impl-Fine id c v)))).0,
    tt,
  )
  Ran-Fine id w (some e, (b, w')) (Ran.rolled_back _ _ _ same) = Same-Fine id w w' e same

  after_check-Fine :
      (denied : Option Error) (id : Uuid) (c : C) (w : W)
      → Fine Row id w (after_check s denied id c w)
  unfolding after_check
  after_check-Fine (some e) id c w = Same-Fine id w w e (λ r. ((λ g. g), (λ g. g)))
  after_check-Fine none id c w = Ran-Fine id w _ (t.runs _ _ c tt w)

  -- `Delete` adds, removes and changes no user with another id, whatever its result.
  pub delete-KeepsOthers : (c : C) (id : Uuid) (w : W) → KeepsOthers Row id w (delete s c id w).1
  unfolding delete
  delete-KeepsOthers c id w = (after_check-Fine _ id c w).0

  -- After a `Delete` with no error, every user with the id is marked as deleted.
  pub delete-IsGone :
      (c : C) (id : Uuid) (w w' : W) → delete s c id w ≡ (none, w') → IsGone Row id w'
  unfolding delete
  delete-IsGone c id w w' eq = subst (Succeeded Row id) eq (after_check-Fine _ id c w).1
