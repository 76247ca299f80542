-- ===== src/UserProfile/Deleted.antt =====
-- That an event of a deleted user takes effect at most once, over the SQL storage of idempotency keys.
mod Examples
use mathlib.Core.Path.{subst}
use go_service_template.Common.{
  ℕ, ◌≡◌, refl, sym, ap, ◌∙◌, ◌⊎◌, inl, inr, String, Bool, true, false, Bool-cases, Option, none,
  some, List, [], ◌∷◌, Error, Sentinel, is, Result, ok, err,
}
use go_service_template.Message.{Uuid, Effect, and_then, and_then-none}
use go_service_template.Idk.{insert_key, join}
use go_service_template.Idk.Once.{KeyTable, insert_row-none}
use go_service_template.Sql.IdempotencyKey.{KeyClient, key_storage}
use go_service_template.User.{Transaction, UserDeleted, Lock}
use go_service_template.UserProfile.{
  RemoteUser, UserProfileService, is_removed, after_delete_profile, delete_once, after_get_user,
  handle_user_deleted,
}

-- What `WithinContext` does: the function ran without an error and its writes were committed, or the data are
-- those of before. An error may still be reported of a commit that took place.
pub data Transacted {C W S D : Type 0} (data_of : W → D) (fn : C → Effect (S × W)) (a : S) (w : W)
    : Option Error × (S × W) → Type 0 where
  committed :
      (c : C) (v v' : W) (b : S) (e : Option Error) (w' : W)
      → data_of v ≡ data_of w
      → fn c (a, v) ≡ (none, (b, v'))
      → data_of w' ≡ data_of v'
      → Transacted data_of fn a w (e, (b, w'))
  rolled_back :
      (e : Error) (b : S) (w' : W)
      → data_of w' ≡ data_of w
      → Transacted data_of fn a w (some e, (b, w'))

module _ {C W : Type 0} (s : UserProfileService C W) (client : KeyClient W)
    (t : KeyTable client) where
  -- The service with the keys.
  abbrev pub over_keys : UserProfileService C W
  over_keys = record s {
    insert_key = λ c key extra w. insert_key (key_storage client) key (extra ∷ []) w;
  }

  -- What is relied on: the keys are part of the data, a call of the user service does not change the
  -- data, a deletion of a profile keeps the keys, and a transaction is all or nothing.
  pub record IsStored (D : Type 0) : Type 1 where
    pub data_of : W → D
    pub same_keys : (k : Uuid) (w w' : W) → data_of w ≡ data_of w' → t.IsKey k w → t.IsKey k w'
    pub gets : (c : C) (id : Uuid) (w : W) → data_of (s.get_user c id w).1 ≡ data_of w
    pub deletes :
        (c : C) (id k : Uuid) (w : W) → t.IsKey k w → t.IsKey k (s.delete_profile_by_id c id w).1
    pub runs :
        {S : Type 0} (fn : C → Effect (S × W)) (locks : List Lock) (c : C) (a : S) (w : W)
        → Transacted data_of fn a w (s.transaction.within_context fn locks c (a, w))

after_delete_profile-kept : {W : Type 0} (r : Option Error × W) → (after_delete_profile r).1 ≡ r.1
unfolding after_delete_profile
after_delete_profile-kept (none, w) = refl
after_delete_profile-kept (some e, w) =
    elim (Bool-cases (is e Sentinel.domain_user_profile_not_found)) [
      | inl h ↦ rw (h) refl
      | inr h ↦ rw (h) refl
    ]

module _ {C W D : Type 0} (s : UserProfileService C W) (client : KeyClient W) (t : KeyTable client)
    (i : IsStored s client t D) (event : UserDeleted) where
  open i use {data_of}

  -- The idempotency key of the event.
  abbrev event_key : Uuid
  event_key = client.new_sha1 event.event_id (join ("handle_user_deleted" ∷ []))

  -- The data are those of before, or the key of the event was not there and is there now.
  abbrev AtMostOnce : W → W → Type 0
  AtMostOnce w w' = (data_of w' ≡ data_of w) ⊎ ((¬ t.IsKey event_key w) × t.IsKey event_key w')

  delete_once-none :
      (c : C) (w w' : W)
      → delete_once (over_keys s client t) event c w ≡ (none, w')
      → (¬ t.IsKey event_key w) × t.IsKey event_key w'
  unfolding delete_once insert_key
  delete_once-none c w w' e =
      let (between, inserted, deleted) =
        and_then-none
          (insert_key (key_storage client) event.event_id ("handle_user_deleted" ∷ []) w) _ w' e in
      let (fresh, there) =
        insert_row-none client t event.event_id (join ("handle_user_deleted" ∷ [])) w between
          inserted in
      let after = s.delete_profile_by_id c event.user_id between in
      (
        fresh,
        subst (t.IsKey event_key) (sym (after_delete_profile-kept after) ∙ ap (λ r. r.1) deleted)
            (i.deletes c event.user_id event_key between there),
      )

  -- The function that the transaction runs.
  abbrev deleting : C → Unit {0} × W → Option Error × (Unit {0} × W)
  deleting c (a, w) = let (e, w') = delete_once (over_keys s client t) event c w in (e, (a, w'))

  after_transaction-AtMostOnce :
      (w : W) (r : Option Error × (Unit {0} × W))
      → Transacted data_of deleting tt w r
      → AtMostOnce w r.1.1
  after_transaction-AtMostOnce w r (Transacted.rolled_back e b w' h) = inl h
  after_transaction-AtMostOnce w r (Transacted.committed c v v' b e w' before ran after) =
      let done : delete_once (over_keys s client t) event c v ≡ (none, v') =
        ap (λ x. (x.0, x.1.1)) ran in
      let (fresh, there) = delete_once-none c v v' done in
      inr (
        (λ k. fresh (i.same_keys event_key w v (sym before) k)),
        i.same_keys event_key v' w' (sym after) there,
      )

  after_get_user-AtMostOnce :
      (c : C) (r : Result RemoteUser × W)
      → AtMostOnce r.1 (after_get_user (over_keys s client t) event c r).1
  unfolding after_get_user
  after_get_user-AtMostOnce c (ok u, w) = elim (Bool-cases (is_removed u)) [
    | inl h ↦ rw (h) (
        after_transaction-AtMostOnce w (s.transaction.within_context deleting [] c (tt, w))
          (i.runs deleting [] c tt w))
    | inr h ↦ rw (h) (inl refl)
  ]
  after_get_user-AtMostOnce c (err e, w) = elim (Bool-cases (is e Sentinel.client_user_not_found)) [
    | inl h ↦ rw (h) (inl refl)
    | inr h ↦ rw (h) (inl refl)
  ]

  handle_user_deleted-AtMostOnce :
      (c : C) (w : W) → AtMostOnce w (handle_user_deleted (over_keys s client t) c event w).1
  unfolding handle_user_deleted
  handle_user_deleted-AtMostOnce c w =
      elim (after_get_user-AtMostOnce c (s.get_user c event.user_id w)) [
        | inl h ↦ inl (h ∙ i.gets c event.user_id w)
        | inr (fresh, there) ↦
            inr ((λ k. fresh (i.same_keys event_key w _ (sym (i.gets c event.user_id w)) k)), there)
      ]

  -- Of two deliveries of one event, with its key kept between them, at most one changes the data, whatever
  -- errors they return.
  pub handle_user_deleted_twice :
      (c d : C) (w later : W)
      → (t.IsKey event_key (handle_user_deleted (over_keys s client t) c event w).1
          → t.IsKey event_key later)
      → (data_of (handle_user_deleted (over_keys s client t) c event w).1 ≡ data_of w)
        ⊎ (data_of (handle_user_deleted (over_keys s client t) d event later).1 ≡ data_of later)
  handle_user_deleted_twice c d w later kept = elim (handle_user_deleted-AtMostOnce c w) [
    | inl h ↦ inl h
    | inr (_, there) ↦ elim (handle_user_deleted-AtMostOnce d later) [
      | inl h ↦ inr h
      | inr (fresh, _) ↦ absurd (fresh (kept there))
    ]
  ]
