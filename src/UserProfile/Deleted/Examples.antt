-- ===== src/UserProfile/Deleted/Examples.antt =====
-- A service whose data are the keys that were inserted.
use go_service_template.Common.{
  ◌≡◌, refl, ◌⊎◌, Option, none, some, List, [], ◌∷◌, Error, ok, nat_eq,
}
use mathlib.Core.Path.{subst}
use go_service_template.Message.{Uuid, Effect}
use go_service_template.Common.Assoc.{contains}
use go_service_template.Idk.Examples.{client, table}
use go_service_template.User.{Transaction, UserDeleted}
use go_service_template.UserProfile.{UserProfileService, handle_user_deleted}
use go_service_template.UserProfile.Deleted.{
  Transacted, IsStored, over_keys, handle_user_deleted_twice,
}

abbrev World : Type 0
World = List Uuid

-- A transaction without an error keeps what was written, and another does not.
abbrev settle : {S : Type 0} → S → World → Option Error × (S × World) → Option Error × (S × World)
settle a w (none, r) = (none, r)
settle a w (some e, r) = (some e, (a, w))

abbrev database : Transaction Uuid World
database = record {
  within_context = λ fn locks c (a, w). settle a w (fn c (a, w));
  lock_update = λ exclusively c. c;
}

settled :
    {S : Type 0}
    → (fn : Uuid → Effect (S × World)) (c : Uuid) (a : S) (w : World)
      (r : Option Error × (S × World))
    → fn c (a, w) ≡ r
    → Transacted (λ v. v) fn a w (settle a w r)
settled fn c a w (none, (b, w')) e = Transacted.committed c w w' b none w' refl e refl
settled fn c a w (some f, r) e = Transacted.rolled_back f a w refl

abbrev service : UserProfileService Uuid World
service = record {
  get_user = λ c id w. (ok (record { id = id; deleted_at = some 5 }), w);
  store_profile = λ c p w. (none, w);
  find_profile_by_id = λ c id w. (ok (record { id = id; first_name = []; last_name = [] }), w);
  delete_profile_by_id = λ c id w. (none, w);
  authentication = λ c. none;
  insert_key = λ c id key w. (none, w);
  transaction = database;
}

abbrev stored : IsStored service client table World
stored = record {
  data_of = λ w. w;
  same_keys = λ k w w' e h. subst (table.IsKey k) e h;
  gets = λ c id w. refl;
  deletes = λ c id k w h. h;
  runs = λ fn locks c a w. settled fn c a w (fn c (a, w)) refl;
}

abbrev event : UserDeleted
event = record { event_id = 4; user_id = 9 }

handle_user_deleted_twice_example :
    (stored.data_of (handle_user_deleted (over_keys service client table) 0 event []).1 ≡ [])
    ⊎ (stored.data_of (handle_user_deleted (over_keys service client table) 1 event (4 ∷ [])).1
        ≡ 4 ∷ [])
unfolding contains
handle_user_deleted_twice_example =
    handle_user_deleted_twice service client table stored event 0 1 [] (4 ∷ []) (λ k. refl)
