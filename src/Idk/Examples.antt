-- ===== src/Idk/Examples.antt =====
-- A table of keys that is a list of them.
use go_service_template.Common.{
  ℕ, ◌≡◌, ◌≢◌, refl, inl, inr, string_eq, nat_eq, true, none, List, [], ◌∷◌, Result, ok, Bool-cases,
  ==_refl, if◌then◌else◌, arith,
}
use go_service_template.Common.Assoc.{contains}
use go_service_template.Message.{Uuid}
use go_service_template.Sql.IdempotencyKey.{
  KeyRow, KeyClient, key_storage, insert_row, insert_built, after_exec_insert, after_rows_affected,
}
use go_service_template.Idk.{join, insert_key}
use go_service_template.Idk.Once.{Inserted, KeyTable, insert_key_once}

abbrev pub IsListed : Uuid → List Uuid → Type 0
IsListed k w = contains k w ≡ true

abbrev pub put : KeyRow → List Uuid → Result (Result ℕ) × List Uuid
put r w = if contains r.key w then (ok (ok 0), w) else (ok (ok 1), r.key ∷ w)

abbrev pub client : KeyClient (List Uuid)
client = record {
  build_insert = λ r. none;
  build_delete = λ t. none;
  exec_insert = put;
  exec_delete = λ t w. (none, []);
  new_sha1 = λ key extra. key;
}

listed : (k : Uuid) (w : List Uuid) → IsListed k (k ∷ w)
unfolding contains
listed k w = let e = ==_refl k in ground (arith, e)

still_listed : (j k : Uuid) (w : List Uuid) → IsListed k w → IsListed k (j ∷ w)
unfolding contains
still_listed j k w h = ground (arith, h)

pub put-Inserted : (r : KeyRow) (w : List Uuid) → Inserted IsListed r w (put r w)
put-Inserted r w = elim (Bool-cases (contains r.key w)) [
  | inl e ↦ rw (e) (Inserted.conflict e)
  | inr e ↦
      rw (e) (
        Inserted.inserted 0 (r.key ∷ w) (listed r.key w) (λ k h. still_listed r.key k w h)
          (λ h. cc))
]

abbrev pub table : KeyTable client
table = record { IsKey = IsListed; inserts = put-Inserted }

-- Two lists of extra keys that are joined to one text: the second is taken for the first.
insert_key_once_example : (insert_key (key_storage client) 3 ("a" ∷ "b_c" ∷ []) (3 ∷ [])).0 ≢ none
unfolding insert_key insert_row insert_built after_exec_insert after_rows_affected contains join
insert_key_once_example =
    insert_key_once client table 3 ("a_b" ∷ "c" ∷ []) ("a" ∷ "b_c" ∷ []) [] (3 ∷ []) (3 ∷ []) refl
      refl (λ k h. h)
