-- ===== src/Idk/Once.antt =====
-- That a key is inserted once, over the SQL storage.
use go_service_template.Common.{
  ℕ, zero, suc, ◌≡◌, ◌≢◌, ap, String, string_eq, Option, none, some, List, Error, Result, ok, err,
}
use mathlib.Core.Path.{subst}
use go_service_template.Message.{Uuid}
use go_service_template.Sql.IdempotencyKey.{
  KeyRow, KeyClient, key_row, after_rows_affected, after_exec_insert, insert_built, insert_row,
  key_storage,
}
use go_service_template.Idk.{join, insert_key}

-- What an insertion does with the primary key: it affects a row exactly if the key is not there yet.
pub data Inserted {W : Type 0} (IsKey : Uuid → W → Type 0) (r : KeyRow) (w : W)
    : Result (Result ℕ) × W → Type 0 where
  inserted :
      (n : ℕ) (w' : W)
      → IsKey r.key w'
      → ((k : Uuid) → IsKey k w → IsKey k w')
      → ¬ IsKey r.key w
      → Inserted IsKey r w (ok (ok (suc n)), w')
  conflict : IsKey r.key w → Inserted IsKey r w (ok (ok zero), w)
  uncounted :
      (e : Error) (w' : W)
      → ((k : Uuid) → IsKey k w → IsKey k w')
      → Inserted IsKey r w (ok (err e), w')
  failed :
      (e : Error) (w' : W) → ((k : Uuid) → IsKey k w → IsKey k w') → Inserted IsKey r w (err e, w')

-- A database that holds the table of keys.
pub record KeyTable {W : Type 0} (client : KeyClient W) : Type 1 where
  pub IsKey : Uuid → W → Type 0
  pub inserts : (r : KeyRow) (w : W) → Inserted IsKey r w (client.exec_insert r w)

module _ {W : Type 0} (client : KeyClient W) (t : KeyTable client) where
  open t use {IsKey}

  after_exec_insert-none :
      (r : KeyRow) (w : W) (x : Result (Result ℕ) × W) (w' : W)
      → Inserted IsKey r w x
      → after_exec_insert x ≡ (none, w')
      → (¬ IsKey r.key w) × IsKey r.key w'
  unfolding after_exec_insert after_rows_affected
  after_exec_insert-none r w x w' (Inserted.inserted n v h k a) e =
      (a, subst (IsKey r.key) (ap (λ y. y.1) e) h)
  after_exec_insert-none r w x w' (Inserted.conflict h) e = cc
  after_exec_insert-none r w x w' (Inserted.uncounted f v k) e = cc
  after_exec_insert-none r w x w' (Inserted.failed f v k) e = cc

  insert_built-none :
      (r : KeyRow) (built : Option Error) (w w' : W)
      → insert_built client r built w ≡ (none, w')
      → (¬ IsKey r.key w) × IsKey r.key w'
  unfolding insert_built
  insert_built-none r (some f) w w' e = cc
  insert_built-none r none w w' e =
      after_exec_insert-none r w (client.exec_insert r w) w' (t.inserts r w) e

  pub insert_row-none :
      (key : Uuid) (extra : String) (w w' : W)
      → insert_row client key extra w ≡ (none, w')
      → (¬ IsKey (client.new_sha1 key extra) w) × IsKey (client.new_sha1 key extra) w'
  unfolding insert_row
  insert_row-none key extra w w' e = insert_built-none (key_row client key extra) _ w w' e

  -- After an `Insert` without an error, and while its key is kept, each `Insert` of the same key with extra
  -- keys that are joined to the same text returns an error, so the same extra keys are inserted once.
  pub insert_key_once :
      (key : Uuid) (extra_keys others : List String) (w after later : W)
      → insert_key (key_storage client) key extra_keys w ≡ (none, after)
      → join extra_keys ≡ join others
      → ((k : Uuid) → IsKey k after → IsKey k later)
      → (insert_key (key_storage client) key others later).0 ≢ none
  unfolding insert_key
  insert_key_once key extra_keys others w after later e j kept again =
      let there = kept _ (insert_row-none key (join extra_keys) w after e).1 in
      let fresh =
        (insert_row-none key (join others) later
          (insert_key (key_storage client) key others later).1
          (ap (λ r. (r, (insert_key (key_storage client) key others later).1)) again)).0 in
      fresh (subst (λ x. IsKey (client.new_sha1 key x) later) j there)
