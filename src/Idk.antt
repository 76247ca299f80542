-- ===== src/Idk.antt =====
-- Idempotency keys: pkg/idk/service.go over its storage.
pub mod Once
pub mod Examples
use Prim.Native.String.{◌++◌}
use go_service_template.Common.{ℕ, ◌-◌, ◌*◌, String, Option, none, some, List, [], ◌∷◌}
use go_service_template.Message.{Uuid, Time, Effect}

pub record KeyStorage (W : Type 0) : Type 0 where
  pub insert : Uuid → String → Effect W
  pub delete : Time → Effect W

-- In nanoseconds.
abbrev pub key_ttl : ℕ
key_ttl = 24 * 3600000000000

-- `strings.Join(extraKeys, "_")`, which is empty if there are none.
unfoldable pub join : List String → String
join [] = ""
join (k ∷ []) = k
join (k ∷ j ∷ keys) = k ++ ("_" ++ join (j ∷ keys))

abbrev pub joined_after : String → List String → String
joined_after key [] = key
joined_after key (k ∷ keys) = key ++ ("_" ++ join (k ∷ keys))

module _ {W : Type 0} (storage : KeyStorage W) where
  -- `Insert`.
  unfoldable pub insert_key : Uuid → List String → Effect W
  unfolding join
  insert_key key extra_keys w = storage.insert key (join extra_keys) w

  -- `InsertString`; `uuid.Nil` is 0.
  unfoldable pub insert_string : String → List String → Effect W
  unfolding join
  insert_string key extra_keys w = storage.insert 0 (joined_after key extra_keys) w

  -- `DeleteOutdated`, at a time of at least `key_ttl`.
  unfoldable pub delete_outdated : (W → Time) → Effect W
  delete_outdated now w = storage.delete (now w - key_ttl) w
