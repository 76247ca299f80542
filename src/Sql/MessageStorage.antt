-- ===== src/Sql/MessageStorage.antt =====
-- The table of stored messages of pkg/sql/messagestorage.go. A query that the code builds is a value,
-- and the database, which runs queries, is a parameter.
pub mod Table
pub mod Found
pub mod AtLeastOnce
mod Double
mod Examples
use Prim.Native.String.{◌++◌ as append}
use go_service_template.Common.{
  ℕ, zero, suc, String, Bool, Option, none, some, List, [], ◌∷◌, ◌++◌, map, Error, Result, ok, err,
}
use go_service_template.Message.{
  Message, Topic, Uuid, Time, Effect, StorageSpecification, Storage, wrap_error,
}
use go_service_template.Sql.Lock.{Session, with_session_level_lock}

-- A row of `message_storage`.
pub record Row : Type 0 where
  pub id : Uuid
  pub topic : Topic
  pub key : String
  pub payload : List ℕ
  pub scheduled_at : Time

-- The columns that are selected, as a `sqlxMessage`, are those of a row but for `scheduled_at`.
abbrev pub message_of : Row → Message
message_of r = record { id = r.id; topic = r.topic; key = r.key; payload = r.payload }

-- The conditions of `Where`.
pub data Condition : Type 0 where
  scheduled_at_lt_or_eq : Time → Condition
  id_not_eq : List Uuid → Condition
  topic_eq : List Topic → Condition
  id_eq : List Uuid → Condition

-- A `select` from `message_storage`, ordered by `scheduled_at`.
pub record Select : Type 0 where
  pub conditions : List Condition
  pub limit : Option ℕ

pub data Statement : Type 0 where
  -- with `on conflict (id, topic) do nothing`
  insert : List Row → Statement
  delete : List Condition → Statement

-- The methods of the `Client` with these queries; `build` and `build_select` are the errors of `ToSql`.
pub record Client (W : Type 0) : Type 0 where
  pub build_select : Select → Option Error
  pub build : Statement → Option Error
  pub select : Select → W → Result (List Row) × W
  pub exec : Statement → Effect W
  pub session : Session W

-- `if len(…) > 0`, and `if spec.Limit > 0`.
pub exclude_ids : List Uuid → List Condition
exclude_ids [] = []
exclude_ids (id ∷ ids) = Condition.id_not_eq (id ∷ ids) ∷ []

pub only_topics : List Topic → List Condition
only_topics [] = []
only_topics (t ∷ ts) = Condition.topic_eq (t ∷ ts) ∷ []

pub limit_of : ℕ → Option ℕ
limit_of zero = none
limit_of (suc n) = some (suc n)

unfoldable pub find_query : StorageSpecification → Select
unfolding exclude_ids only_topics limit_of
find_query spec = record {
  conditions =
      Condition.scheduled_at_lt_or_eq spec.scheduled_at_before ∷ exclude_ids spec.ids_excluded
      ++ only_topics spec.topics;
  limit = limit_of spec.limit;
}

abbrev pub row_of : Time → Message → Row
row_of scheduled_at msg = record {
  id = msg.id;
  topic = msg.topic;
  key = msg.key;
  payload = msg.payload;
  scheduled_at = scheduled_at;
}

-- `Lock` writes the name of its lock.
pub add_keys : String → List String → String
add_keys name [] = name
add_keys name (key ∷ keys) = add_keys (append (append name "_") key) keys

module _ {W : Type 0} (client : Client W) where
  unfoldable pub lock_storage : List String → W → Result (Effect W) × W
  unfolding add_keys
  lock_storage extra_keys w =
      with_session_level_lock client.session (add_keys "message_storage" extra_keys) w

  pub after_select : Result (List Row) × W → Result (List Row) × W
  after_select (err e, w) = (err (Error.wrap "select query: %w" e), w)
  after_select (ok rows, w) = (ok rows, w)

  pub select_built : Option Error → Select → W → Result (List Row) × W
  unfolding after_select
  select_built (some e) q w = (err (Error.wrap "build sql: %w" e), w)
  select_built none q w = after_select (client.select q w)

  pub messages_of : Result (List Row) × W → Result (List Message) × W
  messages_of (err e, w) = (err e, w)
  messages_of (ok rows, w) = (ok (map message_of rows), w)

  unfoldable pub find_messages : StorageSpecification → W → Result (List Message) × W
  unfolding find_query select_built messages_of
  find_messages spec w =
      messages_of (select_built (client.build_select (find_query spec)) (find_query spec) w)

  -- `query` names the statement in the text of an error.
  pub exec_built : Option Error → String → Statement → Effect W
  exec_built (some e) query q w = (some (Error.wrap "build sql: %w" e), w)
  exec_built none query q w = wrap_error (Error.wrap query) (client.exec q w)

  unfoldable pub store_messages : Time → List Message → Effect W
  unfolding exec_built
  store_messages scheduled_at [] w = (none, w)
  store_messages scheduled_at (msg ∷ msgs) w =
      let q = Statement.insert (map (row_of scheduled_at) (msg ∷ msgs)) in
      exec_built (client.build q) "insert query: %w" q w

  unfoldable pub delete_messages : Topic → List Uuid → Effect W
  unfolding exec_built
  delete_messages topic [] w = (none, w)
  delete_messages topic (id ∷ ids) w =
      let q =
        Statement.delete (Condition.topic_eq (topic ∷ []) ∷ Condition.id_eq (id ∷ ids) ∷ []) in
      exec_built (client.build q) "delete query: %w" q w

  -- `NewMessageStorage`.
  abbrev pub message_storage : Storage W
  message_storage = record {
    lock = lock_storage;
    find = find_messages;
    store = store_messages;
    delete = delete_messages;
  }
