-- ===== src/Sql/MessageStorage/Examples.antt =====
-- Runs of the message storage, and of the outbox over it, on a database in memory.
use mathlib.Core.Path.{subst}
use go_service_template.Common.{
  sym, ap, ◌∙◌, ◌==◌, ==_refl, ◌&&◌, ◌≡◌, refl, ◌⊎◌, true, none, some, [], ◌∷◌, any, Result, ok,
  err, arith, nat_eq, string_eq,
}
use go_service_template.Common.Assoc.{contains}
use go_service_template.Message.{Message, StorageSpecification}
use go_service_template.Message.Outbox.{
  Outbox, call_each, call_each_with, process_impl, after_batch, process_batch, after_lock,
  process_locked, after_release, after_find, deliver_all, deliver, after_produce, after_delete,
  after_deliver,
}
use go_service_template.Sql.Lock.{
  with_session_level_lock, after_lock_id, after_connection, after_exec_lock, release_lock,
  after_unlock,
}
use go_service_template.Sql.Lock.Steps.{Calls}
use go_service_template.Sql.MessageStorage.{
  Row, message_of, find_query, find_messages, lock_storage, delete_messages, select_built,
  after_select, messages_of, exclude_ids, only_topics, limit_of, exec_built,
}
use go_service_template.Sql.MessageStorage.Table.{run}
use go_service_template.Sql.MessageStorage.Found.{IsFound, find_messages-IsFound}
use go_service_template.Sql.MessageStorage.AtLeastOnce.{
  over_sql, IsStored, Quiet, Sending, process_impl-over_sql,
}
use go_service_template.Sql.MessageStorage.Double.{Memory, answer, client, database}

abbrev early : Row
early = record { id = 1; topic = "users"; key = ""; payload = []; scheduled_at = 5 }

abbrev late : Row
late = record { id = 2; topic = "users"; key = ""; payload = []; scheduled_at = 9 }

abbrev two_rows : Memory
two_rows = record { stored = early ∷ late ∷ []; sent = []; connections = 0 }

abbrev due_users : StorageSpecification
due_users = record { ids_excluded = []; topics = "users" ∷ []; scheduled_at_before = 7; limit = 10 }

find_example : find_messages client due_users two_rows ≡ (ok (message_of early ∷ []), two_rows)
unfolding find_messages find_query select_built after_select messages_of exclude_ids only_topics
    limit_of client answer contains
find_example = refl

find_messages-IsFound_example : IsFound database due_users two_rows two_rows (message_of early ∷ [])
find_messages-IsFound_example =
    find_messages-IsFound database due_users two_rows two_rows (message_of early ∷ []) find_example

-- An outbox that sends into the memory.
abbrev sender : Outbox Memory
sender = record {
  batch_size = 2;
  on_internal_error = [];
  on_found_messages = [];
  on_sent_message = [];
  on_deleted_message = [];
  storage = record {
    lock = λ keys w. (ok (λ v. (none, v)), w);
    find = λ spec w. (ok [], w);
    store = λ at ms w. (none, w);
    delete = λ t ids w. (none, w);
  };
  produce = λ m w. (none, record w { sent = m ∷ w.sent });
  now = λ w. 7;
}

abbrev WasSent : Message → Memory → Type 0
WasSent m w = any (λ s. s.topic == m.topic && s.id == m.id) w.sent ≡ true

still_sent : (m x : Message) (w : Memory) → WasSent x w → WasSent x (record w { sent = m ∷ w.sent })
still_sent m x w h = ground (arith)

abbrev cancel_of : Result (Memory → Memory) × Memory → Memory → Memory
cancel_of (ok cancel, w) = cancel
cancel_of (err e, w) = λ v. v

early-IsStored : IsStored database (message_of early) two_rows
unfolding database
early-IsStored = refl

calls : Calls client.session (Quiet database WasSent)
unfolding client database
calls = record {
  still = λ w. record { rows = refl; sent = λ m h. h };
  then_quiet = λ u v w a b. record { rows = b.rows ∙ a.rows; sent = λ m h. b.sent m (a.sent m h) };
  single_connection = λ w. record { rows = refl; sent = λ m h. h };
  cancels = λ w w' cancel e v. record {
    rows = sym (ap (λ r. (cancel_of r v).stored) e);
    sent = λ m h.
        subst (λ ms. any (λ s. s.topic == m.topic && s.id == m.id) ms ≡ true)
          (ap (λ r. (cancel_of r v).sent) e) h;
  };
  exec_lock = λ id w. record { rows = refl; sent = λ m h. h };
  get_unlock = λ id w. record { rows = refl; sent = λ m h. h };
}

sends : (m : Message) (w w' : Memory) → sender.produce m w ≡ (none, w') → WasSent m w'
sends m w w' e =
    subst (WasSent m) (ap (λ r. r.1) e)
      (let p = ==_refl m.topic in let q = ==_refl m.id in ground arith)

sending : Sending database WasSent sender
unfolding client database call_each call_each_with
sending = record {
  selects = λ q w m h. h;
  execs = λ q w m h. h;
  calls = calls;
  produces = λ m w. record { rows = refl; sent = λ x h. still_sent m x w h };
  produce_sends = sends;
  on_error = λ e w. record { rows = refl; sent = λ m h. h };
  on_found = λ ms e w. record { rows = refl; sent = λ m h. h };
  on_sent = λ m e w. record { rows = refl; sent = λ x h. h };
  on_deleted = λ m e w. record { rows = refl; sent = λ x h. h };
}

abbrev one_sent : Memory
one_sent = record { stored = late ∷ []; sent = message_of early ∷ []; connections = 0 }

run_example : process_impl (over_sql client sender) 1 two_rows ≡ some (none, one_sent)
unfolding process_impl after_batch process_batch after_lock process_locked after_release after_find
    deliver_all deliver after_produce after_delete after_deliver call_each call_each_with
    lock_storage with_session_level_lock after_lock_id after_connection after_exec_lock release_lock
    after_unlock find_messages find_query select_built after_select messages_of exclude_ids
    only_topics limit_of delete_messages exec_built client answer run contains
run_example = refl

process_impl-over_sql_example :
    IsStored database (message_of early) one_sent
    ⊎ ((m : Message) × (m.topic ≡ "users") × (m.id ≡ 1) × WasSent m one_sent)
process_impl-over_sql_example =
    process_impl-over_sql database WasSent sending 1 (message_of early) two_rows none one_sent
      run_example early-IsStored
