-- ===== src/Sql/MessageStorage/AtLeastOnce.antt =====
-- The outbox over the table of stored messages: what pkg/message/outbox.go relies on is what
-- pkg/sql/messagestorage.go does, so that delivery is at least once down to the rows.
use mathlib.Core.Path.{subst}
use go_service_template.Common.{
  ◌≡◌, refl, sym, ap, ◌∙◌, ◌⊎◌, inl, inr, true, false, not, ◌&&◌, Option, none, some, List, [], ◌∷◌,
  ◌==◌, ==_iff, nat_eq, string_eq, any, any_cong, any-filter, Bool-cases, Option-cases, String, ℕ,
  Error, Result, ok, err, arith,
}
use go_service_template.Common.Assoc.{contains}
use go_service_template.Message.{Message, Topic, Uuid, StorageSpecification, wrap_error}
use go_service_template.Message.Outbox.{Outbox, call_each, call_each_with, process_impl}
use go_service_template.Message.Outbox.Delivery.{
  Preserves, Ledger, Accounted, process_impl-Accounted,
}
use go_service_template.Sql.Lock.Steps.{
  Calls, IsQuiet, IsQuiet-world, IsQuiet-release, with_session_level_lock-IsQuiet,
}
use go_service_template.Sql.MessageStorage.{
  Row, Condition, Select, Statement, Client, find_query, select_built, after_select, messages_of,
  find_messages, exec_built, delete_messages, lock_storage, message_storage,
}
use go_service_template.Sql.MessageStorage.Table.{meets_all, has_key, run, Database}
use go_service_template.Sql.MessageStorage.Found.{find_messages-rows}

-- The outbox `o` with the storage of `client`.
abbrev pub over_sql : {W : Type 0} → Client W → Outbox W → Outbox W
over_sql client o = record o { storage = message_storage client }

-- The row of a message.
abbrev pub IsStored : {W : Type 0} {client : Client W} → Database client → Message → W → Type 0
IsStored d x w = any (has_key x.topic x.id) (d.rows w) ≡ true

-- A delete by topic and id leaves the rows of other keys.
not_deleted :
    (t : Topic) (id : Uuid) (x : Message) (r : Row)
    → (t == x.topic && id == x.id) ≡ false
    → (not (meets_all (Condition.topic_eq (t ∷ []) ∷ Condition.id_eq (id ∷ []) ∷ []) r)
        && has_key x.topic x.id r)
      ≡ has_key x.topic x.id r
unfolding contains
not_deleted t id x r h = ground (
  arith,
  ==_iff t x.topic,
  ==_iff id x.id,
  ==_iff t r.topic,
  ==_iff id r.id,
  ==_iff r.topic x.topic,
  ==_iff r.id x.id,
)

run_delete-stored :
    (t : Topic) (id : Uuid) (x : Message) (rows : List Row)
    → any (has_key x.topic x.id) rows ≡ true
    → (any (has_key x.topic x.id) (
          run
            (Statement.delete (Condition.topic_eq (t ∷ []) ∷ Condition.id_eq (id ∷ []) ∷ []))
            rows)
        ≡ true)
      ⊎ ((t ≡ x.topic) × (id ≡ x.id))
unfolding run
run_delete-stored t id x rows h = elim (Bool-cases (t == x.topic && id == x.id)) [
  | inl e ↦ inr (ground (arith, ==_iff t x.topic, ==_iff id x.id))
  | inr e ↦ inl (any-filter _ _ rows ∙ any_cong _ _ (λ r. not_deleted t id x r e) rows ∙ h)
]

module _ {W : Type 0} {client : Client W} (d : Database client) (Sent : Message → W → Type 0) where
  -- A step that changes no row, and forgets no message that was sent.
  pub record Quiet (w w' : W) : Type 0 where
    pub rows : d.rows w' ≡ d.rows w
    pub sent : (m : Message) → Sent m w → Sent m w'

  -- Every call but `exec` is quiet, and a `Produce` without an error has sent its message.
  pub record Sending (o : Outbox W) : Type 0 where
    pub selects : (q : Select) (w : W) (m : Message) → Sent m w → Sent m (client.select q w).1
    pub execs : (q : Statement) (w : W) (m : Message) → Sent m w → Sent m (client.exec q w).1
    pub calls : Calls client.session Quiet
    pub produces : (m : Message) (w : W) → Quiet w (o.produce m w).1
    pub produce_sends : (m : Message) (w w' : W) → o.produce m w ≡ (none, w') → Sent m w'
    pub on_error : (e : Error) (w : W) → Quiet w (call_each o.on_internal_error e w)
    pub on_found :
        (ms : List Message) (e : Option Error) (w : W)
        → Quiet w (call_each_with o.on_found_messages ms e w)
    pub on_sent :
        (m : Message) (e : Option Error) (w : W) → Quiet w (call_each_with o.on_sent_message m e w)
    pub on_deleted :
        (m : Message) (e : Option Error) (w : W)
        → Quiet w (call_each_with o.on_deleted_message m e w)

  still : (w : W) → Quiet w w
  still w = record { rows = refl; sent = λ m h. h }

  then_quiet : (u v w : W) → Quiet u v → Quiet v w → Quiet u w
  then_quiet u v w a b = record { rows = b.rows ∙ a.rows; sent = λ m h. b.sent m (a.sent m h) }

  Quiet-Preserves : (f : W → W) → ((w : W) → Quiet w (f w)) → Preserves (IsStored d) Sent f
  Quiet-Preserves f q x w = (λ h. ap (any (has_key x.topic x.id)) (q w).rows ∙ h, (q w).sent x)

  module _ {o : Outbox W} (s : Sending o) where
    selected-sent :
        (m : Message) (r : Result (List Row) × W)
        → Sent m r.1
        → Sent m (messages_of client (after_select client r)).1
    unfolding messages_of after_select
    selected-sent m (err e, w) h = h
    selected-sent m (ok answer, w) h = h

    find_messages-sent :
        (spec : StorageSpecification) (w : W) (m : Message)
        → Sent m w
        → Sent m (find_messages client spec w).1
    unfolding find_messages select_built messages_of
    find_messages-sent spec w m h = elim (Option-cases (client.build_select (find_query spec))) [
      | inl e ↦
          rw (e, find_messages, select_built)
            (selected-sent m (client.select (find_query spec) w)
              (s.selects (find_query spec) w m h))
      | inr (x, e) ↦ rw (e, find_messages, select_built) h
    ]

    lock_storage-IsQuiet :
        (keys : List String) (w : W) → IsQuiet Quiet w (lock_storage client keys w)
    unfolding lock_storage
    lock_storage-IsQuiet keys w = with_session_level_lock-IsQuiet s.calls _ w

    executed-IsStored :
        (t : Topic) (id : Uuid) (x : Message) (w : W) (r : Option Error × W)
        → let q = Statement.delete (Condition.topic_eq (t ∷ []) ∷ Condition.id_eq (id ∷ []) ∷ []) in
          client.exec q w ≡ r → IsStored d x w → IsStored d x r.1 ⊎ ((t ≡ x.topic) × (id ≡ x.id))
    executed-IsStored t id x w (none, v) e h =
        subst (λ rows. (any (has_key x.topic x.id) rows ≡ true) ⊎ ((t ≡ x.topic) × (id ≡ x.id)))
          (sym (d.execs _ w v e)) (run_delete-stored t id x (d.rows w) h)
    executed-IsStored t id x w (some f, v) e h = elim (d.exec_fails _ w v f e) [
      | inl k ↦ inl (ap (any (has_key x.topic x.id)) k ∙ h)
      | inr k ↦
          subst (λ rows. (any (has_key x.topic x.id) rows ≡ true) ⊎ ((t ≡ x.topic) × (id ≡ x.id)))
            (sym k) (run_delete-stored t id x (d.rows w) h)
    ]

    wrap_error-world : (f : Error → Error) (r : Option Error × W) → (wrap_error f r).1 ≡ r.1
    wrap_error-world f (none, w) = refl
    wrap_error-world f (some e, w) = refl

    delete_messages-IsStored :
        (t : Topic) (id : Uuid) (x : Message) (w : W)
        → (IsStored d x w
            → IsStored d x (delete_messages client t (id ∷ []) w).1 ⊎ ((t ≡ x.topic) × (id ≡ x.id)))
          × (Sent x w → Sent x (delete_messages client t (id ∷ []) w).1)
    unfolding delete_messages exec_built
    delete_messages-IsStored t id x w =
        let q = Statement.delete (Condition.topic_eq (t ∷ []) ∷ Condition.id_eq (id ∷ []) ∷ []) in
        elim (Option-cases (client.build q)) [
          | inl e ↦
              rw (e, delete_messages, exec_built)
                (rw (wrap_error-world (Error.wrap "delete query: %w") (client.exec q w))
                  (executed-IsStored t id x w (client.exec q w) refl, s.execs q w x))
          | inr (f, e) ↦ rw (e, delete_messages, exec_built) ((λ h. inl h), (λ h. h))
        ]

    -- What the outbox relies on holds for the table.
    outbox_ledger : Ledger (over_sql client o)
    outbox_ledger = record {
      Pending = IsStored d;
      Sent = Sent;
      locks = Quiet-Preserves _ (λ w. IsQuiet-world w _ (lock_storage-IsQuiet [] w));
      releases = λ w w' release e.
          Quiet-Preserves _ (IsQuiet-release w _ w' release (lock_storage-IsQuiet [] w) e);
      finds = λ w. λ x v. (
        λ h. ap (any (has_key x.topic x.id)) (find_messages-rows d _ v) ∙ h,
        find_messages-sent _ v x,
      );
      produces = λ m. Quiet-Preserves _ (s.produces m);
      produce_sends = s.produce_sends;
      deletes = delete_messages-IsStored;
      on_error = λ e. Quiet-Preserves _ (s.on_error e);
      on_found = λ ms e. Quiet-Preserves _ (s.on_found ms e);
      on_sent = λ m e. Quiet-Preserves _ (s.on_sent m e);
      on_deleted = λ m e. Quiet-Preserves _ (s.on_deleted m e);
    }

    Accounted-sent :
        (x : Message) (w : W)
        → Accounted outbox_ledger x w
        → IsStored d x w ⊎ ((m : Message) × (m.topic ≡ x.topic) × (m.id ≡ x.id) × Sent m w)
    unfolding outbox_ledger
    Accounted-sent x w (Accounted.pending h) = inl h
    Accounted-sent x w (Accounted.sent m t i h) = inr (m, t, i, h)

    -- At-least-once delivery down to the table: after a run of the outbox, whatever fails, a message that
    -- had a row has it still, or a message with its topic and id was sent.
    pub process_impl-over_sql :
        (fuel : ℕ) (x : Message) (w : W) (e : Option Error) (w' : W)
        → process_impl (over_sql client o) fuel w ≡ some (e, w')
        → IsStored d x w
        → IsStored d x w' ⊎ ((m : Message) × (m.topic ≡ x.topic) × (m.id ≡ x.id) × Sent m w')
    unfolding outbox_ledger
    process_impl-over_sql fuel x w e w' h stored =
        Accounted-sent x w'
          (process_impl-Accounted outbox_ledger fuel x w e w' h (Accounted.pending stored))
