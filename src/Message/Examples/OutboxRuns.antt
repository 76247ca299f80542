-- ===== src/Message/Examples/OutboxRuns.antt =====
-- The outbox over a table of stored messages and a log of sent ones.
use go_service_template.Common.{
  ◌≡◌, refl, sym, ap, ◌∙◌, ◌⊎◌, inl, inr, true, none, some, List, [], ◌∷◌, ◌++◌, arith, Error,
  Result, ok, err, ltb, length, ◌==◌, ◌&&◌, ==_iff, if◌then◌else◌, nat_eq, string_eq, Bool-cases,
  ==_refl,
}
use go_service_template.Message.{Message, Topic, Uuid, Effect}
use go_service_template.Message.Outbox.{Outbox, call_each, call_each_with, process_impl}
use go_service_template.Message.Outbox.Errors.{IsUnreadable, process_impl_stuck}
use go_service_template.Message.Outbox.Order.{Journal}
use go_service_template.Message.Outbox.Drain.{Healthy, process_impl-due}

-- The due messages, and the messages sent.
pub record Table : Type 0 where
  pub stored : List Message
  pub sent : List Message

abbrev tail_of : List Message → List Message
tail_of [] = []
tail_of (m ∷ ms) = ms

-- Delete the row with a topic and an id; there is one at most.
remove : Topic → Uuid → List Message → List Message
remove t id [] = []
remove t id (m ∷ ms) = if m.topic == t && m.id == id then ms else m ∷ remove t id ms

abbrev remove_each : Topic → List Uuid → List Message → List Message
remove_each t [] ms = ms
remove_each t (id ∷ ids) ms = remove_each t ids (remove t id ms)

-- A storage with one message at the front for each `Find`, which `Delete` removes.
abbrev one_of : List Message → List Message
one_of [] = []
one_of (m ∷ ms) = m ∷ []

abbrev working : Outbox Table
working = record {
  batch_size = 1;
  on_internal_error = [];
  on_found_messages = [];
  on_sent_message = [];
  on_deleted_message = [];
  storage = record {
    lock = λ keys w. (ok (λ v. (none, v)), w);
    find = λ spec w. (ok (one_of w.stored), w);
    store = λ at ms w. (none, record w { stored = w.stored ++ ms });
    delete = λ t ids w. (none, record w { stored = remove_each t ids w.stored });
  };
  produce = λ m w. (none, record w { sent = w.sent ++ m ∷ [] });
  now = λ w. 0;
}

abbrev unreadable : Outbox Table
unreadable = record working {
  storage = record {
    lock = λ keys w. (ok (λ v. (none, v)), w);
    find = λ spec w. (err (Error.external 1), w);
    store = λ at ms w. (none, w);
    delete = λ t ids w. (none, w);
  };
}

abbrev hello : Message
hello = record { id = 1; topic = "user"; key = ""; payload = 104 ∷ [] }

abbrev world : Message
world = record { id = 2; topic = "user"; key = ""; payload = 119 ∷ [] }

abbrev two_stored : Table
two_stored = record { stored = hello ∷ world ∷ []; sent = [] }

unreadable-IsUnreadable : IsUnreadable unreadable
unreadable-IsUnreadable = record {
  locks = λ w. (_, w, refl, λ v. refl);
  fails = λ spec w. (Error.external 1, w, refl);
}

process_impl_stuck_example : process_impl unreadable 1000 two_stored ≡ none
process_impl_stuck_example = process_impl_stuck unreadable unreadable-IsUnreadable 1000 two_stored

abbrev release_of : Result (Effect Table) × Table → Effect Table
release_of (ok release, w) = release
release_of (err e, w) = λ v. (none, v)

-- The calls of `Produce` are the messages in `sent`.
working-Journal : Journal working
unfolding call_each call_each_with
working-Journal = record {
  calls = λ w. w.sent;
  produces = λ m w. refl;
  deletes = λ t ids w. refl;
  releases = λ w w' release e v. sym (ap (λ r. (release_of r v).1.sent) e);
  on_error = λ e w. refl;
  on_found = λ ms e w. refl;
  on_sent = λ m e w. refl;
  on_deleted = λ m e w. refl;
}

one-append-tail : (ms : List Message) → ms ≡ one_of ms ++ tail_of ms
one-append-tail [] = refl
one-append-tail (m ∷ ms) = refl

one-all :
    (ms : List Message) → (one_of ms ≡ []) ⊎ (ltb (length (one_of ms)) 1 ≡ true) → tail_of ms ≡ []
one-all [] h = refl
one-all (m ∷ ms) h = ground arith

remove-cons : (m : Message) (ms : List Message) → remove m.topic m.id (m ∷ ms) ≡ ms
unfolding remove
remove-cons m ms = rw (==_refl m.topic, ==_refl m.id)

working-Healthy : Healthy working
unfolding call_each call_each_with
working-Healthy = record {
  due = λ w. w.stored;
  locks = λ w. (_, w, refl, refl, λ v. (v, refl, refl));
  finds = λ w. (
    one_of w.stored,
    tail_of w.stored,
    w,
    refl,
    one-append-tail w.stored,
    refl,
    one-all w.stored,
  );
  produces = λ m w. (_, refl, refl);
  deletes = λ m left w e. (_, refl, ap (remove m.topic m.id) e ∙ remove-cons m left);
  on_found = λ ms w. refl;
  on_sent = λ m w. refl;
  on_deleted = λ m w. refl;
}

process_impl-due_example :
    (w : Table) × (process_impl working 3 two_stored ≡ some (none, w)) × (w.stored ≡ [])
unfolding working-Healthy
process_impl-due_example = process_impl-due working-Healthy 3 two_stored (omega arith)

abbrev Has : Message → List Message → Type 0
Has x [] = ⊥
Has x (m ∷ ms) = (m ≡ x) ⊎ Has x ms

Has-append : (x m : Message) (ms : List Message) → Has x ms → Has x (ms ++ m ∷ [])
Has-append x m [] h = absurd h
Has-append x m (y ∷ ms) (inl e) = inl e
Has-append x m (y ∷ ms) (inr h) = inr (Has-append x m ms h)

Has-append_self : (m : Message) (ms : List Message) → Has m (ms ++ m ∷ [])
Has-append_self m [] = inl refl
Has-append_self m (y ∷ ms) = inr (Has-append_self m ms)

Has-remove :
    (t : Topic) (id : Uuid) (x : Message) (ms : List Message)
    → Has x ms
    → Has x (remove t id ms) ⊎ ((t ≡ x.topic) × (id ≡ x.id))
unfolding remove
Has-remove t id x [] h = absurd h
Has-remove t id x (m ∷ ms) (inl e) = elim (Bool-cases (m.topic == t && m.id == id)) [
  | inl c ↦ inr (
    ground (arith, ==_iff m.topic t, ==_iff m.id id),
    ground (arith, ==_iff m.topic t, ==_iff m.id id),
  )
  | inr c ↦ rw c (inl (inl e))
]
Has-remove t id x (m ∷ ms) (inr h) = elim (Bool-cases (m.topic == t && m.id == id)) [
  | inl c ↦ rw c (inl h)
  | inr c ↦ rw c (elim (Has-remove t id x ms h) [ inl k ↦ inl (inr k) | inr k ↦ inr k ])
]
