-- ===== src/Message/Outbox/Order.antt =====
-- What a batch hands to the producer, and in which order.
use go_service_template.Common.{
  ◌≡◌, refl, sym, ap, ◌∙◌, Bool, true, Option, none, some, List, [], ◌∷◌, ◌++◌, append-nil,
  append_assoc, Error, ok,
}
use go_service_template.Message.{Message, Topic, Uuid, Effect, and_then}
use go_service_template.Message.Outbox.{
  Outbox, call_each, call_each_with, after_delete, after_produce, deliver, deliver_all,
  after_deliver, after_find, find_specification, process_locked, after_release, after_lock,
  process_batch,
}

-- A journal of the calls of `Produce`, in order, which nothing else writes to.
pub record Journal {W : Type 0} (o : Outbox W) : Type 0 where
  pub calls : W → List Message
  pub produces : (m : Message) (w : W) → calls (o.produce m w).1 ≡ calls w ++ m ∷ []
  pub deletes : (t : Topic) (ids : List Uuid) (w : W) → calls (o.storage.delete t ids w).1 ≡ calls w
  pub releases :
      (w w' : W) (release : Effect W)
      → o.storage.lock [] w ≡ (ok release, w')
      → (v : W) → calls (release v).1 ≡ calls v
  pub on_error : (e : Error) (w : W) → calls (call_each o.on_internal_error e w) ≡ calls w
  pub on_found :
      (ms : List Message) (e : Option Error) (w : W)
      → calls (call_each_with o.on_found_messages ms e w) ≡ calls w
  pub on_sent :
      (m : Message) (e : Option Error) (w : W)
      → calls (call_each_with o.on_sent_message m e w) ≡ calls w
  pub on_deleted :
      (m : Message) (e : Option Error) (w : W)
      → calls (call_each_with o.on_deleted_message m e w) ≡ calls w

module _ {W : Type 0} {o : Outbox W} (j : Journal o) where
  open j use {calls}

  after_delete-calls :
      (m : Message) (r : Option Error × W) → calls (after_delete o m r).1 ≡ calls r.1
  unfolding after_delete
  after_delete-calls m (none, w) = j.on_deleted m none w
  after_delete-calls m (some e, w) = j.on_deleted m (some e) w

  after_produce-calls :
      (m : Message) (r : Option Error × W) → calls (after_produce o m r).1 ≡ calls r.1
  unfolding after_produce
  after_produce-calls m (none, w) =
      after_delete-calls m _ ∙ j.deletes m.topic (m.id ∷ []) _ ∙ j.on_sent m none w
  after_produce-calls m (some e, w) = j.on_sent m (some e) w

  deliver-calls : (m : Message) (w : W) → calls (deliver o m w).1 ≡ calls w ++ m ∷ []
  unfolding deliver
  deliver-calls m w = after_produce-calls m (o.produce m w) ∙ j.produces m w

  -- The calls made for `ms` from the world `w` on: a prefix of `ms`, all of it if nothing failed.
  pub record IsPrefix (ms : List Message) (w : W) (r : Option Error × W) : Type 0 where
    pub handed : List Message
    pub left : List Message
    pub split : ms ≡ handed ++ left
    pub made : calls r.1 ≡ calls w ++ handed
    pub complete : r.0 ≡ none → left ≡ []

  and_then-IsPrefix :
      (m : Message) (ms : List Message) (w : W) (r : Option Error × W)
      → calls r.1 ≡ calls w ++ m ∷ []
      → ((v : W) → IsPrefix ms v (deliver_all o ms v))
      → IsPrefix (m ∷ ms) w (and_then r (deliver_all o ms))
  and_then-IsPrefix m ms w (some e, v) h ih = record {
    handed = m ∷ [];
    left = ms;
    split = refl;
    made = h;
    complete = λ e'. cc;
  }
  and_then-IsPrefix m ms w (none, v) h ih =
      let p = ih v in
      record {
        handed = m ∷ p.handed;
        left = p.left;
        split = ap (◌∷◌ m) p.split;
        made = p.made ∙ ap (λ l. l ++ p.handed) h ∙ append_assoc (calls w) (m ∷ []) p.handed;
        complete = p.complete;
      }

  pub deliver_all-IsPrefix : (ms : List Message) (w : W) → IsPrefix ms w (deliver_all o ms w)
  unfolding deliver_all
  deliver_all-IsPrefix [] w = record {
    handed = [];
    left = [];
    split = refl;
    made = sym (append-nil (calls w));
    complete = λ e. refl;
  }
  deliver_all-IsPrefix (m ∷ ms) w =
      and_then-IsPrefix m ms w (deliver o m w) (deliver-calls m w) (deliver_all-IsPrefix ms)

  after_release-calls :
      (b : Bool) (r : Option Error × W) → calls (after_release o b r).1 ≡ calls r.1
  unfolding after_release
  after_release-calls b (none, w) = refl
  after_release-calls b (some e, w) = j.on_error _ w

  after_release-flag : (b : Bool) (r : Option Error × W) → (after_release o b r).0.0 ≡ b
  unfolding after_release
  after_release-flag b (none, w) = refl
  after_release-flag b (some e, w) = refl

  -- What a batch with the found messages `ms` has done from `w` to `r`.
  pub record Handed (ms : List Message) (w : W) (r : (Bool × Option Error) × W) : Type 0 where
    pub handed : List Message
    pub left : List Message
    pub split : ms ≡ handed ++ left
    pub made : calls r.1 ≡ calls w ++ handed
    pub unfinished : r.0.0 ≡ true → left ≡ []

  after_deliver-Handed :
      (ms : List Message) (w : W) (r : Option Error × W)
      → IsPrefix ms w r
      → Handed ms w (after_deliver o ms r)
  unfolding after_deliver
  after_deliver-Handed ms w (none, v) p = record {
    handed = p.handed;
    left = p.left;
    split = p.split;
    made = p.made;
    unfinished = λ e. p.complete refl;
  }
  after_deliver-Handed ms w (some e, v) p = record {
    handed = p.handed;
    left = p.left;
    split = p.split;
    made = p.made;
    unfinished = λ f. cc;
  }

  after_find-Handed : (ms : List Message) (w : W) → Handed ms w (after_find o (ok ms, w))
  unfolding after_find
  after_find-Handed [] w = record {
    handed = [];
    left = [];
    split = refl;
    made = j.on_found [] none w ∙ sym (append-nil (calls w));
    unfinished = λ e. refl;
  }
  after_find-Handed (m ∷ ms) w =
      let v = call_each_with o.on_found_messages (m ∷ ms) none w in
      let p = after_deliver-Handed (m ∷ ms) v _ (deliver_all-IsPrefix (m ∷ ms) v) in
      record {
        handed = p.handed;
        left = p.left;
        split = p.split;
        made = p.made ∙ ap (λ l. l ++ p.handed) (j.on_found (m ∷ ms) none w);
        unfinished = p.unfinished;
      }

  -- Once the lock is taken and messages are found, the calls of `Produce` are a prefix of the
  -- found messages in their order, each once; the batch reports that all is processed only if
  -- every found message was handed over.
  pub process_batch-Handed :
      (w w1 w2 : W) (release : Effect W) (ms : List Message)
      → o.storage.lock [] w ≡ (ok release, w1)
      → o.storage.find (find_specification o w1) w1 ≡ (ok ms, w2)
      → Handed ms w2 (process_batch o w)
  unfolding process_batch after_lock process_locked
  process_batch-Handed w w1 w2 release ms locked found =
      rw (locked, after_lock)
        (rw (found) (
          let p = after_find-Handed ms w2 in
          let r = after_find o (ok ms, w2) in
          record {
            handed = p.handed;
            left = p.left;
            split = p.split;
            made =
                after_release-calls r.0.0 (release r.1)
                ∙ j.releases w w1 release locked r.1
                ∙ p.made;
            unfinished = λ e. p.unfinished (sym (after_release-flag r.0.0 (release r.1)) ∙ e);
          }))
