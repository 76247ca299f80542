-- ===== src/Message/Outbox/Delivery.antt =====
-- No message leaves the storage before it was handed to the producer.
use mathlib.Core.Path.{subst}
use go_service_template.Common.{
  ℕ, zero, suc, ◌≡◌, refl, ap, ◌⊎◌, inl, inr, Bool, true, false, Option, none, some, List, [], ◌∷◌,
  Error, Result, ok, err,
}
use go_service_template.Message.{Message, Topic, Uuid, Effect, and_then}
use go_service_template.Message.Outbox.{
  Outbox, call_each, call_each_with, after_delete, after_produce, deliver, deliver_all,
  after_deliver, after_find, find_specification, process_locked, after_release, after_lock,
  process_batch, after_batch, process_impl,
}

abbrev pub Preserves : {W : Type 0} → (P Q : Message → W → Type 0) → (W → W) → Type 0
Preserves {W} P Q f = (x : Message) (w : W) → (P x w → P x (f w)) × (Q x w → Q x (f w))

-- What the outbox relies on: which messages are stored and which were sent, and what each call
-- does to them. `Produce` may fail after it has sent; `Delete` removes no other message than it is
-- asked to, and may fail with or without having removed it.
pub record Ledger {W : Type 0} (o : Outbox W) : Type 1 where
  pub Pending : Message → W → Type 0
  pub Sent : Message → W → Type 0
  pub locks : Preserves Pending Sent (λ w. (o.storage.lock [] w).1)
  pub releases :
      (w w' : W) (release : Effect W)
      → o.storage.lock [] w ≡ (ok release, w')
      → Preserves Pending Sent (λ v. (release v).1)
  pub finds : (w : W) → Preserves Pending Sent (λ v. (o.storage.find (find_specification o w) v).1)
  pub produces : (m : Message) → Preserves Pending Sent (λ w. (o.produce m w).1)
  pub produce_sends : (m : Message) (w w' : W) → o.produce m w ≡ (none, w') → Sent m w'
  pub deletes :
      (t : Topic) (id : Uuid) (x : Message) (w : W)
      → (Pending x w → Pending x (o.storage.delete t (id ∷ []) w).1 ⊎ ((t ≡ x.topic) × (id ≡ x.id)))
        × (Sent x w → Sent x (o.storage.delete t (id ∷ []) w).1)
  pub on_error : (e : Error) → Preserves Pending Sent (call_each o.on_internal_error e)
  pub on_found :
      (ms : List Message) (e : Option Error)
      → Preserves Pending Sent (call_each_with o.on_found_messages ms e)
  pub on_sent :
      (m : Message) (e : Option Error)
      → Preserves Pending Sent (call_each_with o.on_sent_message m e)
  pub on_deleted :
      (m : Message) (e : Option Error)
      → Preserves Pending Sent (call_each_with o.on_deleted_message m e)

module _ {W : Type 0} {o : Outbox W} (l : Ledger o) where
  open l use {Pending, Sent}

  -- A message is still stored, or one with its topic and id was sent.
  pub data Accounted (x : Message) (w : W) : Type 0 where
    pending : Pending x w → Accounted x w
    sent : (m : Message) → m.topic ≡ x.topic → m.id ≡ x.id → Sent m w → Accounted x w

  keep :
      (f : W → W)
      → Preserves Pending Sent f
      → (x : Message) (w : W) → Accounted x w
      → Accounted x (f w)
  keep f p x w (pending h) = pending ((p x w).0 h)
  keep f p x w (sent m t i h) = sent m t i ((p m w).1 h)

  after_delete-Accounted :
      (m x : Message) (r : Option Error × W) → Accounted x r.1 → Accounted x (after_delete o m r).1
  unfolding after_delete
  after_delete-Accounted m x (none, w) h = keep _ (l.on_deleted m none) x w h
  after_delete-Accounted m x (some e, w) h = keep _ (l.on_deleted m (some e)) x w h

  -- A message that was sent may be deleted.
  delete-Accounted :
      (m x : Message) (w : W)
      → Sent m w
      → Accounted x w
      → Accounted x (o.storage.delete m.topic (m.id ∷ []) w).1
  delete-Accounted m x w s (pending h) = elim ((l.deletes m.topic m.id x w).0 h) [
    | inl h' ↦ pending h'
    | inr (t, i) ↦ sent m t i ((l.deletes m.topic m.id m w).1 s)
  ]
  delete-Accounted m x w s (sent y t i h) = sent y t i ((l.deletes m.topic m.id y w).1 h)

  after_produce-Accounted :
      (m x : Message) (r : Option Error × W)
      → (r.0 ≡ none → Sent m r.1)
      → Accounted x r.1
      → Accounted x (after_produce o m r).1
  unfolding after_produce
  after_produce-Accounted m x (none, w) s h =
      let p = l.on_sent m none in
      after_delete-Accounted m x _ (delete-Accounted m x _ ((p m w).1 (s refl)) (keep _ p x w h))
  after_produce-Accounted m x (some e, w) s h = keep _ (l.on_sent m (some e)) x w h

  deliver-Accounted : (m x : Message) (w : W) → Accounted x w → Accounted x (deliver o m w).1
  unfolding deliver
  deliver-Accounted m x w h =
      after_produce-Accounted m x (o.produce m w)
        (λ e. l.produce_sends m w (o.produce m w).1 (ap (λ a. (a, (o.produce m w).1)) e))
        (keep _ (l.produces m) x w h)

  and_then-Accounted :
      (x : Message) (r : Option Error × W) (rest : Effect W)
      → ((w : W) → Accounted x w → Accounted x (rest w).1)
      → Accounted x r.1
      → Accounted x (and_then r rest).1
  and_then-Accounted x (none, w) rest f h = f w h
  and_then-Accounted x (some e, w) rest f h = h

  deliver_all-Accounted :
      (ms : List Message) (x : Message) (w : W) → Accounted x w → Accounted x (deliver_all o ms w).1
  unfolding deliver_all
  deliver_all-Accounted [] x w h = h
  deliver_all-Accounted (m ∷ ms) x w h =
      and_then-Accounted x (deliver o m w) (deliver_all o ms) (deliver_all-Accounted ms x)
        (deliver-Accounted m x w h)

  after_deliver-world : (ms : List Message) (r : Option Error × W) → (after_deliver o ms r).1 ≡ r.1
  unfolding after_deliver
  after_deliver-world ms (none, w) = refl
  after_deliver-world ms (some e, w) = refl

  after_find-Accounted :
      (x : Message) (r : Result (List Message) × W)
      → Accounted x r.1
      → Accounted x (after_find o r).1
  unfolding after_find
  after_find-Accounted x (err e, w) h = keep _ (l.on_found [] (some e)) x w h
  after_find-Accounted x (ok [], w) h = keep _ (l.on_found [] none) x w h
  after_find-Accounted x (ok (m ∷ ms), w) h =
      rw (after_deliver-world (m ∷ ms))
        (deliver_all-Accounted (m ∷ ms) x _ (keep _ (l.on_found (m ∷ ms) none) x w h))

  after_release-Accounted :
      (b : Bool) (x : Message) (r : Option Error × W)
      → Accounted x r.1
      → Accounted x (after_release o b r).1
  unfolding after_release
  after_release-Accounted b x (none, w) h = h
  after_release-Accounted b x (some e, w) h = keep _ (l.on_error _) x w h

  after_lock-Accounted :
      (x : Message) (w : W) (r : Result (Effect W) × W)
      → o.storage.lock [] w ≡ r
      → Accounted x r.1
      → Accounted x (after_lock o r).1
  unfolding after_lock process_locked
  after_lock-Accounted x w (err e, w') locked h = keep _ (l.on_error _) x w' h
  after_lock-Accounted x w (ok release, w') locked h =
      let found = keep _ (l.finds w') x w' h in
      after_release-Accounted _ x _
        (keep _ (l.releases w w' release locked) x _ (after_find-Accounted x _ found))

  -- At-least-once delivery: whatever fails in a batch, a message that is stored before it is
  -- stored after it, or a message with its topic and id was sent.
  pub process_batch-Accounted :
      (x : Message) (w : W) → Accounted x w → Accounted x (process_batch o w).1
  unfolding process_batch
  process_batch-Accounted x w h = after_lock-Accounted x w _ refl (keep _ l.locks x w h)

  after_batch-Accounted :
      (x : Message) (r : (Bool × Option Error) × W) (again : W → Option (Option Error × W))
      → ((w : W) (e : Option Error) (w' : W)
          → again w ≡ some (e, w')
          → Accounted x w
          → Accounted x w')
      → Accounted x r.1
      → (e : Option Error) (w' : W) → after_batch o r again ≡ some (e, w')
      → Accounted x w'
  unfolding after_batch
  after_batch-Accounted x ((b, some f), w) again step h e w' eq =
      subst (Accounted x) (let p : w ≡ w' = cc in p) h
  after_batch-Accounted x ((true, none), w) again step h e w' eq =
      subst (Accounted x) (let p : w ≡ w' = cc in p) h
  after_batch-Accounted x ((false, none), w) again step h e w' eq = step w e w' eq h

  -- The same for a whole run of the loop in `process`, however many batches it takes.
  pub process_impl-Accounted :
      (fuel : ℕ) (x : Message) (w : W) (e : Option Error) (w' : W)
      → process_impl o fuel w ≡ some (e, w')
      → Accounted x w
      → Accounted x w'
  unfolding process_impl
  process_impl-Accounted zero x w e w' eq h = cc
  process_impl-Accounted (suc fuel) x w e w' eq h =
      after_batch-Accounted x (process_batch o w) (process_impl o fuel)
        (process_impl-Accounted fuel x) (process_batch-Accounted x w h) e w' eq
