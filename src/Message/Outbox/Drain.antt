-- ===== src/Message/Outbox/Drain.antt =====
-- The loop of `process` ends and leaves nothing due, when nothing fails and nothing new becomes due.
use go_service_template.Common.{
  ℕ, zero, suc, ◌<◌, ◌≡◌, refl, ap, ◌∙◌, ◌⊎◌, inl, inr, Bool, true, false, Option, none, some, List,
  [], ◌∷◌, ◌++◌, arith, Error, ok, ltb, length, length-append, Bool-cases,
}
use go_service_template.Message.{Message, Effect, and_then}
use go_service_template.Message.Outbox.{
  Outbox, call_each_with, after_delete, after_produce, deliver, deliver_all, after_deliver,
  after_find, find_specification, process_locked, after_release, after_lock, process_batch,
  after_batch, process_impl,
}

-- No call fails, nothing new becomes due, `Find` returns the first of the due messages, all of
-- them if they are fewer than the batch size, and `Delete` removes the message it is asked to.
pub record Healthy {W : Type 0} (o : Outbox W) : Type 0 where
  pub due : W → List Message
  pub locks :
      (w : W)
      → (release : Effect W) × (w' : W) × (o.storage.lock [] w ≡ (ok release, w'))
        × (due w' ≡ due w)
        × ((v : W) → (v' : W) × (release v ≡ (none, v')) × (due v' ≡ due v))
  pub finds :
      (w : W)
      → (ms : List Message) × (left : List Message) × (w' : W) × (o.storage.find
            (find_specification o w)
            w
          ≡ (ok ms, w'))
        × (due w ≡ ms ++ left)
        × (due w' ≡ due w)
        × ((ms ≡ []) ⊎ (ltb (length ms) o.batch_size ≡ true) → left ≡ [])
  pub produces : (m : Message) (w : W) → (w' : W) × (o.produce m w ≡ (none, w')) × (due w' ≡ due w)
  pub deletes :
      (m : Message) (left : List Message) (w : W)
      → due w ≡ m ∷ left
      → (w' : W) × (o.storage.delete m.topic (m.id ∷ []) w ≡ (none, w')) × (due w' ≡ left)
  pub on_found :
      (ms : List Message) (w : W) → due (call_each_with o.on_found_messages ms none w) ≡ due w
  pub on_sent : (m : Message) (w : W) → due (call_each_with o.on_sent_message m none w) ≡ due w
  pub on_deleted :
      (m : Message) (w : W) → due (call_each_with o.on_deleted_message m none w) ≡ due w

module _ {W : Type 0} {o : Outbox W} (h : Healthy o) where
  open h use {due}

  deliver-due :
      (m : Message) (left : List Message) (w : W)
      → due w ≡ m ∷ left
      → (w' : W) × (deliver o m w ≡ (none, w')) × (due w' ≡ left)
  unfolding deliver after_produce after_delete
  deliver-due m left w e =
      let (w1, produced, e1) = h.produces m w in
      let sent = call_each_with o.on_sent_message m none w1 in
      let (w2, deleted, e2) = h.deletes m left sent (h.on_sent m w1 ∙ e1 ∙ e) in
      (
        call_each_with o.on_deleted_message m none w2,
        ap (after_produce o m) produced ∙ ap (after_delete o m) deleted,
        h.on_deleted m w2 ∙ e2,
      )

  deliver_all-due :
      (ms left : List Message) (w : W)
      → due w ≡ ms ++ left
      → (w' : W) × (deliver_all o ms w ≡ (none, w')) × (due w' ≡ left)
  unfolding deliver_all
  deliver_all-due [] left w e = (w, refl, e)
  deliver_all-due (m ∷ ms) left w e =
      let (w1, delivered, e1) = deliver-due m (ms ++ left) w e in
      let (w2, rest, e2) = deliver_all-due ms left w1 e1 in
      (w2, ap (λ r. and_then r (deliver_all o ms)) delivered ∙ rest, e2)

  -- What a batch from `w` on does: it ends with no error, and either nothing is due any more, or
  -- fewer messages are.
  record Progress (w : W) (r : (Bool × Option Error) × W) : Type 0 where
    all_processed : Bool
    world : W
    result : r ≡ ((all_processed, none), world)
    finished : all_processed ≡ true → due world ≡ []
    fewer : all_processed ≡ false → length (due world) < length (due w)

  after_find-Progress :
      (ms left : List Message) (w : W)
      → due w ≡ ms ++ left
      → ((ms ≡ []) ⊎ (ltb (length ms) o.batch_size ≡ true) → left ≡ [])
      → Progress w (after_find o (ok ms, w))
  unfolding after_find after_deliver
  after_find-Progress [] left w e all = record {
    all_processed = true;
    world = call_each_with o.on_found_messages [] none w;
    result = refl;
    finished = λ _. h.on_found [] w ∙ e ∙ all (inl refl);
    fewer = λ f. cc;
  }
  after_find-Progress (m ∷ ms) left w e all =
      let v = call_each_with o.on_found_messages (m ∷ ms) none w in
      let (w', delivered, e') = deliver_all-due (m ∷ ms) left v (h.on_found (m ∷ ms) w ∙ e) in
      record {
        all_processed = ltb (length (m ∷ ms)) o.batch_size;
        world = w';
        result = ap (after_deliver o (m ∷ ms)) delivered;
        finished = λ f. e' ∙ all (inr f);
        fewer = λ _. omega (arith, ap length e, ap length e', length-append ms left);
      }

  process_batch-Progress : (w : W) → Progress w (process_batch o w)
  unfolding process_batch after_lock process_locked after_release
  process_batch-Progress w =
      let (release, w1, locked, e1, releases) = h.locks w in
      let (ms, left, w2, found, e2, e3, all) = h.finds w1 in
      let p = after_find-Progress ms left w2 (e3 ∙ e2) all in
      let (w3, released, e4) = releases p.world in
      record {
        all_processed = p.all_processed;
        world = w3;
        result =
            ap (after_lock o) locked
            ∙ ap (λ r. after_release o r.0.0 (release r.1)) (ap (after_find o) found ∙ p.result)
            ∙ ap (after_release o p.all_processed) released;
        finished = λ f. e4 ∙ p.finished f;
        fewer = λ f. omega (arith, p.fewer f, ap length e4, ap length e3, ap length e1);
      }

  after_batch-due :
      (w : W) (again : W → Option (Option Error × W)) (r : (Bool × Option Error) × W)
      (p : Progress w r)
      → (p.all_processed ≡ false → (w' : W) × (again p.world ≡ some (none, w')) × (due w' ≡ []))
      → (w' : W) × (after_batch o r again ≡ some (none, w')) × (due w' ≡ [])
  unfolding after_batch
  after_batch-due w again r p step = elim (Bool-cases p.all_processed) [
    | inl e ↦ (
      p.world,
      ap (λ x. after_batch o x again) (p.result ∙ ap (λ b. ((b, none), p.world)) e),
      p.finished e,
    )
    | inr e ↦
        let (w', run, d) = step e in
        (w', ap (λ x. after_batch o x again) (p.result ∙ ap (λ b. ((b, none), p.world)) e) ∙ run, d)
  ]

  -- If no call fails, nothing new becomes due, `Find` returns the first of the due messages, and all of them if
  -- they are fewer than the batch size, and `Delete` removes the message it is asked to, then with more
  -- rounds than due messages the loop returns no error, and no message is due after it.
  pub process_impl-due :
      (fuel : ℕ) (w : W)
      → length (due w) < fuel
      → (w' : W) × (process_impl o fuel w ≡ some (none, w')) × (due w' ≡ [])
  unfolding process_impl
  process_impl-due zero w lt = elim lt [ ]
  process_impl-due (suc fuel) w lt =
      let p = process_batch-Progress w in
      after_batch-due w (process_impl o fuel) _ p
        (λ e. process_impl-due fuel p.world (omega (arith, p.fewer e)))
