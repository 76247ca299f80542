-- ===== src/Message/StorageConsumer/Threads/Delivered.antt =====
-- A batch that ends without an error has delivered all its messages, and each was acknowledged.
use mathlib.Core.Path.{subst}
use go_service_template.Common.{
  ℕ, zero, suc, ◌≡◌, refl, sym, ◌∙◌, Bool, true, false, ◌||◌, none, some, List, [], ◌∷◌, length,
  ◌==◌, nat_eq, arith, ◌+◌,
}
use go_service_template.Common.Assoc.{contains, delete, contains-add, contains-delete}
use go_service_template.Message.{Uuid}
use go_service_template.Message.StorageConsumer.{
  Processing, add_to_processing, remove_from_processing,
}
use go_service_template.Message.StorageConsumer.Threads.{
  Phase, System, Step, Reach, start, signal_if_empty,
}

-- The message that was sent and is not in processing yet.
abbrev is_sent : Phase → Uuid → Bool
is_sent (Phase.sent i ids n) id = i == id
is_sent p id = false

-- The numbers of messages delivered and left add up.
abbrev IsCounted : ℕ → Phase → Type 0
IsCounted total (Phase.sending ids n) = n + length ids ≡ total
IsCounted total (Phase.sent id ids n) = suc n + length ids ≡ total
IsCounted total (Phase.testing n) = n ≡ total
IsCounted total (Phase.falling_asleep n) = n ≡ total
IsCounted total (Phase.asleep n) = n ≡ total
IsCounted total (Phase.ended all n none) = n ≡ total
IsCounted total (Phase.ended all n (some e)) = Unit

-- What of the received messages is in processing: all but the one sent last, before it is added.
-- After the end without an error none is left.
abbrev IsTracked : Phase → List Uuid → List Uuid → Uuid → Type 0
IsTracked (Phase.ended all n none) processing received id = contains id received ≡ false
IsTracked p processing received id =
    contains id received ≡ true → (contains id processing || is_sent p id) ≡ true

contains-of_empty : (id : Uuid) (ids : List Uuid) → length ids ≡ 0 → contains id ids ≡ false
unfolding contains
contains-of_empty id [] h = refl
contains-of_empty id (i ∷ ids) h = absurd (omega arith)

signal_if_empty-IsCounted :
    (total n : ℕ) (p : Phase) → IsCounted total p → IsCounted total (signal_if_empty n p)
unfolding signal_if_empty
signal_if_empty-IsCounted total (suc n) p h = h
signal_if_empty-IsCounted total zero (Phase.sending ids m) h = h
signal_if_empty-IsCounted total zero (Phase.sent i ids m) h = h
signal_if_empty-IsCounted total zero (Phase.testing m) h = h
signal_if_empty-IsCounted total zero (Phase.falling_asleep m) h = h
signal_if_empty-IsCounted total zero (Phase.asleep m) h = h
signal_if_empty-IsCounted total zero (Phase.ended all m none) h = h
signal_if_empty-IsCounted total zero (Phase.ended all m (some e)) h = h

signal_if_empty-IsTracked :
    (n : ℕ) (p : Phase) (a r : List Uuid) (id : Uuid)
    → IsTracked p a r id
    → IsTracked (signal_if_empty n p) a r id
unfolding signal_if_empty
signal_if_empty-IsTracked (suc n) p a r id h = h
signal_if_empty-IsTracked zero (Phase.sending ids m) a r id h = h
signal_if_empty-IsTracked zero (Phase.sent i ids m) a r id h = h
signal_if_empty-IsTracked zero (Phase.testing m) a r id h = h
signal_if_empty-IsTracked zero (Phase.falling_asleep m) a r id h = h
signal_if_empty-IsTracked zero (Phase.asleep m) a r id h = h
signal_if_empty-IsTracked zero (Phase.ended all m none) a r id h = h
signal_if_empty-IsTracked zero (Phase.ended all m (some e)) a r id h = h

-- An acknowledged message leaves both sets.
delete-IsTracked :
    (p : Phase) (a r : List Uuid) (id k : Uuid)
    → IsTracked p a r k
    → IsTracked p (delete id a) (delete id r) k
delete-IsTracked (Phase.sending ids m) a r id k h =
    ground (arith, contains-delete id k a, contains-delete id k r)
delete-IsTracked (Phase.sent i ids m) a r id k h =
    ground (arith, contains-delete id k a, contains-delete id k r)
delete-IsTracked (Phase.testing m) a r id k h =
    ground (arith, contains-delete id k a, contains-delete id k r)
delete-IsTracked (Phase.falling_asleep m) a r id k h =
    ground (arith, contains-delete id k a, contains-delete id k r)
delete-IsTracked (Phase.asleep m) a r id k h =
    ground (arith, contains-delete id k a, contains-delete id k r)
delete-IsTracked (Phase.ended all m none) a r id k h =
    ground (arith, contains-delete id k a, contains-delete id k r)
delete-IsTracked (Phase.ended all m (some e)) a r id k h =
    ground (arith, contains-delete id k a, contains-delete id k r)

module _ (total : ℕ) where
  record IsFine (s : System) : Type 0 where
    counted : IsCounted total s.phase
    tracked : (id : Uuid) → IsTracked s.phase s.processing.processing_messages s.received id
    sized : s.processing.processed_count ≡ length s.processing.processing_messages

  fine :
      (p : Phase) (q : Processing) (r : List Uuid)
      → IsCounted total p
      → ((id : Uuid) → IsTracked p q.processing_messages r id)
      → q.processed_count ≡ length q.processing_messages
      → IsFine (record { phase = p; processing = q; received = r })
  fine p q r c t z = record { counted = c; tracked = t; sized = z }

  -- The parts of the invariant at a known phase.
  module _ {s : System} (f : IsFine s) where
    IsCounted-at : (p : Phase) → s.phase ≡ p → IsCounted total p
    IsCounted-at p e = subst (IsCounted total) e f.counted

    IsTracked-at :
        (p : Phase)
        → s.phase ≡ p
        → (id : Uuid) → IsTracked p s.processing.processing_messages s.received id
    IsTracked-at p e id =
        subst (λ q. IsTracked q s.processing.processing_messages s.received id) e (f.tracked id)

  Step-IsFine : {batch_size : ℕ} {s t : System} → Step batch_size total s t → IsFine s → IsFine t
  unfolding add_to_processing remove_from_processing
  Step-IsFine {s} (Step.send id ids n e) f =
      let c = IsCounted-at f _ e in
      fine _ _ _ (omega arith)
        (λ j. let t = IsTracked-at f _ e j in ground (arith, contains-add id j s.received)) f.sized
  Step-IsFine {s} (Step.cancel id ids n x e) f = fine _ _ _ tt (IsTracked-at f _ e) f.sized
  Step-IsFine {s} (Step.add_sent id ids n e) f =
      let c = IsCounted-at f _ e in
      fine _ _ _ c
        (λ j.
          let t = IsTracked-at f _ e j in
          ground (arith, contains-add id j s.processing.processing_messages))
        refl
  Step-IsFine {s} (Step.all_sent n e) f =
      let c = IsCounted-at f _ e in fine _ _ _ (omega arith) (IsTracked-at f _ e) f.sized
  Step-IsFine {s} (Step.test_empty n e z) f =
      fine _ _ _ (IsCounted-at f _ e)
        (λ j.
          let t = IsTracked-at f _ e j in
          ground (arith, contains-of_empty j s.processing.processing_messages (sym f.sized ∙ z)))
        f.sized
  Step-IsFine {s} (Step.test_left n e z) f =
      fine _ _ _ (IsCounted-at f _ e) (IsTracked-at f _ e) f.sized
  Step-IsFine {s} (Step.wait n e) f = fine _ _ _ (IsCounted-at f _ e) (IsTracked-at f _ e) f.sized
  Step-IsFine {s} (Step.acknowledge id r) f =
      fine _ _ _ (signal_if_empty-IsCounted total _ s.phase f.counted)
        (λ j.
          signal_if_empty-IsTracked _ s.phase _ _ j (
            delete-IsTracked s.phase s.processing.processing_messages s.received id j
              (f.tracked j)))
        refl

  Reach-IsFine : {batch_size : ℕ} {s t : System} → Reach batch_size total s t → IsFine s → IsFine t
  Reach-IsFine Reach.here f = f
  Reach-IsFine (Reach.next r st) f = Step-IsFine st (Reach-IsFine r f)

-- When a batch ends without an error, whatever the order of the steps, every message found was
-- delivered, and no delivered message is left that was not acknowledged.
pub Reach-delivered :
    (batch_size : ℕ) (ids : List Uuid) (s : System) (all : Bool) (n : ℕ)
    → Reach batch_size (length ids) (start ids) s
    → s.phase ≡ Phase.ended all n none
    → (n ≡ length ids) × ((id : Uuid) → contains id s.received ≡ false)
unfolding contains
Reach-delivered batch_size ids s all n r e =
    let f = Reach-IsFine (length ids) r (fine (length ids) _ _ _ (omega arith) (λ id h. cc) refl) in
    (IsCounted-at (length ids) f _ e, IsTracked-at (length ids) f _ e)
