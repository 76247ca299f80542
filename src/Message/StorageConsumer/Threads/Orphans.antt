-- ===== src/Message/StorageConsumer/Threads/Orphans.antt =====
-- Two orders of steps after which a batch never ends without an error: an acknowledgement between
-- the send on the channel and `addToProcessing`, and one between the test of the loop and `Wait`.
use mathlib.Core.Path.{subst}
use go_service_template.Common.{
  ℕ, zero, suc, ◌≡◌, ◌≢◌, refl, sym, ◌∙◌, Bool, true, false, ◌||◌, none, List, [], ◌∷◌, length,
  ◌==◌, ==_iff, ==_refl, nat_eq, arith,
}
use go_service_template.Common.Assoc.{contains, add, delete, contains-add, contains-delete}
use go_service_template.Message.{Uuid}
use go_service_template.Message.StorageConsumer.{
  Processing, add_to_processing, remove_from_processing,
}
use go_service_template.Message.StorageConsumer.Threads.{
  Phase, System, Step, Reach, start, signal_if_empty,
}

-- Whether the worker may still send or add a message, and whether it may still end with no error.
abbrev is_coming : Phase → Uuid → Bool
is_coming (Phase.sending ids n) id = contains id ids
is_coming (Phase.sent i ids n) id = i == id || contains id ids
is_coming p id = false

abbrev is_open : Phase → Bool
is_open (Phase.ended all n none) = false
is_open p = true

-- A message is in processing that nobody will acknowledge.
pub record IsOrphan (id : Uuid) (s : System) : Type 0 where
  pub kept : contains id s.processing.processing_messages ≡ true
  pub not_received : contains id s.received ≡ false
  pub not_coming : is_coming s.phase id ≡ false
  pub still_open : is_open s.phase ≡ true
  pub sized : s.processing.processed_count ≡ length s.processing.processing_messages

not_empty : (id : Uuid) (ids : List Uuid) → contains id ids ≡ true → length ids ≢ 0
unfolding contains
not_empty id [] h = cc
not_empty id (i ∷ ids) h = λ e. absurd (omega arith)

signal_if_empty-is_open : (n : ℕ) (p : Phase) → is_open (signal_if_empty n p) ≡ is_open p
unfolding signal_if_empty
signal_if_empty-is_open (suc n) p = refl
signal_if_empty-is_open zero (Phase.sending ids m) = refl
signal_if_empty-is_open zero (Phase.sent i ids m) = refl
signal_if_empty-is_open zero (Phase.testing m) = refl
signal_if_empty-is_open zero (Phase.falling_asleep m) = refl
signal_if_empty-is_open zero (Phase.asleep m) = refl
signal_if_empty-is_open zero (Phase.ended all m e) = refl

signal_if_empty-is_coming :
    (n : ℕ) (p : Phase) (id : Uuid) → is_coming (signal_if_empty n p) id ≡ is_coming p id
unfolding signal_if_empty
signal_if_empty-is_coming (suc n) p id = refl
signal_if_empty-is_coming zero (Phase.sending ids m) id = refl
signal_if_empty-is_coming zero (Phase.sent i ids m) id = refl
signal_if_empty-is_coming zero (Phase.testing m) id = refl
signal_if_empty-is_coming zero (Phase.falling_asleep m) id = refl
signal_if_empty-is_coming zero (Phase.asleep m) id = refl
signal_if_empty-is_coming zero (Phase.ended all m e) id = refl

module _ (id : Uuid) where
  orphan :
      (p : Phase) (q : Processing) (r : List Uuid)
      → contains id q.processing_messages ≡ true
      → contains id r ≡ false
      → is_coming p id ≡ false
      → is_open p ≡ true
      → q.processed_count ≡ length q.processing_messages
      → IsOrphan id (record { phase = p; processing = q; received = r })
  orphan p q r k n c o z = record {
    kept = k;
    not_received = n;
    not_coming = c;
    still_open = o;
    sized = z;
  }

  coming_at : {s : System} → IsOrphan id s → (p : Phase) → s.phase ≡ p → is_coming p id ≡ false
  coming_at o p e = subst (λ q. is_coming q id ≡ false) e o.not_coming

  Step-IsOrphan :
      {batch_size total : ℕ} {s t : System}
      → Step batch_size total s t
      → IsOrphan id s
      → IsOrphan id t
  unfolding add_to_processing remove_from_processing contains
  Step-IsOrphan {s} (Step.send i ids n e) o =
      let c = coming_at o _ e in
      orphan _ _ _ o.kept (ground (arith, o.not_received, contains-add i id s.received))
        (ground arith) refl o.sized
  Step-IsOrphan {s} (Step.cancel i ids n x e) o =
      orphan _ _ _ o.kept o.not_received refl refl o.sized
  Step-IsOrphan {s} (Step.add_sent i ids n e) o =
      let c = coming_at o _ e in
      orphan _ _ _ (ground (arith, o.kept, contains-add i id s.processing.processing_messages))
        o.not_received (ground arith) refl refl
  Step-IsOrphan {s} (Step.all_sent n e) o = orphan _ _ _ o.kept o.not_received refl refl o.sized
  Step-IsOrphan {s} (Step.test_empty n e z) o =
      absurd (not_empty id s.processing.processing_messages o.kept (sym o.sized ∙ z))
  Step-IsOrphan {s} (Step.test_left n e z) o = orphan _ _ _ o.kept o.not_received refl refl o.sized
  Step-IsOrphan {s} (Step.wait n e) o = orphan _ _ _ o.kept o.not_received refl refl o.sized
  Step-IsOrphan {s} (Step.acknowledge i r) o =
      orphan _ _ _
        (ground (
          arith,
          o.kept,
          r,
          o.not_received,
          ==_iff i id,
          contains-delete i id s.processing.processing_messages,
        ))
        (ground (arith, o.not_received, contains-delete i id s.received))
        (signal_if_empty-is_coming _ s.phase id ∙ o.not_coming)
        (signal_if_empty-is_open _ s.phase ∙ o.still_open) refl

  Reach-IsOrphan :
      {batch_size total : ℕ} {s t : System}
      → Reach batch_size total s t
      → IsOrphan id s
      → IsOrphan id t
  Reach-IsOrphan Reach.here o = o
  Reach-IsOrphan (Reach.next r st) o = Step-IsOrphan st (Reach-IsOrphan r o)

-- From this state no end without an error is reached.
abbrev pub NeverEnds : ℕ → ℕ → System → Type 0
NeverEnds batch_size total s =
    (t : System) (all : Bool) (n : ℕ)
    → Reach batch_size total s t
    → t.phase ≢ Phase.ended all n none

pub IsOrphan-NeverEnds :
    (id : Uuid) (batch_size total : ℕ) (s : System) → IsOrphan id s → NeverEnds batch_size total s
IsOrphan-NeverEnds id batch_size total s o t all n r e =
    let still = subst (λ p. is_open p ≡ true) e (Reach-IsOrphan id r o).still_open in cc

abbrev empty : Processing
empty = record { processing_messages = []; processed_count = 0 }

-- The state after the first message was sent, acknowledged, and then added.
abbrev acknowledged_early : Uuid → List Uuid → System
acknowledged_early id ids = record {
  phase = Phase.sending ids 1;
  processing = add_to_processing id (remove_from_processing id empty);
  received = delete id (add id []);
}

contains-add_self : (id : Uuid) → contains id (add id []) ≡ true
unfolding add contains
contains-add_self id = ground arith

acknowledged_early-Reach :
    (batch_size total : ℕ) (id : Uuid) (ids : List Uuid)
    → Reach batch_size total (start (id ∷ ids)) (acknowledged_early id ids)
unfolding signal_if_empty remove_from_processing delete
acknowledged_early-Reach batch_size total id ids =
    Reach.next
      (Reach.next (Reach.next Reach.here (Step.send id ids 0 refl))
        (Step.acknowledge id (contains-add_self id)))
      (Step.add_sent id ids 0 refl)

acknowledged_early-IsOrphan :
    (id : Uuid) (ids : List Uuid)
    → contains id ids ≡ false
    → IsOrphan id (acknowledged_early id ids)
unfolding add_to_processing remove_from_processing delete
acknowledged_early-IsOrphan id ids h =
    orphan id _ _ _ (contains-add_self id)
      (contains-delete id id (add id []) ∙ ground (arith, ==_refl id)) h refl refl

-- In every batch of distinct messages the first can be acknowledged before it is added to those in
-- processing, and then the batch never ends without an error.
pub early_acknowledgement-NeverEnds :
    (batch_size : ℕ) (id : Uuid) (ids : List Uuid)
    → contains id ids ≡ false
    → (s : System) × Reach batch_size (length (id ∷ ids)) (start (id ∷ ids)) s
      × NeverEnds batch_size (length (id ∷ ids)) s
early_acknowledgement-NeverEnds batch_size id ids h = (
  acknowledged_early id ids,
  acknowledged_early-Reach batch_size (length (id ∷ ids)) id ids,
  IsOrphan-NeverEnds id batch_size (length (id ∷ ids)) (acknowledged_early id ids)
      (acknowledged_early-IsOrphan id ids h),
)

-- A worker that waits, with nothing received that could be acknowledged, waits for good.
asleep-not-Step :
    {batch_size total : ℕ} {s t : System} (n : ℕ)
    → s.phase ≡ Phase.asleep n
    → ((id : Uuid) → contains id s.received ≡ false)
    → ¬ Step batch_size total s t
asleep-not-Step n e r (Step.send id ids m f) = cc
asleep-not-Step n e r (Step.cancel id ids m x f) = cc
asleep-not-Step n e r (Step.add_sent id ids m f) = cc
asleep-not-Step n e r (Step.all_sent m f) = cc
asleep-not-Step n e r (Step.test_empty m f z) = cc
asleep-not-Step n e r (Step.test_left m f z) = cc
asleep-not-Step n e r (Step.wait m f) = cc
asleep-not-Step n e r (Step.acknowledge id f) = let h = r id in cc

signal_if_empty-falling_asleep :
    (n m : ℕ) → signal_if_empty n (Phase.falling_asleep m) ≡ Phase.falling_asleep m
unfolding signal_if_empty
signal_if_empty-falling_asleep zero m = refl
signal_if_empty-falling_asleep (suc n) m = refl

-- The state after the only message was acknowledged between the test and `Wait`.
abbrev missed_signal : Uuid → System
missed_signal id = record {
  phase = Phase.asleep 1;
  processing = remove_from_processing id (add_to_processing id empty);
  received = delete id (add id []);
}

one-ne-zero : ◌≢◌ {A = ℕ} 1 0
one-ne-zero e = absurd (omega arith)

missed_signal-Reach :
    (batch_size : ℕ) (id : Uuid) → Reach batch_size 1 (start (id ∷ [])) (missed_signal id)
unfolding add_to_processing add contains
missed_signal-Reach batch_size id =
    let sent =
      Reach.next (Reach.next Reach.here (Step.send id [] 0 refl)) (Step.add_sent id [] 0 refl) in
    let tested =
      Reach.next (Reach.next sent (Step.all_sent 1 refl)) (Step.test_left 1 refl one-ne-zero) in
    Reach.next (Reach.next tested (Step.acknowledge id (contains-add_self id)))
      (Step.wait 1 (signal_if_empty-falling_asleep _ 1))

-- In a batch of one message the signal can be given before the worker waits for it: then the batch
-- has nothing in processing, and takes no step any more.
pub missed_signal-not-Step :
    (batch_size : ℕ) (id : Uuid)
    → (s : System) × Reach batch_size 1 (start (id ∷ [])) s
      × (s.processing.processed_count ≡ 0)
      × ((t : System) → ¬ Step batch_size 1 s t)
unfolding add_to_processing remove_from_processing add delete contains
missed_signal-not-Step batch_size id = (
  missed_signal id,
  missed_signal-Reach batch_size id,
  ground (arith, ==_refl id),
  λ t. asleep-not-Step 1 refl (λ j. contains-delete id j (add id []) ∙ ground (arith)),
)
