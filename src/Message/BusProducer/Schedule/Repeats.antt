-- ===== src/Message/BusProducer/Schedule/Repeats.antt =====
-- How often a batch calls the producer of one message and topic.
use mathlib.Core.Path.{subst}
use go_service_template.Common.{
  ℕ, zero, suc, ◌+◌, ◌*◌, ◌≡◌, refl, sym, ap, ◌∙◌, inl, inr, true, Option, none, some, List, [],
  ◌∷◌, ◌++◌, map, nat_eq, string_eq, pair_eq, arith, length, length-append, length-map, All,
  All-append, Option-cases,
}
use go_service_template.Common.Assoc.{lookup}
use go_service_template.Message.{StructuredMessage, Topic, Time}
use go_service_template.Message.BusProducer.{BusProducer, BusProduce, or_default}
use go_service_template.Message.BusProducer.Registry.Consistent.{IsConsistent}
use go_service_template.Message.BusProducer.Schedule.{
  has_producers, call_producer, continue, schedule_impl,
}
use go_service_template.Message.BusProducer.Schedule.Calls.{
  occurrences, times, topics_of, calls, make_calls, all_known, schedule_impl-calls,
}

length-times {ℓ} : {A : Type ℓ} (n : ℕ) (xs : List A) → length (times n xs) ≡ n * length xs
unfolding times
length-times zero xs = omega arith
length-times (suc n) xs = grind (arith, length-append xs (times n xs), length-times n xs)

-- Every message of the batch has this Go type.
abbrev pub AllOf : ℕ → List StructuredMessage → Type 0
AllOf r = All (λ m. m.reflect_type ≡ r)

occurrences-AllOf :
    (r : ℕ) (ms : List StructuredMessage) → AllOf r ms → occurrences r ms ≡ length ms
unfolding occurrences
occurrences-AllOf r [] h = refl
occurrences-AllOf r (m ∷ ms) h = ground (arith, h.0, occurrences-AllOf r ms h.1)

module _ {W : Type 0} (p : BusProducer W) where
  length-calls :
      (r : ℕ) (all ms : List StructuredMessage)
      → AllOf r all
      → AllOf r ms
      → length (calls p all ms) ≡ length ms * (length all * length (topics_of p r))
  unfolding calls
  length-calls r all [] ha h = omega arith
  length-calls r all (m ∷ ms) ha h =
      rw
        (
          length-append,
          length-map,
          h.0,
          length-times,
          occurrences-AllOf r all ha,
          length-calls r all ms ha h.1,
        )
        (grind arith)

  -- The topics that have a producer for a Go type.
  abbrev Produced : ℕ → List Topic → Type 0
  Produced r = All (λ t. (produce : BusProduce W) × (lookup (t, r) p.producers ≡ some produce))

  has_producers-Produced : (r : ℕ) (ts : List Topic) → has_producers p r ts ≡ true → Produced r ts
  unfolding has_producers
  has_producers-Produced r [] h = tt
  has_producers-Produced r (t ∷ ts) h = elim (Option-cases (lookup (t, r) p.producers)) [
    | inl e ↦ let z = rw (e, has_producers) at h in cc
    | inr found ↦ (found, has_producers-Produced r ts (rw (found.1, has_producers) at h))
  ]

  times-Produced : (r n : ℕ) (ts : List Topic) → Produced r ts → Produced r (times n ts)
  unfolding times
  times-Produced r zero ts h = tt
  times-Produced r (suc n) ts h =
      All-append (λ t. (produce : BusProduce W) × (lookup (t, r) p.producers ≡ some produce)) ts
        (times n ts) h (times-Produced r n ts h)

  call_producer-found :
      (at : Option Time) (r : ℕ) (m : StructuredMessage) (t : Topic) (produce : BusProduce W)
      (w w' : W)
      → m.reflect_type ≡ r
      → lookup (t, r) p.producers ≡ some produce
      → produce t m at w ≡ (none, w')
      → call_producer p at m t w ≡ some (none, w')
  unfolding call_producer
  call_producer-found at r m t produce w w' k found e =
      let f : lookup (t, m.reflect_type) p.producers ≡ some produce =
        subst (λ x. lookup (t, x) p.producers ≡ some produce) (sym k) found in
      rw (f, call_producer, e)

  -- No producer of the type fails, and each call of one is counted once.
  pub record IsTallied (at : Option Time) (r : ℕ) (tally : W → ℕ) : Type 0 where
    pub counts :
        (t : Topic) (produce : BusProduce W) (m : StructuredMessage) (w : W)
        → lookup (t, r) p.producers ≡ some produce
        → (w' : W) × (produce t m at w ≡ (none, w')) × (tally w' ≡ suc (tally w))

  module _ (at : Option Time) (r : ℕ) (tally : W → ℕ) (c : IsTallied at r tally) where
    abbrev Tallies : List (StructuredMessage × Topic) → W → Type 0
    Tallies cs w =
        (w' : W) × (make_calls p at cs w ≡ some (none, w')) × (tally w' ≡ tally w + length cs)

    make_calls-tally :
        (m : StructuredMessage) (ts : List Topic) (cs : List (StructuredMessage × Topic)) (w : W)
        → m.reflect_type ≡ r
        → Produced r ts
        → ((v : W) → Tallies cs v)
        → Tallies (map (λ t. (m, t)) ts ++ cs) w
    unfolding make_calls
    make_calls-tally m [] cs w k h rest = rest w
    make_calls-tally m (t ∷ ts) cs w k ((produce, found), h) rest =
        let (v, e, n) = c.counts t produce m w found in
        let (w', f, l) = make_calls-tally m ts cs v k h rest in
        let step = call_producer-found at r m t produce w v k found e in
        let rest_calls = make_calls p at (map (λ t. (m, t)) ts ++ cs) in
        (w', ap (λ x. continue x rest_calls) step ∙ f, omega (arith, l, n))

    calls-tally :
        (all ms : List StructuredMessage) (w : W)
        → AllOf r ms
        → Produced r (topics_of p r)
        → Tallies (calls p all ms) w
    unfolding calls
    calls-tally all [] w h k = (w, (unfold make_calls in refl), omega arith)
    calls-tally all (m ∷ ms) w h k =
        make_calls-tally m (times (occurrences m.reflect_type all) (topics_of p m.reflect_type))
          (calls p all ms) w h.0 (rw (h.0) (times-Produced r (occurrences r all) (topics_of p r) k))
          (λ v. calls-tally all ms v h.1 k)

  all_known-AllOf :
      (r : ℕ) (ts : List Topic) (ms : List StructuredMessage)
      → lookup r p.message_topics ≡ some ts
      → AllOf r ms
      → all_known p ms ≡ true
  unfolding all_known
  all_known-AllOf r ts [] e h = refl
  all_known-AllOf r ts (m ∷ ms) e h = rw (h.0, all_known, e) (all_known-AllOf r ts ms e h.1)

  -- Of a consistent registry, `scheduleImpl` with `n` messages of one Go type that is registered for `k`
  -- topics, whose producers do not fail and raise a count by one at each call, returns no error and
  -- raises the count by `n * (n * k)`, where `n * k` would send each message to each topic once.
  pub schedule_impl-tally :
      (at : Option Time) (r : ℕ) (ts : List Topic) (tally : W → ℕ) (ms : List StructuredMessage)
      (w : W)
      → IsConsistent p
      → lookup r p.message_topics ≡ some ts
      → AllOf r ms
      → IsTallied at r tally
      → (w' : W) × (schedule_impl p at ms w ≡ some (none, w'))
        × (tally w' ≡ tally w + length ms * (length ms * length ts))
  schedule_impl-tally at r ts tally ms w k e h c =
      let o : topics_of p r ≡ ts = ap (λ x. or_default x []) e in
      let produced = has_producers-Produced r ts (k.producible r ts e) in
      let (w', f, n) = calls-tally at r tally c ms ms w h (rw (o) produced) in
      (
        w',
        schedule_impl-calls p at ms w k ∙ rw (all_known-AllOf r ts ms e h) f,
        n ∙ ap (λ l. tally w + l) (rw (o) at (length-calls r ms ms h h)),
      )
