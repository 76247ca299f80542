-- ===== src/Message/BusProducer/Schedule/Calls.antt =====
-- `scheduleImpl` against the list of the producer calls that it makes.
use mathlib.Core.Path.{fun_ext, subst}
use go_service_template.Common.{
  ℕ, zero, suc, ◌≡◌, refl, sym, ap, ◌∙◌, inl, inr, Bool, true, false, Option, none, some, List, [],
  ◌∷◌, ◌++◌, map, append-nil, append_assoc, if◌then◌else◌, ◌==◌, ==_iff, ==_refl, nat_eq, string_eq,
  pair_eq, arith, Error, ok, err, Bool-cases, Option-cases,
}
use go_service_template.Common.Assoc.{lookup, insert, lookup-insert}
use go_service_template.Message.{StructuredMessage, Topic, Time}
use go_service_template.Message.BusProducer.{BusProducer, or_default}
use go_service_template.Message.BusProducer.Registry.Consistent.{IsConsistent}
use go_service_template.Message.BusProducer.Schedule.{
  unknown_message, has_producers, collect_topics, call_producer, continue, produce_to_topics,
  produce_all, after_collect, schedule_impl,
}

-- How many of the messages are of a Go type.
unfoldable pub occurrences : ℕ → List StructuredMessage → ℕ
occurrences r [] = 0
occurrences r (m ∷ ms) =
    let rest = occurrences r ms in if m.reflect_type == r then suc rest else rest

-- The list `n` times over.
unfoldable pub times {ℓ} : {A : Type ℓ} → ℕ → List A → List A
times zero xs = []
times (suc n) xs = xs ++ times n xs

module _ {W : Type 0} where
  -- The topics that a Go type is registered for.
  abbrev pub topics_of : BusProducer W → ℕ → List Topic
  topics_of p r = or_default (lookup r p.message_topics) []

  unfoldable pub all_known : BusProducer W → List StructuredMessage → Bool
  all_known p [] = true
  all_known p (m ∷ ms) = elim (lookup m.reflect_type p.message_topics) [
    | none ↦ false
    | some _ ↦ all_known p ms
  ]

  -- The calls of producers, in order: each message goes to the topics of its type, as often as the
  -- type occurs in `all`.
  unfoldable pub calls :
      BusProducer W
      → List StructuredMessage
      → List StructuredMessage
      → List (StructuredMessage × Topic)
  calls p all [] = []
  calls p all (m ∷ ms) =
      map (λ t. (m, t)) (times (occurrences m.reflect_type all) (topics_of p m.reflect_type))
      ++ calls p all ms

  -- Make the calls up to the first error.
  unfoldable pub make_calls :
      BusProducer W → Option Time → List (StructuredMessage × Topic) → W → Option (Option Error × W)
  make_calls p at [] w = some (none, w)
  make_calls p at ((m, t) ∷ cs) w = continue (call_producer p at m t w) (make_calls p at cs)

  continue_assoc :
      (r : Option (Option Error × W)) (f g : W → Option (Option Error × W))
      → continue (continue r f) g ≡ continue r (λ w. continue (f w) g)
  continue_assoc none f g = refl
  continue_assoc (some (none, w)) f g = refl
  continue_assoc (some (some e, w)) f g = refl

  make_calls-append :
      (p : BusProducer W) (at : Option Time) (cs ds : List (StructuredMessage × Topic)) (w : W)
      → make_calls p at (cs ++ ds) w ≡ continue (make_calls p at cs w) (make_calls p at ds)
  unfolding make_calls
  make_calls-append p at [] ds w = refl
  make_calls-append p at ((m, t) ∷ cs) ds w =
      ap (continue (call_producer p at m t w)) (fun_ext (make_calls-append p at cs ds))
      ∙ sym (continue_assoc (call_producer p at m t w) (make_calls p at cs) (make_calls p at ds))

  produce_to_topics-calls :
      (p : BusProducer W) (at : Option Time) (m : StructuredMessage) (topics : List Topic) (w : W)
      → produce_to_topics p at m topics w ≡ make_calls p at (map (λ t. (m, t)) topics) w
  unfolding produce_to_topics make_calls
  produce_to_topics-calls p at m [] w = refl
  produce_to_topics-calls p at m (t ∷ topics) w =
      ap (continue (call_producer p at m t w)) (fun_ext (produce_to_topics-calls p at m topics))

  -- What the first loop has collected from `msgs`, when it began with `before`.
  abbrev Collects :
      BusProducer W → List StructuredMessage → (before after : List (ℕ × List Topic)) → Type 0
  Collects p msgs before after =
      (r : ℕ)
      → or_default (lookup r after) []
        ≡ or_default (lookup r before) [] ++ times (occurrences r msgs) (topics_of p r)

  collect-step :
      (p : BusProducer W) (m : StructuredMessage) (ms : List StructuredMessage) (ts : List Topic)
      (before after : List (ℕ × List Topic))
      → lookup m.reflect_type p.message_topics ≡ some ts
      → Collects p ms
          (insert m.reflect_type (or_default (lookup m.reflect_type before) [] ++ ts) before)
          after
      → Collects p (m ∷ ms) before after
  unfolding occurrences times
  collect-step p m ms ts before after known h r = elim (Bool-cases (m.reflect_type == r)) [
    | inl same ↦
        subst
          (λ k.
            or_default (lookup k after) []
            ≡ or_default (lookup k before) [] ++ times (occurrences k (m ∷ ms)) (topics_of p k))
          ((==_iff m.reflect_type r).0 same)
          (h m.reflect_type
            ∙ rw
                (
                  lookup-insert m.reflect_type m.reflect_type
                      (or_default (lookup m.reflect_type before) [] ++ ts) before,
                  ==_refl m.reflect_type,
                  known,
                  append_assoc,
                )
                refl)
    | inr other ↦
        h r
        ∙ rw
            (
              lookup-insert m.reflect_type r (or_default (lookup m.reflect_type before) [] ++ ts)
                  before,
              other,
            )
            refl
  ]

  -- The first message of the loop, with the topics of its type.
  collect_topics-cons :
      (p : BusProducer W) (m : StructuredMessage) (ms : List StructuredMessage)
      (before : List (ℕ × List Topic)) (ts : List Topic)
      → lookup m.reflect_type p.message_topics ≡ some ts
      → (collect_topics p (m ∷ ms) before ≡ (
          if has_producers p m.reflect_type ts
          then collect_topics p ms
              (insert m.reflect_type (or_default (lookup m.reflect_type before) [] ++ ts) before)
          else err unknown_message))
        × (all_known p (m ∷ ms) ≡ all_known p ms)
  unfolding collect_topics all_known
  collect_topics-cons p m ms before ts e = (ground (arith, e), ground (arith, e))

  collect_topics-cons_unknown :
      (p : BusProducer W) (m : StructuredMessage) (ms : List StructuredMessage)
      (before : List (ℕ × List Topic))
      → lookup m.reflect_type p.message_topics ≡ none
      → (collect_topics p (m ∷ ms) before ≡ err unknown_message) × (all_known p (m ∷ ms) ≡ false)
  unfolding collect_topics all_known
  collect_topics-cons_unknown p m ms before e = (ground (arith, e), ground (arith, e))

  collect_topics-known :
      (p : BusProducer W) (ms : List StructuredMessage) (before : List (ℕ × List Topic))
      → IsConsistent p
      → all_known p ms ≡ true
      → (after : List (ℕ × List Topic)) × (collect_topics p ms before ≡ ok after)
        × Collects p ms before after
  unfolding collect_topics occurrences times
  collect_topics-known p [] before c h = (before, refl, λ r. sym (append-nil _))
  collect_topics-known p (m ∷ ms) before c h =
      elim (Option-cases (lookup m.reflect_type p.message_topics)) [
        | inl e ↦ absurd (let (_, f) = collect_topics-cons_unknown p m ms before e in cc)
        | inr (ts, e) ↦
            let known = or_default (lookup m.reflect_type before) [] in
            let (step, same) = collect_topics-cons p m ms before ts e in
            let (after, ran, collects) =
              collect_topics-known p ms (insert m.reflect_type (known ++ ts) before) c
                (sym same ∙ h) in
            (
              after,
              step ∙ rw (c.producible m.reflect_type ts e) ran,
              collect-step p m ms ts before after e collects,
            )
      ]

  collect_topics-unknown :
      (p : BusProducer W) (ms : List StructuredMessage) (before : List (ℕ × List Topic))
      → all_known p ms ≡ false
      → collect_topics p ms before ≡ err unknown_message
  unfolding collect_topics all_known
  collect_topics-unknown p [] before h = cc
  collect_topics-unknown p (m ∷ ms) before h =
      elim (Option-cases (lookup m.reflect_type p.message_topics)) [
        | inl e ↦ (collect_topics-cons_unknown p m ms before e).0
        | inr (ts, e) ↦
            let known = or_default (lookup m.reflect_type before) [] in
            let (step, same) = collect_topics-cons p m ms before ts e in
            let rest =
              collect_topics-unknown p ms (insert m.reflect_type (known ++ ts) before)
                (sym same ∙ h) in
            step ∙ elim (Bool-cases (has_producers p m.reflect_type ts)) [
              | inl f ↦ rw f rest
              | inr f ↦ rw f refl
            ]
      ]

  produce_all-calls :
      (p : BusProducer W) (at : Option Time) (all ms : List StructuredMessage)
      (collected : List (ℕ × List Topic)) (w : W)
      → Collects p all [] collected
      → produce_all p at collected ms w ≡ make_calls p at (calls p all ms) w
  unfolding produce_all calls lookup
  produce_all-calls p at all [] collected w h = unfold make_calls in refl
  produce_all-calls p at all (m ∷ ms) collected w h =
      let sent =
        map (λ t. (m, t)) (times (occurrences m.reflect_type all) (topics_of p m.reflect_type)) in
      rw (h m.reflect_type) (
        ap (λ r. continue r (produce_all p at collected ms)) (produce_to_topics-calls p at m _ w)
        ∙ ap (continue (make_calls p at sent w))
            (fun_ext λ v. produce_all-calls p at all ms collected v h)
        ∙ sym (make_calls-append p at sent (calls p all ms) w))

  -- Of a consistent registry, `scheduleImpl` makes no call at all if one of the messages has a type
  -- that is not registered, and returns an error. Otherwise it makes, message by message and up to
  -- the first error, a call for each topic of the message's type, as many times over as messages
  -- of that type are in the batch.
  pub schedule_impl-calls :
      (p : BusProducer W) (at : Option Time) (ms : List StructuredMessage) (w : W)
      → IsConsistent p
      → schedule_impl p at ms w ≡ (
          if all_known p ms
          then make_calls p at (calls p ms ms) w
          else some (some unknown_message, w))
  unfolding schedule_impl after_collect
  schedule_impl-calls p at [] w c = unfold all_known make_calls calls in refl
  schedule_impl-calls p at (m ∷ ms) w c = elim (Bool-cases (all_known p (m ∷ ms))) [
    | inl e ↦
        let (collected, ran, collects) = collect_topics-known p (m ∷ ms) [] c e in
        rw (e)
          (rw (ran, after_collect) (produce_all-calls p at (m ∷ ms) (m ∷ ms) collected w collects))
    | inr e ↦ rw e (rw (collect_topics-unknown p (m ∷ ms) [] e, after_collect) refl)
  ]
