-- ===== src/Message/BusProducer/Schedule.antt =====
-- Production in pkg/message/busproducer.go: `scheduleImpl`, `Produce` and `Schedule`.
pub mod Calls
pub mod Repeats
use go_service_template.Common.{
  ℕ, Bool, true, false, Option, none, some, List, [], ◌∷◌, ◌++◌, if◌then◌else◌, nat_eq, string_eq,
  pair_eq, Error, Result, ok, err,
}
use go_service_template.Common.Assoc.{lookup, insert}
use go_service_template.Message.{StructuredMessage, Topic, Time}
use go_service_template.Message.BusProducer.{BusProducer, or_default}

abbrev pub unknown_message : Error
unknown_message = Error.message "unknown message type %T"

module _ {W : Type 0} where
  -- The check of one message in the first loop of `scheduleImpl`: a producer for each topic.
  unfoldable pub has_producers : BusProducer W → ℕ → List Topic → Bool
  has_producers p reflect_type [] = true
  has_producers p reflect_type (topic ∷ topics) = elim (lookup (topic, reflect_type) p.producers) [
    | none ↦ false
    | some _ ↦ has_producers p reflect_type topics
  ]

  -- The first loop, which collects the topics of each message's type.
  pub collect_topics :
      BusProducer W
      → List StructuredMessage
      → List (ℕ × List Topic)
      → Result (List (ℕ × List Topic))
  unfolding has_producers
  collect_topics p [] collected = ok collected
  collect_topics p (msg ∷ msgs) collected = elim (lookup msg.reflect_type p.message_topics) [
    | none ↦ err unknown_message
    | some topics ↦
        let known = or_default (lookup msg.reflect_type collected) [] in
        let rest = collect_topics p msgs (insert msg.reflect_type (known ++ topics) collected) in
        if has_producers p msg.reflect_type topics then rest else err unknown_message
  ]

  -- A call of the producer found in the map. With none found it is the call of a nil function,
  -- which panics: `none`.
  pub call_producer :
      BusProducer W → Option Time → StructuredMessage → Topic → W → Option (Option Error × W)
  call_producer p at msg topic w = elim (lookup (topic, msg.reflect_type) p.producers) [
    | none ↦ none
    | some produce ↦ some (produce topic msg at w)
  ]

  -- Go on after a call that returned no error.
  abbrev pub continue :
      Option (Option Error × W) → (W → Option (Option Error × W)) → Option (Option Error × W)
  continue none rest = none
  continue (some (some e, w)) rest = some (some e, w)
  continue (some (none, w)) rest = rest w

  -- The loops over the topics of a message and over the messages.
  pub produce_to_topics :
      BusProducer W → Option Time → StructuredMessage → List Topic → W → Option (Option Error × W)
  unfolding call_producer
  produce_to_topics p at msg [] w = some (none, w)
  produce_to_topics p at msg (topic ∷ topics) w =
      continue (call_producer p at msg topic w) (produce_to_topics p at msg topics)

  pub produce_all :
      BusProducer W
      → Option Time
      → List (ℕ × List Topic)
      → List StructuredMessage
      → W
      → Option (Option Error × W)
  unfolding produce_to_topics
  produce_all p at collected [] w = some (none, w)
  produce_all p at collected (msg ∷ msgs) w =
      continue (produce_to_topics p at msg (or_default (lookup msg.reflect_type collected) []) w)
        (produce_all p at collected msgs)

  pub after_collect :
      BusProducer W
      → Option Time
      → List StructuredMessage
      → Result (List (ℕ × List Topic))
      → W
      → Option (Option Error × W)
  unfolding produce_all
  after_collect p at msgs (err e) w = some (some e, w)
  after_collect p at msgs (ok collected) w = produce_all p at collected msgs w

  -- `scheduleImpl`. The map `messageProducers` is written and never read, so it is left out.
  unfoldable pub schedule_impl :
      BusProducer W → Option Time → List StructuredMessage → W → Option (Option Error × W)
  unfolding collect_topics after_collect
  schedule_impl p at [] w = some (none, w)
  schedule_impl p at (msg ∷ msgs) w =
      after_collect p at (msg ∷ msgs) (collect_topics p (msg ∷ msgs) []) w

  -- `Produce` and `Schedule`.
  unfoldable pub produce : BusProducer W → List StructuredMessage → W → Option (Option Error × W)
  unfolding schedule_impl
  produce p msgs = schedule_impl p none msgs

  unfoldable pub schedule :
      BusProducer W → Time → List StructuredMessage → W → Option (Option Error × W)
  unfolding schedule_impl
  schedule p at msgs = schedule_impl p (some at) msgs
