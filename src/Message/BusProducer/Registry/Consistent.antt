-- ===== src/Message/BusProducer/Registry/Consistent.antt =====
-- Every topic of a message type has its producer, whatever was registered before, also where a
-- call of `Register` stopped half way at an error.
use mathlib.Core.Option.{some-injective}
use go_service_template.Common.{
  Option-cases, ℕ, ◌≡◌, refl, sym, ap, ◌∙◌, inl, inr, true, String, Option, none, some, List, [],
  ◌∷◌, ◌++◌, ◌==◌, ==_iff, ==_refl, nat_eq, string_eq, pair_eq, arith, Error, Result, Bool-cases,
}
use go_service_template.Common.Assoc.{lookup, insert, contains, lookup-insert}
use go_service_template.Message.{
  Message, StructuredMessage, RegisteredMessage, Topic, Time, Metadata, Effect, and_then,
  wrap_error,
}
use go_service_template.Message.BusProducer.{
  BusProduce, BusProducer, BusProducerConfig, or_default, build_producer, new_bus_producer,
}
use go_service_template.Message.BusProducer.Registry.{
  add_message, register_impl, register_topic, register_topics, register,
}
use go_service_template.Message.BusProducer.Schedule.{has_producers}

module _ {W : Type 0} where
  pub record IsConsistent (p : BusProducer W) : Type 0 where
    pub producible :
        (reflect_type : ℕ) (topics : List Topic)
        → lookup reflect_type p.message_topics ≡ some topics
        → has_producers p reflect_type topics ≡ true

  pub new_bus_producer-IsConsistent :
      (producer_impl : Message → Option Time → Effect W)
      (serialize : StructuredMessage → Metadata → Result (List ℕ)) (config : BusProducerConfig W)
      → IsConsistent (new_bus_producer producer_impl serialize config)
  unfolding new_bus_producer lookup
  new_bus_producer-IsConsistent producer_impl serialize config = record {
    producible = λ reflect_type topics e. cc;
  }

  has_producers-append :
      (p : BusProducer W) (r : ℕ) (xs ys : List Topic)
      → has_producers p r xs ≡ true
      → has_producers p r ys ≡ true
      → has_producers p r (xs ++ ys) ≡ true
  unfolding has_producers
  has_producers-append p r [] ys hx hy = hy
  has_producers-append p r (x ∷ xs) ys hx hy = ground (arith, has_producers-append p r xs ys)

  -- A producer that is added takes none away.
  has_producers-insert :
      (p q : BusProducer W) (k : Topic × ℕ) (f : BusProduce W) (r : ℕ) (topics : List Topic)
      → q.producers ≡ insert k f p.producers
      → has_producers p r topics ≡ true
      → has_producers q r topics ≡ true
  unfolding has_producers
  has_producers-insert p q k f r [] e h = refl
  has_producers-insert p q k f r (t ∷ topics) e h = ground (
    arith,
    ap (lookup (t, r)) e,
    lookup-insert k (t, r) f p.producers,
    has_producers-insert p q k f r topics e,
  )

  has_producers-insert_self :
      (p q : BusProducer W) (t : Topic) (r : ℕ) (f : BusProduce W)
      → q.producers ≡ insert (t, r) f p.producers
      → has_producers q r (t ∷ []) ≡ true
  unfolding has_producers
  has_producers-insert_self p q t r f e = ground (
    arith,
    ap (lookup (t, r)) e,
    lookup-insert (t, r) (t, r) f p.producers,
    ==_refl {K = Topic × ℕ} (t, r),
  )

  pub has_producers_known :
      (p : BusProducer W) (r : ℕ)
      → IsConsistent p
      → has_producers p r (or_default (lookup r p.message_topics) []) ≡ true
  unfolding has_producers
  has_producers_known p r c = elim (Option-cases (lookup r p.message_topics)) [
    | inl e ↦ rw e refl
    | inr (topics, e) ↦ rw e (c.producible r topics e)
  ]

  -- The topics of the message's type, with the new one.
  has_producers-add_message :
      (topic : Topic) (msg : RegisteredMessage) (config : BusProducerConfig W) (types : List String)
      (p : BusProducer W)
      → IsConsistent p
      → let r = msg.schema.reflect_type in
        has_producers
          (add_message topic msg config types p)
          r
          (or_default (lookup r p.message_topics) [] ++ topic ∷ [])
        ≡ true
  unfolding add_message
  has_producers-add_message topic msg config types p c =
      let r = msg.schema.reflect_type in
      let q = add_message topic msg config types p in
      let f = build_producer p config msg.key_builder in
      has_producers-append q r _ (topic ∷ [])
        (has_producers-insert p q (topic, r) f r _ refl (has_producers_known p r c))
        (has_producers-insert_self p q topic r f refl)

  add_message-IsConsistent :
      (topic : Topic) (msg : RegisteredMessage) (config : BusProducerConfig W) (types : List String)
      (p : BusProducer W)
      → IsConsistent p
      → IsConsistent (add_message topic msg config types p)
  unfolding add_message
  add_message-IsConsistent topic msg config types p c = record {
    producible = λ r topics e.
        let s = msg.schema.reflect_type in
        let q = add_message topic msg config types p in
        let added = or_default (lookup s p.message_topics) [] ++ topic ∷ [] in
        let found = sym (lookup-insert s r added p.message_topics) ∙ e in
        elim (Bool-cases (s == r)) [
          | inl same ↦
              let new : added ≡ topics = some-injective _ _ (rw same at found) in
              let here : s ≡ r = (==_iff s r).0 same in
              rw (← new, ← here) (has_producers-add_message topic msg config types p c)
          | inr other ↦
              has_producers-insert p q (topic, s) (build_producer p config msg.key_builder) r topics
                refl (c.producible r topics (rw other at found))
        ];
  }

  register_impl-IsConsistent :
      (topic : Topic) (msg : RegisteredMessage) (config : BusProducerConfig W) (p : BusProducer W)
      → IsConsistent p
      → IsConsistent (register_impl topic msg config p).1
  unfolding register_impl
  register_impl-IsConsistent topic msg config p c =
      let types = or_default (lookup topic p.topic_messages) [] in
      elim (Bool-cases (msg.schema.message_type == "")) [
        | inl e ↦ rw e c
        | inr e ↦ rw e (elim (Bool-cases (contains msg.schema.message_type types)) [
          | inl f ↦ rw f c
          | inr f ↦ rw f (add_message-IsConsistent topic msg config types p c)
        ])
      ]

  and_then-IsConsistent :
      (r : Option Error × BusProducer W) (rest : Effect (BusProducer W))
      → IsConsistent r.1
      → ((p : BusProducer W) → IsConsistent p → IsConsistent (rest p).1)
      → IsConsistent (and_then r rest).1
  and_then-IsConsistent (none, p) rest c f = f p c
  and_then-IsConsistent (some e, p) rest c f = c

  wrap_error-IsConsistent :
      (wrapped : Error → Error) (r : Option Error × BusProducer W)
      → IsConsistent r.1
      → IsConsistent (wrap_error wrapped r).1
  wrap_error-IsConsistent wrapped (none, p) c = c
  wrap_error-IsConsistent wrapped (some e, p) c = c

  register_topic-IsConsistent :
      (topic : Topic) (msgs : List RegisteredMessage) (config : BusProducerConfig W)
      (p : BusProducer W)
      → IsConsistent p
      → IsConsistent (register_topic topic msgs config p).1
  unfolding register_topic
  register_topic-IsConsistent topic [] config p c = c
  register_topic-IsConsistent topic (msg ∷ msgs) config p c =
      and_then-IsConsistent _ (register_topic topic msgs config)
        (wrap_error-IsConsistent _ _ (register_impl-IsConsistent topic msg config p c))
        (register_topic-IsConsistent topic msgs config)

  register_topics-IsConsistent :
      (entries : List (Topic × List RegisteredMessage)) (config : BusProducerConfig W)
      (p : BusProducer W)
      → IsConsistent p
      → IsConsistent (register_topics entries config p).1
  unfolding register_topics
  register_topics-IsConsistent [] config p c = c
  register_topics-IsConsistent ((topic, msgs) ∷ rest) config p c =
      and_then-IsConsistent (register_topic topic msgs config p) (register_topics rest config)
        (register_topic-IsConsistent topic msgs config p c)
        (register_topics-IsConsistent rest config)

  -- `Register` keeps the registry consistent, for any messages and options, in any order of the
  -- map's entries, and also if it returns an error after some of the registrations.
  pub register-IsConsistent :
      (entries : List (Topic × List RegisteredMessage))
      (opts : List (BusProducerConfig W → BusProducerConfig W)) (p : BusProducer W)
      → IsConsistent p
      → IsConsistent (register entries opts p).1
  unfolding register
  register-IsConsistent entries opts p c = register_topics-IsConsistent entries _ p c
