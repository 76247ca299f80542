-- ===== src/Message/BusListener/Registered.antt =====
-- What a registered listener knows: the deserializer and the handlers of each function that was
-- registered, so that it reads what the serializer of a producer has written.
use mathlib.Core.Path.{subst}
use go_service_template.Common.{
  Eq, ℕ, zero, suc, ◌≡◌, refl, sym, ap, ◌∙◌, inl, inr, String, string_eq, pair_eq, ◌==◌, ==_refl,
  ==_iff, Option, none, some, List, [], ◌∷◌, get_elem?, Error, Result, ok, err, Bool-cases,
  Option-cases,
}
use go_service_template.Common.Assoc.{lookup, insert, contains, lookup-insert}
use go_service_template.Message.{Topic, and_then-none}
use go_service_template.Message.Serializer.{JsonSerializer, register_deserializer}
use go_service_template.Message.Listener.{Handler}
use go_service_template.Message.BusListener.{
  Subscriber, RegisteredHandlers, ListenerData, Listeners, Registration,
  after_register_deserializer, register_function, register_functions, after_get_consumer,
  after_register_functions,
}

-- The message type of the function is registered with its deserializer and its handlers.
pub record IsKnown {W : Type 0} (f : RegisteredHandlers W) (ds : JsonSerializer)
    (hs : List (String × List (Handler W))) : Type 0 where
  pub deserializer : lookup f.schema.message_type ds ≡ some f.deserializer
  pub handlers : lookup f.schema.message_type hs ≡ some f.handlers

lookup-insert_same :
    {C V : Type 0} ⦃eq : Eq C⦄
    → (k : C) (v : V) (entries : List (C × V)) → lookup k (insert k v entries) ≡ some v
lookup-insert_same k v entries = lookup-insert k k v entries ∙ rw (==_refl k)

lookup-insert_other :
    {V U : Type 0} (k j : String) (v : V) (u : U) (entries : List (String × V))
    (others : List (String × U))
    → lookup k others ≡ none
    → lookup j others ≡ some u
    → lookup j (insert k v entries) ≡ lookup j entries
lookup-insert_other k j v u entries others a b = elim (Bool-cases (k == j)) [
  | inl e ↦ let same : k ≡ j = (==_iff k j).0 e in let c = ap (λ i. lookup i others) same in cc
  | inr e ↦ lookup-insert k j v entries ∙ rw (e)
]

module _ {W : Type 0} where
  abbrev pub IsIn : RegisteredHandlers W → Registration W → Type 0
  IsIn f g = IsKnown f g.deserializer g.handlers

  -- What a round of the loop without an error leaves.
  record Added (f : RegisteredHandlers W) (g g' : Registration W) : Type 0 where
    known : IsIn f g'
    kept : (h : RegisteredHandlers W) → IsIn h g → IsIn h g'

  inserted-Added :
      (f : RegisteredHandlers W) (g g' : Registration W)
      → lookup f.schema.message_type g.deserializer ≡ none
      → g'.deserializer ≡ insert f.schema.message_type f.deserializer g.deserializer
      → g'.handlers ≡ insert f.schema.message_type f.handlers g.handlers
      → Added f g g'
  inserted-Added f g g' absent d h = record {
    known = record {
      deserializer = ap (lookup f.schema.message_type) d ∙ lookup-insert_same _ _ g.deserializer;
      handlers = ap (lookup f.schema.message_type) h ∙ lookup-insert_same _ _ g.handlers;
    };
    kept = λ i k. record {
      deserializer =
          ap (lookup i.schema.message_type) d
          ∙ lookup-insert_other _ _ _ i.deserializer g.deserializer g.deserializer absent
              k.deserializer
          ∙ k.deserializer;
      handlers =
          ap (lookup i.schema.message_type) h
          ∙ lookup-insert_other _ _ _ i.deserializer g.handlers g.deserializer absent k.deserializer
          ∙ k.handlers;
    };
  }

  register_function-Added :
      (f : RegisteredHandlers W) (g g' : Registration W)
      → register_function f g ≡ (none, g')
      → Added f g g'
  unfolding register_function after_register_deserializer register_deserializer
  register_function-Added f g g' e = elim (Bool-cases (f.schema.message_type == "")) [
    | inl b ↦ let z = rw (b, register_function) at e in cc
    | inr b ↦ elim (Bool-cases (contains f.schema.message_type g.topic_message_types)) [
      | inl c ↦ let z = rw (b, c, register_function) at e in cc
      | inr c ↦ elim (Option-cases (lookup f.schema.message_type g.deserializer)) [
        | inl l ↦
            let z = rw (b, c, l, register_function, register_deserializer) at e in
            inserted-Added f g g' l (sym (ap (λ r. r.1.deserializer) z))
              (sym (ap (λ r. r.1.handlers) z))
        | inr (d, l) ↦ let z = rw (b, c, l, register_function, register_deserializer) at e in cc
      ]
    ]
  ]

  register_functions-kept :
      (fs : List (RegisteredHandlers W)) (g g' : Registration W) (h : RegisteredHandlers W)
      → register_functions fs g ≡ (none, g')
      → IsIn h g
      → IsIn h g'
  unfolding register_functions
  register_functions-kept [] g g' h e k = subst (IsIn h) (ap (λ r. r.1) e) k
  register_functions-kept (f ∷ fs) g g' h e k =
      let (m, a, b) = and_then-none (register_function f g) (register_functions fs) g' e in
      register_functions-kept fs m g' h b (let n = register_function-Added f g m a in n.kept h k)

  pub register_functions-IsKnown :
      (fs : List (RegisteredHandlers W)) (g g' : Registration W) (h : RegisteredHandlers W) (i : ℕ)
      → register_functions fs g ≡ (none, g')
      → get_elem? fs i ≡ some h
      → IsIn h g'
  unfolding register_functions
  register_functions-IsKnown [] g g' h i e k = cc
  register_functions-IsKnown (f ∷ fs) g g' h zero e k =
      let (m, a, b) = and_then-none (register_function f g) (register_functions fs) g' e in
      subst (λ x. IsIn x g') (let p : f ≡ h = cc in p)
        (register_functions-kept fs m g' f b (let n = register_function-Added f g m a in n.known))
  register_functions-IsKnown (f ∷ fs) g g' h (suc i) e k =
      let (m, a, b) = and_then-none (register_function f g) (register_functions fs) g' e in
      register_functions-IsKnown fs m g' h i b k

module _ {W K O : Type 0} (provide_consumer : Topic → Subscriber → W → Result K × W) where
  -- The listener of the key holds what was registered.
  pub record Holds (key : Subscriber × Topic) (listeners : Listeners W K O) (g : Registration W)
      : Type 0 where
    pub entry : ListenerData W K O
    pub entered : lookup key listeners ≡ some entry
    pub deserializer : entry.deserializer ≡ g.deserializer
    pub handlers : entry.handlers ≡ g.handlers

  after_get_consumer-Holds :
      (key : Subscriber × Topic) (g : Registration W) (opts : List O) (r : Result K × W)
      (listeners after : Listeners W K O) (w' : W)
      → after_get_consumer provide_consumer key g opts r listeners ≡ (none, (after, w'))
      → Holds key after g
  unfolding after_get_consumer
  after_get_consumer-Holds key g opts (err f, w) listeners after w' e = cc
  after_get_consumer-Holds key g opts (ok consumer, w) listeners after w' e =
      subst (λ x. Holds key x g) (ap (λ r. r.1.0) e)
        (record {
          entry = _;
          entered = lookup-insert_same key _ listeners;
          deserializer = refl;
          handlers = refl;
        })

  pub after_register_functions-Holds :
      (key : Subscriber × Topic) (opts : List O) (r : Option Error × Registration W)
      (listeners after : Listeners W K O) (w w' : W)
      → after_register_functions provide_consumer key opts r (listeners, w) ≡ (none, (after, w'))
      → (r.0 ≡ none) × Holds key after r.1
  unfolding after_register_functions
  after_register_functions-Holds key opts (some f, g) listeners after w w' e = cc
  after_register_functions-Holds key opts (none, g) listeners after w w' e = (
    refl,
    after_get_consumer-Holds key g opts (provide_consumer key.1 key.0 w) listeners after w' e,
  )
