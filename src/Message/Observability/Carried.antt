-- ===== src/Message/Observability/Carried.antt =====
-- That the fields in a producer's context are read in the context of the handlers.
use go_service_template.Common.{
  ℕ, ◌≡◌, refl, sym, ap, ◌∙◌, inl, inr, String, string_eq, ◌==◌, ==_iff, ==_refl, true, false,
  Option, none, some, List, [], ◌∷◌, ◌++◌, All, Result, ok, Bool-cases,
}
use go_service_template.Common.Assoc.{lookup, contains}
use go_service_template.Message.{Message, StructuredMessage, Metadata, with_result-ok}
use go_service_template.Message.BusProducer.{
  BusProducer, BusProducerConfig, merge, build_metadata, serialize_payload,
}
use go_service_template.Message.Listener.{Handler, with_handler_metadata}
use go_service_template.Message.Listener.Handlers.{wrap_with_middlewares}
use go_service_template.Message.Observability.{
  meta_key, collect_values, metadata_of, restore_field, restore_fields, build_fields,
  with_bus_producer_observability, leave, observe, with_handler_observability,
}
use go_service_template.Message.Observability.Collected.{collected-found}
use go_service_template.Observability.{
  Field, Context, Observer, ObserverConfig, new_observer, field_of, configured,
}
use go_service_template.Observability.Laws.{field_of-set_field}

module _ (opts : List (ObserverConfig → ObserverConfig)) (f : Field) where
  restore_field-other :
      (found : Option String) (g : Field) (c : Context)
      → (g == f) ≡ false
      → field_of (restore_field (new_observer opts) found g c) f ≡ field_of c f
  unfolding restore_field new_observer
  restore_field-other none g c h = refl
  restore_field-other (some u) g c h = elim (Bool-cases (u == "")) [
    | inl e ↦ rw (e) refl
    | inr e ↦ rw (e) (rw (e, h) at (field_of-set_field (configured opts) c f g u))
  ]

  restore_field-same :
      (x : String) (c : Context)
      → (x == "") ≡ false
      → field_of (restore_field (new_observer opts) (some x) f c) f ≡ x
  unfolding restore_field new_observer
  restore_field-same x c e =
      rw (e) (rw (e, ==_refl f) at (field_of-set_field (configured opts) c f f x))

  module _ (metadata : Metadata) (x : String) (held : lookup (meta_key f) metadata ≡ some x)
      (e : (x == "") ≡ false) where
    restore_fields-kept :
        (fields : List Field) (c : Context)
        → field_of c f ≡ x
        → field_of (restore_fields (new_observer opts) metadata fields c) f ≡ x
    unfolding restore_fields
    restore_fields-kept [] c h = h
    restore_fields-kept (g ∷ fields) c h =
        restore_fields-kept fields
          (restore_field (new_observer opts) (lookup (meta_key g) metadata) g c)
          (elim (Bool-cases (g == f)) [
            | inl s ↦ rw ((==_iff g f).0 s, held) (restore_field-same x c e)
            | inr s ↦ restore_field-other (lookup (meta_key g) metadata) g c s ∙ h
          ])

    restore_fields-found :
        (fields : List Field) (c : Context)
        → contains f fields ≡ true
        → field_of (restore_fields (new_observer opts) metadata fields c) f ≡ x
    unfolding restore_fields contains
    restore_fields-found [] c h = cc
    restore_fields-found (g ∷ fields) c h = elim (Bool-cases (g == f)) [
      | inl s ↦
          rw ((==_iff g f).0 s, held)
            (restore_fields-kept fields (restore_field (new_observer opts) (some x) f c)
              (restore_field-same x c e))
      | inr s ↦
          restore_fields-found fields
            (restore_field (new_observer opts) (lookup (meta_key g) metadata) g c) (rw s at h)
    ]

module _ {V : Type 0} where
  -- A function does not change the context of its caller.
  abbrev pub KeepsContext : (Context × V → Result Metadata × (Context × V)) → Type 0
  KeepsContext builder = (w : Context × V) → (builder w).1.0 ≡ w.0

  -- The last builder of metadata: what it makes is merged into what there is.
  build_metadata-last :
      (o : Observer) (fields : List Field)
      (builders : List (Context × V → Result Metadata × (Context × V))) (start : Metadata)
      (w after : Context × V) (meta : Metadata)
      → All KeepsContext builders
      → build_metadata (builders ++ build_fields o fields ∷ []) start w ≡ (ok meta, after)
      → (t : Metadata) × (meta ≡ merge (metadata_of (collect_values o w.0 fields []) []) t)
  unfolding build_metadata build_fields
  build_metadata-last o fields [] start (c, v) after meta keeps e = (start, cc)
  build_metadata-last o fields (builder ∷ builders) start w after meta keeps e =
      let (extra, between, made, rest) = with_result-ok _ (builder w) _ meta after e in
      let k : between.0 ≡ w.0 = sym (ap (λ r. r.1.0) made) ∙ keeps.0 w in
      let (t, m) =
        build_metadata-last o fields builders (merge extra start) between after meta keeps.1 rest in
      (t, m ∙ ap (λ c. merge (metadata_of (collect_values o c fields []) []) t) k)

  -- What `serializePayloadImpl` serializes.
  serialize_payload-ok :
      (p : BusProducer (Context × V)) (config : BusProducerConfig (Context × V))
      (msg : StructuredMessage) (bytes : List ℕ) (start w : Context × V)
      → serialize_payload p config msg start ≡ (ok bytes, w)
      → (meta : Metadata) × (between : Context × V) × (build_metadata config.metadata_builders []
            start
          ≡ (ok meta, between))
        × (p.serialize msg meta ≡ ok bytes)
  unfolding serialize_payload
  serialize_payload-ok p config msg bytes start w e =
      let (meta, between, built, rest) =
        with_result-ok _ (build_metadata config.metadata_builders [] start) _ bytes w e in
      let (payload, after, s, last) =
        with_result-ok _ (p.serialize msg meta, between) _ bytes w rest in
      (meta, between, built, ap (λ r. r.0) s ∙ ap (λ r. r.0) last)

  -- If a payload was serialized by a producer with the observability of some fields as its last option, and
  -- the other builders of metadata left the context alone, then whatever reads the payload back as the
  -- message with what was serialized gives a handler, behind the same option of a listener as its only
  -- middleware, a context in which each field of both options, if it was not empty, has the value that it
  -- had in the producer's context.
  pub serialized-observed :
      (p : BusProducer (Context × V)) (config : BusProducerConfig (Context × V))
      (opts heard_opts : List (ObserverConfig → ObserverConfig)) (fields heard : List Field)
      (deserialize : List ℕ → Result (StructuredMessage × Metadata)) (msg : StructuredMessage)
      (bytes : List ℕ) (c d : Context) (u v : V) (after : Context × V) (f : Field)
      (handler : Handler (Context × V)) (received : Message)
      → All KeepsContext config.metadata_builders
      → serialize_payload p
          (with_bus_producer_observability (new_observer opts) fields config)
          msg
          (c, u)
        ≡ (ok bytes, after)
      → ((meta : Metadata) → p.serialize msg meta ≡ ok bytes → deserialize bytes ≡ ok (msg, meta))
      → contains f fields ≡ true
      → contains f heard ≡ true
      → (field_of c f == "") ≡ false
      → (meta : Metadata) × (seen : Context) × (deserialize bytes ≡ ok (msg, meta))
        × (wrap_with_middlewares
              (with_handler_observability (new_observer heard_opts) heard [])
              handler
              (with_handler_metadata received meta)
              msg
              (d, v)
            ≡ leave d (handler (with_handler_metadata received meta) msg (seen, v)))
        × (field_of seen f ≡ field_of c f)
  unfolding with_bus_producer_observability with_handler_observability wrap_with_middlewares observe
      contains
  serialized-observed p config opts heard_opts [] heard deserialize msg bytes c d u v after f
        handler received keeps s reads written restored e =
      cc
  serialized-observed p config opts heard_opts (g ∷ fields) [] deserialize msg bytes c d u v after f
        handler received keeps s reads written restored e =
      cc
  serialized-observed p config opts heard_opts (g ∷ fields) (h ∷ heard) deserialize msg bytes c d u
        v after f handler received keeps s reads written restored e =
      let (meta, between, built, serialized) = serialize_payload-ok p _ msg bytes (c, u) after s in
      let (t, m) =
        build_metadata-last (new_observer opts) (g ∷ fields) config.metadata_builders [] (c, u)
          between meta keeps built in
      let held : lookup (meta_key f) meta ≡ some (field_of c f) =
        ap (lookup (meta_key f)) m ∙ collected-found opts c f (g ∷ fields) t written e in
      (
        meta,
        restore_fields (new_observer heard_opts) meta (h ∷ heard) d,
        reads meta serialized,
        refl,
        restore_fields-found heard_opts f meta (field_of c f) held e (h ∷ heard) d restored,
      )
