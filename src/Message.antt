-- ===== src/Message.antt =====
-- The data that the parts of pkg/message share (message.go, broker.go, storage.go), and what
-- they are given by other code: effects on a world of type `W`.
pub mod CommitOffsetQueue
pub mod AckNackQueue
pub mod Outbox
pub mod BusProducer
pub mod StorageConsumer
pub mod Listener
pub mod Serializer
pub mod BusListener
pub mod Typed
pub mod Topics
pub mod Observability
mod Examples
use go_service_template.Common.{
  ℕ, String, Bool, Option, none, some, List, Error, Result, ok, err, ◌≡◌, refl,
}

-- `uuid.UUID` and `time.Time` are compared and passed on only, so they are numbers.
abbrev pub Uuid : Type 0
Uuid = ℕ

abbrev pub Time : Type 0
Time = ℕ

abbrev pub Topic : Type 0
Topic = String

pub record Message : Type 0 where
  pub id : Uuid
  pub topic : Topic
  pub key : String
  pub payload : List ℕ  -- []byte

-- A `*ConsumerMessage`: the pointer, which `==` compares, and what it points to.
pub record ConsumerMessage : Type 0 where
  pub address : ℕ
  pub message : Message

-- A call that changes the world of type `W` and may fail.
abbrev pub Effect : Type 0 → Type 0
Effect W = W → Option Error × W

pub record StorageSpecification : Type 0 where
  pub ids_excluded : List Uuid
  pub topics : List Topic
  pub scheduled_at_before : Time
  pub limit : ℕ  -- no limit if 0 or below

-- The methods of a `Storage`. `lock` returns the function that releases the lock; contexts carry
-- a connection and a deadline, and are not modelled.
pub record Storage (W : Type 0) : Type 0 where
  pub lock : List String → W → Result (Effect W) × W
  pub find : StorageSpecification → W → Result (List Message) × W
  pub store : Time → List Message → Effect W
  pub delete : Topic → List Uuid → Effect W

-- `if err := …; err != nil { return err }`, and then the rest.
abbrev pub and_then : {W : Type 0} → Option Error × W → Effect W → Option Error × W
and_then (none, w) rest = rest w
and_then (some e, w) rest = (some e, w)

pub and_then-none :
    {W : Type 0}
    → (r : Option Error × W) (rest : Effect W) (after : W) → and_then r rest ≡ (none, after)
    → (between : W) × (r ≡ (none, between)) × (rest between ≡ (none, after))
and_then-none (none, w) rest after e = (w, refl, e)
and_then-none (some f, w) rest after e = cc

-- A `StructuredMessage`: what its methods return, its Go type (`reflect.TypeOf`), and the rest of
-- its content, which only a serializer or a key builder looks at.
pub record StructuredMessage : Type 0 where
  pub id : Uuid
  pub message_type : String
  pub reflect_type : ℕ
  pub content : List ℕ

-- What a `RegisterMessageFunc` returns: a blank message and a key builder, which may be nil.
pub record RegisteredMessage : Type 0 where
  pub schema : StructuredMessage
  pub key_builder : Option (StructuredMessage → String)

-- A `Metadata` map.
abbrev pub Metadata : Type 0
Metadata = List (String × String)

-- `if err != nil { return fmt.Errorf(…, err) }`, and then `return nil`.
abbrev pub wrap_error : {W : Type 0} → (Error → Error) → Option Error × W → Option Error × W
wrap_error wrapped (none, w) = (none, w)
wrap_error wrapped (some e, w) = (some (wrapped e), w)

-- `a, err := …; if err != nil { return fmt.Errorf(…, err) }`, and then the rest.
abbrev pub with_result :
    {W A B : Type 0} → (Error → Error) → Result A × W → (A → W → Result B × W) → Result B × W
with_result wrapped (ok a, w) rest = rest a w
with_result wrapped (err e, w) rest = (err (wrapped e), w)

pub with_result-ok :
    {W A B : Type 0}
    → (wrapped : Error → Error) (r : Result A × W) (rest : A → W → Result B × W) (b : B) (after : W)
    → with_result wrapped r rest ≡ (ok b, after)
    → (a : A) × (between : W) × (r ≡ (ok a, between)) × (rest a between ≡ (ok b, after))
with_result-ok wrapped (ok a, w) rest b after e = (a, w, refl, e)
with_result-ok wrapped (err f, w) rest b after e = cc

abbrev pub with_value : {W A : Type 0} → (Error → Error) → Result A → (A → Effect W) → Effect W
with_value wrapped (ok a) rest w = rest a w
with_value wrapped (err e) rest w = (some (wrapped e), w)
