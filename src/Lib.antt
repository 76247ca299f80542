-- ===== src/Lib.antt =====
-- Verification of go-service-template: a Go service template with a user service, a user profile
-- service and the packages they stand on (messages, SQL, HTTP, authorisation).
--
-- Parts and files. A file opens with the source file it models; a definition carries the name of
-- the Go function, type or loop that it translates.
--   Common                     Boolean tests, lists, association lists for maps, Go errors
--                              (`errors.Is`, wrapping), equality classes
--   Message                    data and ports of pkg/message (message.go, broker.go, storage.go)
--   Message/CommitOffsetQueue  the queue of pkg/message/listenerqueue.go for a broker that commits
--                              offsets
--   Message/AckNackQueue       the queues of that file for brokers that acknowledge each message
--   Message/Outbox             pkg/message/outbox.go: `processBatch` and `process`
--   Message/Outbox/Worker      `Worker` and `Process` of that file, as steps
--   Message/StorageConsumer    pkg/message/storageconsumer.go: a batch, and its threads as steps
--   Message/StorageConsumer/Provider
--                              the provider of consumers in that file
--   Message/Listener           pkg/message/listener.go: `processMessage`, `acknowledgeMessage`, and how
--                              handlers are wrapped
--   Message/Listener/Consuming  `consumerWorker` of that file, as steps
--   Message/BusListener        pkg/message/buslistener.go: the registration of handlers
--   Message/Serializer         pkg/message/serializer.go
--   Message/Typed              pkg/message/event.go and pkg/message/task.go: events and tasks as messages
--   Message/Topics             pkg/message/topic.go and pkg/message/subscriber.go: names
--   Message/BusProducer        pkg/message/busproducer.go: `Register`, `Produce`, `Schedule`
--   Auth                       principals, permissions and `Check`/`Filter` (pkg/auth,
--                              internal/pkg/auth, the permission packages of both services)
--   Auth/Stored                the authentication in a context (pkg/auth/context.go)
--   User                       the user domain of internal/user/domain, and its ports
--   User/Service               internal/user/app/service/user.go: register, delete, read
--   User/Stored                what that service relies on of the table of users
--   User/Repository            internal/user/infra/sql/userrepository.go, and the service over it
--   User/Session               session tokens (internal/user/infra/session/tokengenerator.go)
--   User/Authentication        internal/user/app/service/auth.go
--   UserProfile                internal/userprofile/app/service/userprofile.go
--   UserProfile/Deleted        its handler of deleted users, over the idempotency keys
--   UserProfile/Http           the handlers of internal/userprofile/infra/http
--   UserProfile/Repository     internal/userprofile/infra/sql/userprofilerepository.go
--   UserProfile/Remote         internal/userprofile/infra/user/http/userservice.go, and its answers
--   Sql/Transaction            pkg/sql/transaction.go: `WithinContext`, row locks
--   Sql/Client                 the choice of a connection in pkg/sql/transaction.go
--   Sql/MessageStorage         pkg/sql/messagestorage.go: the table of stored messages, and the outbox
--                              over it
--   Sql/IdempotencyKey         pkg/sql/idempotencykey.go
--   Idk                        pkg/idk/service.go, over that storage
--   Sql/Lock                   pkg/sql/lock.go: advisory locks
--   Worker                     pkg/worker/pool.go and pkg/worker/group.go
--   Lazy                       pkg/lazy/loader.go
--   Env                        pkg/env/env.go
--   Clock                      pkg/time/clock.go
--   Log                        pkg/log/logger.go and pkg/log/stub.go
--   Observability              pkg/observability: fields of contexts
--   Http/Observability         pkg/http/observability.go
--   Message/Observability      those fields in the metadata of messages (`WithBusProducerObservability` and
--                              `WithHandlerObservability`)
--   Strings                    `ParseTypedValue` of pkg/strings/utils.go
--   Http                       pkg/http/handler.go, and path parameters of pkg/http/parser.go
--   Http/Parser                the other extractors of pkg/http/parser.go
--   Http/Client                pkg/http/client.go: options, and codes mapped to errors
--   Http/Authentication        pkg/http/auth.go and the tokens of internal/pkg/http/authtoken.go
--   User/Http                  the handlers of internal/user/infra/http for one user
--   User/Http/Accounts         the handlers there that register, authenticate and verify
--   Event                      pkg/event/event.go: the event dispatcher
--   Sql/Migration              pkg/sql/migration.go: `Execute`, but for reading files
-- Files named Examples or Tests hold runs at concrete inputs; Double and Doubles hold what they
-- stand on. Common/Tests holds the Boolean tests.
--
-- How they interact: a bus producer turns structured messages into messages and stores them
-- (scheduled) or sends them (direct); the outbox takes stored messages in batches, sends them
-- through the producer of a broker and deletes them; a listener takes a token of its processing
-- queue for each message that it receives, runs the message's handlers in a group of workers, and
-- acknowledges the result to the queue; the storage consumer gives a listener stored messages.
-- The bus listener registers the handlers that a listener runs, and the deserializers of their types.
-- The user service checks the permission of the principal in the context, and runs its reads and
-- writes of users in a transaction; the SQL package implements such transactions, and the repositories
-- of both services run their queries on its client. The profile service reads users from the user
-- service over HTTP, and handles a deleted user under an idempotency key. Fields of a request's context,
-- such as its id, are carried by bus producers through the metadata of messages to their handlers.
--
-- Conventions. A struct is a record, a map an association list or a function, a Go error a value of
-- `Error`. What the code calls outside the repository, or behind an interface, is a parameter that
-- acts on a world of type `W`; where a theorem needs its behaviour, a record of hypotheses says
-- which, and an example instantiates it. A step under a mutex is one function. A send on a full
-- channel, and the call of a nil function, is `none`. The deadline of
-- a context is modelled where the listener and the storage consumer look at it, and nowhere else; the
-- values that a context carries are, where they matter. Format directives of error texts stand
-- unexpanded.
--
-- Fuel. The loop of `process` runs on fuel, one unit for each batch; `Outbox.Drain` proves that one
-- unit more than the number of due messages is enough if no call fails, and `Outbox.Errors` that
-- none is enough where the storage cannot be read. The loops of `processMessage` take one unit for
-- each round; `Listener.Returns` proves that two units more than the rounds that can still fail before
-- the context is done are enough: one for a round that does not fail, and one that finds the context done.
--
-- Not modelled: metrics and the options that log, the wiring of containers and commands, the HTTP server,
-- the setters of the HTTP client that pass values on to its library, the middlewares that log
-- or measure, periodical jobs, generated converters, database drivers and brokers. Opening a database and
-- reading migrations are calls of libraries.
pub mod Common
pub mod Message
pub mod Auth
pub mod User
pub mod Sql
pub mod UserProfile
pub mod Event
pub mod Worker
pub mod Strings
pub mod Http
pub mod Idk
pub mod Lazy
pub mod Env
pub mod Clock
pub mod Log
pub mod Observability
