-- ===== src/Lib.antt =====
-- A model of the wallet microservice: an event-sourced wallet in Django, with a projected read
-- model and a transactional outbox.
--
-- The program's parts. A request reaches the command handler, which calls the command service. The
-- service loads the wallet's aggregate from its events, calls a method on it, and saves the events
-- that the method has recorded. The event-sourced repository appends them to the event store, which
-- puts a message of each into the outbox, and in debug mode projects it, in one transaction. The
-- projector keeps a table of wallets with their balances, which the queries read. A publisher sends
-- the messages of the outbox to Kafka, a consumer takes them from there to the handlers on the
-- event bus, and another consumer takes the booking service's commands from RabbitMQ to the command
-- handler.
--
-- The files:
--   Base: numbers, lists, integers, texts and tables, on the libraries' definitions.
--   Errors: the exceptions of src/domain/apps/wallet/exceptions.py, src/domain/shared/exceptions.py
--     and src/domain/outbox/exceptions.py. Errors/Exec is code over a state that may raise:
--     `atomic` is `transaction.atomic`, `catch` is `try` with one `except`.
--   Decimal: `decimal.Decimal` as the service uses it, and `_quantize` and `_validate_amount` of
--     src/infrastructure/projectors/wallet/projector.py.
--   Event: src/domain/apps/wallet/events.py and its base class in src/domain/shared/events.py.
--     An event is the common fields (`Meta`) and a `Body`, with one constructor for each class.
--     Event/Serial has `to_dict` and `event_from_dict`, Event/TypeName the names of types.
--   Aggregate: src/domain/apps/wallet/aggregate.py. `apply` is `_apply`, `when` is `when`, `handler`
--     the nine methods `when_…Event`; Aggregate/Operations has the command methods by their names,
--     and Aggregate/Entity the class `Wallet` of src/domain/apps/wallet/models.py.
--   ReadModel: the table of src/infrastructure/apps/wallet/models.py. ReadModel/Projector is
--     `WalletProjector`, ReadModel/Runner is `WalletProjectionRunner` and the command
--     src/infrastructure/apps/outbox/management/commands/rebuild_wallet_projection.py.
--   Outbox: src/infrastructure/repos/outbox/orm_repository.py over the table of
--     src/infrastructure/apps/outbox/models.py. Outbox/Admin has the two actions of admin.py beside
--     the models.
--   EventStore: src/infrastructure/repos/event_store_repo.py (EventStore/Append) and
--     src/infrastructure/repos/wallet/wallet_command_repo.py (EventStore/Load and
--     EventStore/CommandRepo) over the table of src/infrastructure/apps/eventstore/models.py.
--   Service: src/application/wallet/services/wallet_command_services.py over the interface of
--     src/domain/apps/wallet/repository.py.
--   Handler: src/application/wallet/handlers/wallet_command_handler.py.
--   Commands: src/domain/apps/wallet/commands.py on src/domain/shared/commands.py. Commands/Messages
--     has the classes, check_body what constructing one checks; pydantic's constraints are the
--     parameter Pydantic.
--   Users: src/application/external/user_view.py and, in services beside it, http_client.py and
--     user_api_client.py.
--   Auth: the middleware of wallet_service/middleware/auth.py and the verifier of
--     wallet_service/auth/jwt_verifier.py, with its cache of the public key.
--   Views: src/apis/wallet/command_views.py. The views with a JSON body are serve_body
--     (Views/Bodies) at what each reads of it (Views/Balance); Views/Query is
--     src/apis/wallet/query_views.py.
--   Queries: src/infrastructure/repos/wallet/wallet_query_repo.py,
--     src/application/wallet/services/wallet_query_services.py and
--     src/application/wallet/handlers/wallet_query_handler.py.
--
--   Dedup: the deduplication that both consumers share, over Django's cache.
--   Rabbit: src/application/ant_corruption_layer/booking/commands/room_acl_commands.py and
--     src/messaging/rabbitMQ/dispatchers/booking_acl.py. Rabbit/Booking has the handlers of
--     src/messaging/rabbitMQ/command_handlers/booking_command_handlers.py, Rabbit/Consumer the
--     callback of src/messaging/rabbitMQ/consumer.py.
--   Bus: src/messaging/event_bus.py, with the handlers of src/messaging/wallet/event_handlers.py and
--     their subscription in src/messaging/wallet/config.py (Bus/Handlers).
--   Kafka: Kafka/Publisher is src/messaging/kafka/outbox_publisher.py over the outbox,
--     Kafka/Consumer is src/messaging/kafka/consumer.py, and Kafka/Dispatch its dispatchers in
--     src/messaging/kafka/dispatchers/wallet/dispatchers.py.
--
-- How the state corresponds. A table is a list of rows in the order of their insertion, with the
-- schema's constraints checked on every write. A method is a function from the state to its result,
-- a value or an exception, and the state after. Times are microseconds since the epoch, ids their
-- 128-bit numbers, balances ten-thousandths of the currency's unit. What `uuid4` and the clock
-- return is an argument, and so are the texts of ids, amounts and times (`Codec`), with the laws
-- that the parsers accept what `str` and `isoformat` write, and the answers of the user service.
--
-- Bounds and fuel. The attempts of the outbox's `save` are the recursion of its loop. The count of
-- the digits past the decimal context takes the coefficient itself as fuel, which is more than its
-- number of digits.
--
-- A loop that never ends is its body folded over a list of what its rounds meet: the deliveries of
-- RabbitMQ, the answers of a poll, the producers of the publisher's rounds.
--
-- Parameters. Django's cache, the channel of pika, the producer of confluent_kafka, `json.loads`,
-- the server of the public key, `jwt.decode`, what a request of requests is answered and pydantic's
-- check of a decimal are arguments with the laws that the theorems name.
--
-- Not modelled: admin displays and configuration, which are I/O around these parts; JSON values
-- other than null, texts, natural numbers and objects; connecting to the brokers; the texts of
-- messages; locks between sessions, since code runs here one call after the other.
pub mod Base
pub mod Errors
pub mod Decimal
pub mod Event
pub mod Aggregate
pub mod ReadModel
pub mod Outbox
pub mod EventStore
pub mod Service
pub mod Users
pub mod Queries
pub mod Handler
pub mod Commands
pub mod Auth
pub mod Views
pub mod Dedup
pub mod Rabbit
pub mod Bus
pub mod Kafka
