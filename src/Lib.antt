-- ===== src/Lib.antt =====
-- The billing simulator: customers subscribe to prices, subscriptions renew and are invoiced,
-- invoices are paid through payment intents, and what happens is published as events and sent to
-- webhooks.
--
-- How the parts interact. An HTTP handler or a worker calls a service (internal/service). The
-- service runs one function in a transaction (pkg/storage/postgres/transaction), which reads and
-- writes tables through the repositories (internal/repository), changes the entities
-- (internal/entity), and stores the events that they raised in the outbox, in the same
-- transaction. The outbox worker hands the stored events to the notification service, which makes
-- a log for each endpoint of the customer (internal/service/webhook.go); the webhook worker
-- (internal/worker/webhook_retry.go) sends what is due. The virtual clock (internal/clock) says what
-- time it is, and the renewal worker and the time service renew what is due by then.
--
-- Which file models which part:
--   Base, Base/*           Go's int64, instants and calendar, lists, tests
--   Entity/Errors          internal/entity/errors.go, and how a call ends (Outcome)
--   Entity/Status          the string enumerations and event types of internal/entity
--   Entity/Events          internal/entity/*_events.go
--   Entity/Aggregate       internal/entity/aggregate.go, domain_event.go, id.go
--   Entity/Invoice, PaymentIntent, Price, Subscription, Customer, Product, WebhookLog,
--   WebhookEndpoint        the files of internal/entity of the same names
--   Entity/Outbox          internal/entity/outbox_event.go
--   Entity/StoredEvent     internal/entity/event.go
--   Clock                  internal/clock: clock.go and store_redis.go
--   Platform/Backoff       the delays between attempts, of PostgreSQL, transactions and the processor
--   Platform/DeadLetters   pkg/kafka/dlq: dlq.go and options.go
--   Platform/Postgres, Redis
--                          pkg/storage/postgres, pkg/storage/redis: the configuration and New
--   Platform/Processor     pkg/kafka: processor.go, errors.go, options_processor.go; Accounting is
--                          processWithRetry over the queue of dead letters
--   Platform/Transaction   pkg/storage/postgres/transaction: ExecuteInTransaction
--   Repository/Table       INSERT, UPDATE and SELECT over a list of rows
--   Repository/*           internal/repository: one file for each table that is modelled
--   Repository/CacheLock   internal/repository/cache.go: Lock, over an interface for Redis
--   Repository/Cache       internal/repository/cache.go: the operations on values
--   Service/Call           what an attempt meets, and internal/service/helpers.go
--   Service/Billing        internal/service/billing.go
--   Service/Payment        internal/service/payment.go
--   Service/EventDispatcher internal/service/event_dispatcher.go and dto.go
--   Service/Notification   internal/service/notification.go
--   Service/WebhookDelivery, WebhookEndpoints
--                          internal/service/webhook.go, webhook_endpoint.go
--   Service/Customers, Products, Prices, InvoiceQueries
--                          internal/service/customer.go, product.go, price.go, invoice_query.go
--   Transport/Response     internal/transport/http/dto.go, dto_resources.go, error_handling.go
--   Transport/Resources    internal/transport/http/handlers_resoutces.go
--   Transport/Billing      internal/transport/http/handlers.go, facade.go
--   Transport/Hub          internal/transport/ws/hub.go, client.go
--   Transport/KafkaSender  internal/transport/kafka/event_sender.go
--   Transport/Simulation   internal/transport/http/handlers.go: time, payment rate, health;
--                          middleware.go
--   Service/PaymentRate    internal/service/payment_rate_manager.go
--   Service/Time           internal/service/time.go
--   Worker/Outbox          internal/worker/outbox_worker.go
--   Worker/InvoiceDue      internal/worker/invoice_due.go
--   Worker/Cleanup         internal/worker/cleanup.go
--   Worker/Ticker          Start and Stop of the workers for renewals, overdue invoices and webhooks
--   Worker/SubscriptionRenewal
--                          internal/worker/subscription_renewal.go, and the renewals of time.go
--   Worker/WebhookRetry    internal/worker/webhook_retry.go
--   Examples               tests, and the theorems at concrete inputs
--
-- How state and effects are modelled. An entity is a record, and a method of a pointer returns the
-- changed record. A call ends in an Outcome: a value, an error, a panic, or a stack that is used
-- up. A wrapped error is the error that it wraps. What is outside (the database's errors, the
-- clock, random draws, json.Marshal, HMAC, the answers of endpoints) is an argument. A table is a
-- list of rows. A transaction works on the tables and its rollback drops what it did. Instants are
-- nanoseconds since 1970. The method AggregateRoot.Raise is an argument of the operations that
-- call it: it calls itself as it stands, and was meant to call the Raise of DomainEvents.
--
-- Bounds. The loop of ExecuteInTransaction is a recursion on the attempts that are left, of which
-- MaxAttempts are given, as in the source. The recursion of AggregateRoot.Raise is one on the frames
-- that the stack has room for, any number; where none is left, the call overflows, as in Go. The
-- loop of processWithRetry is a recursion on the attempts that are left, of which MaxAttempts are
-- given. The loops that connect to PostgreSQL and Redis recur on their attempts as well. The loops of
-- the workers have no end of their own: they are sequences of any number of steps, or recursions on
-- the signals that their select takes. All other loops are recursions on lists. Amounts, durations and
-- the delays between attempts are int64 and wrap, and the difference of two instants stops at the
-- greatest duration, as in Go; the delays of the dead-letter queue are taken to be small enough to be
-- doubled. What a theorem needs of delays it says: positive, and below 2 ^ 62 nanoseconds.
--
-- Redis is what it holds: for the clock the offset under its key, for locks an interface of three
-- commands with the laws that Redis documents. What happens concurrently is a sequence of steps:
-- of callers of a lock, of clients of the hub, of renewals, of the workers of the outbox, of the
-- callers of the dead-letter queue and its worker.
--
-- Not modelled: the setting up of configuration, logging, metrics, tracing and the wiring of the
-- program; routing, most of the middleware and the pumps of a WebSocket connection, which call
-- libraries; the handlers CancelSubscription and GetSubscription, which do not compile; Start and
-- Stop of the outbox processor and of the Kafka processor; Incr of the cache. The interface that
-- the outbox worker has of its store, and the lookup that the invoice worker has of subscriptions
-- by invoice, have no implementation in the repository: they are arguments, with the laws that a
-- theorem needs. The success rate of payments is a float64, of which only the comparison is used:
-- its type is an argument. A transaction is modelled alone: no other one changes the tables between
-- two of its attempts, and the renewals of the goroutines of the time service are made one after
-- the other. A commit can fail though the database has committed. The table of products keeps the
-- microseconds of its instants, as TIMESTAMPTZ does; the other tables keep them whole.
pub mod Base
pub mod Entity
pub mod Clock
pub mod Platform
pub mod Repository
pub mod Worker
pub mod Service
pub mod Transport
pub mod Examples
