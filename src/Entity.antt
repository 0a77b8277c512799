-- ===== src/Entity.antt =====
-- internal/entity: the domain model. Each aggregate has a module of its own; its laws are in the
-- module's children.
pub mod Errors
pub mod Status
pub mod Events
pub mod Aggregate
pub mod Invoice
pub mod Price
pub mod PaymentIntent
pub mod Subscription
pub mod Customer
pub mod Product
pub mod Overflow
pub mod WebhookLog
pub mod WebhookEndpoint
pub mod Outbox
pub mod StoredEvent
pub mod ApiRequest
