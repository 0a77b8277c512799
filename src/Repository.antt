-- ===== src/Repository.antt =====
-- internal/repository: the statements on each table. A table is the list of its rows in the order
-- of insertion, a row is the entity as the statements store it, and a statement is the function
-- that its SQL text states: WHERE a test on a row, SET a change of a row, ORDER BY a stable sort,
-- LIMIT a prefix. That the driver refuses a statement is an input, its error: the statement then
-- has no effect.
pub mod Table
pub mod WebhookLogs
pub mod Customers
pub mod Prices
pub mod Subscriptions
pub mod Invoices
pub mod PaymentIntents
pub mod Outbox
pub mod Database
pub mod Events
pub mod WebhookEndpoints
pub mod Products
pub mod CacheLock
pub mod Cache
pub mod ApiRequests
