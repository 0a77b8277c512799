-- ===== src/Service.antt =====
-- internal/service: the operations of the program, each one transaction over the tables.
pub mod Call
pub mod EventDispatcher
pub mod Notification
pub mod Billing
pub mod Payment
pub mod WebhookDelivery
pub mod WebhookEndpoints
pub mod Customers
pub mod Products
pub mod Prices
pub mod InvoiceQueries
pub mod Time
pub mod PaymentRate
