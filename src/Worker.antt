-- ===== src/Worker.antt =====
-- internal/worker: the background workers.
pub mod WebhookRetry
pub mod SubscriptionRenewal
pub mod Outbox
pub mod InvoiceDue
pub mod Cleanup
pub mod Ticker
