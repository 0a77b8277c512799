-- ===== src/Repository/Database.antt =====
-- The tables that the services of internal/service write in one transaction.
use billing_simulator.Base.{List}
use billing_simulator.Entity.Customer.{Customer}
use billing_simulator.Entity.Price.{Price}
use billing_simulator.Entity.Subscription.{Subscription}
use billing_simulator.Entity.Invoice.{Invoice}
use billing_simulator.Entity.PaymentIntent.{PaymentIntent}
use billing_simulator.Entity.Outbox.{OutboxEvent}

pub record Database : Type 0 where
  pub customers : List Customer
  pub prices : List Price
  pub subscriptions : List Subscription
  pub invoices : List Invoice
  pub payment_intents : List PaymentIntent
  pub outbox : List OutboxEvent
