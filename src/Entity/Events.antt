-- ===== src/Entity/Events.antt =====
-- The domain events of internal/entity/*_events.go: one record for each struct, and the methods
-- of the interface DomainEvent (internal/entity/domain_event.go) on each.
use billing_simulator.Base.{ℕ, String, Bool, Option, ℤ, Time}
use billing_simulator.Entity.Status.{
  EventType, InvoiceStatus, SubscriptionStatus, BillingInterval, customer_created, customer_updated,
  price_created, price_updated, product_created, product_updated, subscription_created,
  subscription_renewed, subscription_updated, subscription_canceled, invoice_created, invoice_paid,
  invoice_payment_failed, payment_intent_failed, payment_intent_succeeded,
}

-- A `uuid.UUID`: 128 bits, used as a name only.
abbrev pub Uuid : Type 0
Uuid = ℕ

-- CustomerCreatedEvent and CustomerUpdatedEvent have the same fields but for the time's name.
pub record CustomerEvent : Type 0 where
  pub customer_id : Uuid
  pub customer_public_id : String
  pub email : String
  pub name : String
  pub at : Time

pub record ProductCreated : Type 0 where
  pub product_id : Uuid
  pub product_public_id : String
  pub name : String
  pub description : String
  pub created_at : Time

pub record ProductUpdated : Type 0 where
  pub product_id : Uuid
  pub product_public_id : String
  pub name : String
  pub description : String
  pub active : Bool
  pub updated_at : Time

pub record PriceCreated : Type 0 where
  pub price_id : Uuid
  pub price_public_id : String
  pub product_id : Uuid
  pub amount : ℤ
  pub currency : String
  pub interval : BillingInterval
  pub interval_count : ℤ
  pub created_at : Time

pub record PriceUpdated : Type 0 where
  pub price_id : Uuid
  pub price_public_id : String
  pub product_id : Uuid
  pub amount : ℤ
  pub currency : String
  pub interval : BillingInterval
  pub interval_count : ℤ
  pub active : Bool
  pub updated_at : Time

pub record SubscriptionCreated : Type 0 where
  pub subscription_id : Uuid
  pub subscription_public_id : String
  pub customer_id : Uuid
  pub customer_public_id : String
  pub price_id : Uuid
  pub price_public_id : String
  pub status : SubscriptionStatus
  pub current_period_end : Time
  pub next_billing_at : Time
  pub created_at : Time

pub record SubscriptionCanceled : Type 0 where
  pub subscription_id : Uuid
  pub subscription_public_id : String
  pub customer_id : Uuid
  pub customer_public_id : String
  pub status : SubscriptionStatus
  pub canceled_at : Time
  pub at_period_end : Bool

pub record SubscriptionRenewed : Type 0 where
  pub subscription_id : Uuid
  pub subscription_public_id : String
  pub customer_id : Uuid
  pub customer_public_id : String
  pub invoice_id : Uuid
  pub invoice_public_id : String
  pub invoice_amount : ℤ
  pub invoice_currency : String
  pub invoice_status : InvoiceStatus
  pub new_period_end : Time
  pub renewed_at : Time

pub record SubscriptionUpdated : Type 0 where
  pub subscription_id : Uuid
  pub subscription_public_id : String
  pub customer_id : Uuid
  pub customer_public_id : String
  pub status : SubscriptionStatus
  pub cancel_at_period_end : Bool
  pub updated_at : Time

pub record InvoiceCreated : Type 0 where
  pub invoice_id : Uuid
  pub invoice_public_id : String
  pub customer_id : Uuid
  pub customer_public_id : String
  pub subscription_id : Option Uuid
  pub subscription_public_id : Option String
  pub amount : ℤ
  pub currency : String
  pub status : InvoiceStatus
  pub created_at : Time

pub record InvoicePaid : Type 0 where
  pub invoice_id : Uuid
  pub invoice_public_id : String
  pub customer_id : Uuid
  pub customer_public_id : String
  pub subscription_id : Option Uuid
  pub subscription_public_id : Option String
  pub amount : ℤ
  pub currency : String
  pub paid_at : Time

pub record InvoicePaymentFailed : Type 0 where
  pub invoice_id : Uuid
  pub invoice_public_id : String
  pub customer_id : Uuid
  pub customer_public_id : String
  pub subscription_id : Option Uuid
  pub subscription_public_id : Option String
  pub amount : ℤ
  pub currency : String
  pub error_code : String
  pub failed_at : Time

pub record PaymentIntentSucceeded : Type 0 where
  pub payment_intent_id : Uuid
  pub payment_intent_public_id : String
  pub customer_id : Uuid
  pub invoice_id : Option Uuid
  pub amount : ℤ
  pub currency : String
  pub succeeded_at : Time

pub record PaymentIntentFailed : Type 0 where
  pub payment_intent_id : Uuid
  pub payment_intent_public_id : String
  pub customer_id : Uuid
  pub invoice_id : Option Uuid
  pub amount : ℤ
  pub currency : String
  pub error_code : String
  pub decline_code : String
  pub failed_at : Time

pub data DomainEvent : Type 0 where
  customer_was_created customer_was_updated : CustomerEvent → DomainEvent
  product_was_created : ProductCreated → DomainEvent
  product_was_updated : ProductUpdated → DomainEvent
  price_was_created : PriceCreated → DomainEvent
  price_was_updated : PriceUpdated → DomainEvent
  subscription_was_created : SubscriptionCreated → DomainEvent
  subscription_was_canceled : SubscriptionCanceled → DomainEvent
  subscription_was_renewed : SubscriptionRenewed → DomainEvent
  subscription_was_updated : SubscriptionUpdated → DomainEvent
  invoice_was_created : InvoiceCreated → DomainEvent
  invoice_was_paid : InvoicePaid → DomainEvent
  invoice_payment_has_failed : InvoicePaymentFailed → DomainEvent
  payment_intent_has_succeeded : PaymentIntentSucceeded → DomainEvent
  payment_intent_has_failed : PaymentIntentFailed → DomainEvent

-- `EventType()`
unfoldable pub event_type : DomainEvent → EventType
event_type (customer_was_created _) = customer_created
event_type (customer_was_updated _) = customer_updated
event_type (product_was_created _) = product_created
event_type (product_was_updated _) = product_updated
event_type (price_was_created _) = price_created
event_type (price_was_updated _) = price_updated
event_type (subscription_was_created _) = subscription_created
event_type (subscription_was_canceled _) = subscription_canceled
event_type (subscription_was_renewed _) = subscription_renewed
event_type (subscription_was_updated _) = subscription_updated
event_type (invoice_was_created _) = invoice_created
event_type (invoice_was_paid _) = invoice_paid
event_type (invoice_payment_has_failed _) = invoice_payment_failed
event_type (payment_intent_has_succeeded _) = payment_intent_succeeded
event_type (payment_intent_has_failed _) = payment_intent_failed

-- `OccurredOn()`
unfoldable pub occurred_on : DomainEvent → Time
occurred_on (customer_was_created e) = e.at
occurred_on (customer_was_updated e) = e.at
occurred_on (product_was_created e) = e.created_at
occurred_on (product_was_updated e) = e.updated_at
occurred_on (price_was_created e) = e.created_at
occurred_on (price_was_updated e) = e.updated_at
occurred_on (subscription_was_created e) = e.created_at
occurred_on (subscription_was_canceled e) = e.canceled_at
occurred_on (subscription_was_renewed e) = e.renewed_at
occurred_on (subscription_was_updated e) = e.updated_at
occurred_on (invoice_was_created e) = e.created_at
occurred_on (invoice_was_paid e) = e.paid_at
occurred_on (invoice_payment_has_failed e) = e.failed_at
occurred_on (payment_intent_has_succeeded e) = e.succeeded_at
occurred_on (payment_intent_has_failed e) = e.failed_at

-- `AggregateID()`
unfoldable pub aggregate_id : DomainEvent → Uuid
aggregate_id (customer_was_created e) = e.customer_id
aggregate_id (customer_was_updated e) = e.customer_id
aggregate_id (product_was_created e) = e.product_id
aggregate_id (product_was_updated e) = e.product_id
aggregate_id (price_was_created e) = e.price_id
aggregate_id (price_was_updated e) = e.price_id
aggregate_id (subscription_was_created e) = e.subscription_id
aggregate_id (subscription_was_canceled e) = e.subscription_id
aggregate_id (subscription_was_renewed e) = e.subscription_id
aggregate_id (subscription_was_updated e) = e.subscription_id
aggregate_id (invoice_was_created e) = e.invoice_id
aggregate_id (invoice_was_paid e) = e.invoice_id
aggregate_id (invoice_payment_has_failed e) = e.invoice_id
aggregate_id (payment_intent_has_succeeded e) = e.payment_intent_id
aggregate_id (payment_intent_has_failed e) = e.payment_intent_id

-- `AggregateType()`
unfoldable pub aggregate_type : DomainEvent → String
aggregate_type (customer_was_created _) = "customer"
aggregate_type (customer_was_updated _) = "customer"
aggregate_type (product_was_created _) = "product"
aggregate_type (product_was_updated _) = "product"
aggregate_type (price_was_created _) = "price"
aggregate_type (price_was_updated _) = "price"
aggregate_type (subscription_was_created _) = "subscription"
aggregate_type (subscription_was_canceled _) = "subscription"
aggregate_type (subscription_was_renewed _) = "subscription"
aggregate_type (subscription_was_updated _) = "subscription"
aggregate_type (invoice_was_created _) = "invoice"
aggregate_type (invoice_was_paid _) = "invoice"
aggregate_type (invoice_payment_has_failed _) = "invoice"
aggregate_type (payment_intent_has_succeeded _) = "payment_intent"
aggregate_type (payment_intent_has_failed _) = "payment_intent"
