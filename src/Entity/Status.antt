-- ===== src/Entity/Status.antt =====
-- The string enumerations of internal/entity, as data types, with the texts that they stand for
-- in the database and in payloads.
use Prim.Native.String.{String}
use mathlib.Core.Bool.{Bool, true, false}

pub data InvoiceStatus : Type 0 where
  draft open_ paid uncollectible void : InvoiceStatus

pub data SubscriptionStatus : Type 0 where
  active past_due canceled unpaid trialing incomplete : SubscriptionStatus

pub data SubscriptionCancelMode : Type 0 where
  cancel_immediate cancel_at_period_end : SubscriptionCancelMode
  -- any other int of the type
  other_mode : SubscriptionCancelMode

pub data PaymentIntentStatus : Type 0 where
  requires_payment_method requires_confirmation requires_action : PaymentIntentStatus
  requires_capture processing succeeded canceled : PaymentIntentStatus

pub data BillingInterval : Type 0 where
  day week month year : BillingInterval
  -- any other text of the type
  other_interval : BillingInterval

pub data WebhookStatus : Type 0 where
  pending delivered failed : WebhookStatus

pub data EventType : Type 0 where
  customer_created customer_updated price_created price_updated : EventType
  product_created product_updated subscription_created subscription_renewed : EventType
  subscription_updated subscription_canceled invoice_created invoice_paid : EventType
  invoice_payment_failed payment_intent_failed payment_intent_succeeded : EventType

unfoldable pub event_name : EventType → String
event_name customer_created = "customer.created"
event_name customer_updated = "customer.updated"
event_name price_created = "price.created"
event_name price_updated = "price.updated"
event_name product_created = "product.created"
event_name product_updated = "product.updated"
event_name subscription_created = "subscription.created"
event_name subscription_renewed = "subscription.renewed"
event_name subscription_updated = "subscription.updated"
event_name subscription_canceled = "subscription.canceled"
event_name invoice_created = "invoice.created"
event_name invoice_paid = "invoice.paid"
event_name invoice_payment_failed = "invoice.payment_failed"
event_name payment_intent_failed = "payment_intent.payment_failed"
event_name payment_intent_succeeded = "payment_intent.succeeded"

unfoldable pub is_paid : InvoiceStatus → Bool
is_paid paid = true
is_paid _ = false

unfoldable pub is_canceled : SubscriptionStatus → Bool
is_canceled canceled = true
is_canceled _ = false

unfoldable pub is_active : SubscriptionStatus → Bool
is_active active = true
is_active _ = false

unfoldable pub is_past_due : SubscriptionStatus → Bool
is_past_due past_due = true
is_past_due _ = false

unfoldable pub is_unpaid : SubscriptionStatus → Bool
is_unpaid unpaid = true
is_unpaid _ = false

unfoldable pub same_status : InvoiceStatus → InvoiceStatus → Bool
same_status draft draft = true
same_status open_ open_ = true
same_status paid paid = true
same_status uncollectible uncollectible = true
same_status void void = true
same_status _ _ = false
