-- ===== src/Transport/Response.antt =====
-- internal/transport/http/dto.go, dto_resources.go and error_handling.go: the bodies of responses,
-- and the status of each error of a service. An enumeration stands for its text.
pub mod Statuses
use billing_simulator.Base.{
  ℕ, String, Bool, true, false, Option, none, some, List, ℤ, Time, if◌then◌else◌,
}
use billing_simulator.Entity.Errors.{
  Outcome, returns, fails, panics, overflows, Error, data_not_found, conflicting_data, invalid_data,
  customer_not_found, product_not_found, price_not_found, invalid_price, subscription_not_found,
  subscription_already_canceled, invoice_not_found, invoice_already_paid, payment_intent_not_found,
  webhook_endpoint_not_found, webhook_endpoint_disabled,
}
use billing_simulator.Entity.Status.{
  InvoiceStatus, SubscriptionStatus, PaymentIntentStatus, BillingInterval,
}
use billing_simulator.Entity.Customer.{Customer}
use billing_simulator.Entity.Product.{Product}
use billing_simulator.Entity.Price.{Price}
use billing_simulator.Entity.Invoice.{Invoice}
use billing_simulator.Entity.PaymentIntent.{PaymentIntent}
use billing_simulator.Entity.Subscription.{Subscription}
use billing_simulator.Entity.WebhookEndpoint.{WebhookEndpoint, Bytes}

-- A response: a body under its status, or an error under its status with its code, and whether the
-- message is the text of the error.
pub data Response {ℓ} (A : Type ℓ) : Type ℓ where
  replied : ℕ → A → Response A
  refused : ℕ → String → Bool → Response A

-- `extraErrorStatus`
unfoldable pub extra_error_status : Error → Option (ℕ × String)
extra_error_status product_not_found = some (404, "resource_not_found")
extra_error_status price_not_found = some (404, "resource_not_found")
extra_error_status payment_intent_not_found = some (404, "resource_not_found")
extra_error_status webhook_endpoint_not_found = some (404, "resource_not_found")
extra_error_status webhook_endpoint_disabled = some (400, "invalid_request")
extra_error_status invalid_price = some (400, "invalid_request")
extra_error_status _ = none

module _ {ℓ} {A : Type ℓ} where
  -- `handleServiceError` of BillingHandler
  unfoldable pub handle_service_error : Error → Response A
  handle_service_error data_not_found = refused 404 "resource_not_found" true
  handle_service_error customer_not_found = refused 404 "resource_not_found" true
  handle_service_error subscription_not_found = refused 404 "resource_not_found" true
  handle_service_error invoice_not_found = refused 404 "resource_not_found" true
  handle_service_error conflicting_data = refused 409 "conflict" true
  handle_service_error invoice_already_paid = refused 409 "conflict" true
  handle_service_error subscription_already_canceled = refused 409 "conflict" true
  handle_service_error invalid_data = refused 400 "invalid_request" true
  handle_service_error invalid_price = refused 400 "invalid_request" true
  handle_service_error _ = refused 500 "internal_error" false

  -- The switch of `respondServiceError` of ResourceHandlers
  unfoldable pub switch_error : Error → Response A
  switch_error data_not_found = refused 404 "resource_not_found" true
  switch_error customer_not_found = refused 404 "resource_not_found" true
  switch_error conflicting_data = refused 409 "conflict" true
  switch_error invalid_data = refused 400 "invalid_request" true
  switch_error _ = refused 500 "internal_error" false

  -- `respondServiceError` of ResourceHandlers
  unfoldable pub extra_or_switch : Error → Option (ℕ × String) → Response A
  unfolding switch_error
  extra_or_switch e none = switch_error e
  extra_or_switch e (some (status, code)) = refused status code true

  unfoldable pub respond_service_error : Error → Response A
  unfolding extra_or_switch extra_error_status
  respond_service_error e = extra_or_switch e (extra_error_status e)

  -- What `gin.Recovery` answers to a panic.
  abbrev pub recovered : Response A
  recovered = refused 500 "" false

-- A call whose error a function answers, before the rest of the handler. A stack that overflows ends
-- the process: no response is sent.
unfoldable pub answer {ℓ κ} :
    {A : Type ℓ} {B : Type κ}
    → (Error → Response B)
    → Outcome A
    → (A → Option (Response B))
    → Option (Response B)
answer respond (returns a) rest = rest a
answer respond (fails e) rest = some (respond e)
answer respond panics rest = some recovered
answer respond overflows rest = none

-- What `toCustomerResponse` makes
pub record CustomerResponse : Type 0 where
  pub id : String
  pub email : String
  pub created_at : Time

unfoldable pub to_customer_response : Customer → CustomerResponse
to_customer_response c = record { id = c.public_id; email = c.email; created_at = c.created_at }

pub record SubscriptionResponse : Type 0 where
  pub id : String
  pub customer_id : String
  pub status : SubscriptionStatus
  pub price_id : String
  pub current_period_end : Time
  pub next_billing_at : Time

unfoldable pub to_subscription_response : Subscription → SubscriptionResponse
to_subscription_response s = record {
  id = s.public_id;
  customer_id = s.customer_public_id;
  status = s.status;
  price_id = s.price_public_id;
  current_period_end = s.current_period_end;
  next_billing_at = s.next_billing_at;
}

pub record ProductResponse : Type 0 where
  pub id : String
  pub name : String
  pub description : String
  pub active : Bool
  pub created_at : Time

unfoldable pub to_product_response : Product → ProductResponse
to_product_response p = record {
  id = p.public_id;
  name = p.name;
  description = p.description;
  active = p.active;
  created_at = p.created_at;
}

pub record PriceResponse : Type 0 where
  pub id : String
  pub product_id : String
  pub amount : ℤ
  pub currency : String
  pub interval : BillingInterval
  pub interval_count : ℤ
  pub active : Bool

unfoldable pub to_price_response : Price → String → PriceResponse
to_price_response p product_public_id = record {
  id = p.public_id;
  product_id = product_public_id;
  amount = p.amount;
  currency = p.currency;
  interval = p.interval;
  interval_count = p.interval_count;
  active = p.active;
}

pub record InvoiceResponse : Type 0 where
  pub id : String
  pub customer_id : String
  pub subscription_id : Option String
  pub amount : ℤ
  pub amount_paid : ℤ
  pub currency : String
  pub status : InvoiceStatus
  pub attempt_count : ℕ
  pub due_date : Option Time
  pub created_at : Time

unfoldable pub to_invoice_response : Invoice → InvoiceResponse
to_invoice_response i = record {
  id = i.public_id;
  customer_id = i.customer_public_id;
  subscription_id = i.subscription_public_id;
  amount = i.amount;
  amount_paid = i.amount_paid;
  currency = i.currency;
  status = i.status;
  attempt_count = i.attempt_count;
  due_date = i.due_date;
  created_at = i.created_at;
}

pub record PaymentIntentResponse : Type 0 where
  pub id : String
  pub invoice_id : String
  pub amount : ℤ
  pub amount_captured : ℤ
  pub currency : String
  pub status : PaymentIntentStatus

unfoldable pub to_payment_intent_response : PaymentIntent → String → PaymentIntentResponse
to_payment_intent_response pi invoice_public_id = record {
  id = pi.public_id;
  invoice_id = invoice_public_id;
  amount = pi.amount;
  amount_captured = pi.amount_captured;
  currency = pi.currency;
  status = pi.status;
}

pub record WebhookEndpointResponse : Type 0 where
  pub id : String
  pub url : String
  pub description : String
  pub secret_prefix : String
  pub secret : String
  pub enabled_events : List Bytes
  pub enabled : Bool

unfoldable pub to_webhook_endpoint_response : WebhookEndpoint → Bool → WebhookEndpointResponse
to_webhook_endpoint_response e include_secret = record {
  id = e.public_id;
  url = e.url;
  description = e.description;
  secret_prefix = e.secret_prefix;
  secret = if include_secret then e.secret else "";
  enabled_events = e.enabled_events;
  enabled = e.enabled;
}
