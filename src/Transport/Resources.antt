-- ===== src/Transport/Resources.antt =====
-- internal/transport/http/handlers_resoutces.go: the handlers of ResourceHandlers. The text of a
-- UUID is a parameter, `uuid_text`.
pub mod Roundtrip
pub mod Disclosure
use billing_simulator.Base.{
  ℕ, String, Bool, true, false, Option, none, some, List, map, ℤ, pos, leb_ℤ, if◌then◌else◌,
}
use billing_simulator.Entity.Errors.{Outcome, Error}
use billing_simulator.Entity.Status.{BillingInterval}
use billing_simulator.Entity.Events.{Uuid}
use billing_simulator.Entity.Aggregate.{Raise}
use billing_simulator.Entity.Customer.{Customer}
use billing_simulator.Entity.Product.{Product}
use billing_simulator.Entity.Price.{Price, at_least_one}
use billing_simulator.Entity.Invoice.{Invoice}
use billing_simulator.Entity.PaymentIntent.{PaymentIntent}
use billing_simulator.Entity.WebhookEndpoint.{WebhookEndpoint, Bytes}
use billing_simulator.Repository.Database.{Database}
use billing_simulator.Platform.Transaction.{Config, Weather}
use billing_simulator.Service.Call.{Meets}
use billing_simulator.Service.EventDispatcher.{Dto}
use billing_simulator.Service.Customers
use billing_simulator.Service.Products
use billing_simulator.Service.Prices
use billing_simulator.Service.InvoiceQueries
use billing_simulator.Service.Payment
use billing_simulator.Service.WebhookEndpoints
use billing_simulator.Transport.Response.{
  Response, replied, refused, answer, respond_service_error, ProductResponse, to_product_response,
  PriceResponse, to_price_response, InvoiceResponse, to_invoice_response, PaymentIntentResponse,
  to_payment_intent_response, WebhookEndpointResponse, to_webhook_endpoint_response,
}

-- The answer to a body that does not bind.
abbrev pub unbound {ℓ} : {A : Type ℓ} → Response A
unbound = refused 400 "invalid_request" true

pub record CreateProductRequest : Type 0 where
  pub name : String
  pub description : String

pub record CreatePriceRequest : Type 0 where
  pub product_id : String
  pub amount : ℤ
  pub currency : String
  pub interval : BillingInterval
  pub interval_count : ℤ

pub record CreatePaymentIntentRequest : Type 0 where
  pub invoice_id : String

pub record CreateWebhookEndpointRequest : Type 0 where
  pub customer_id : String
  pub url : String
  pub description : String
  pub enabled_events : List Bytes

-- `GetProduct`
unfoldable pub get_product :
    String → Option Error → List Product → Option (Response ProductResponse)
unfolding answer respond_service_error to_product_response Products.get_product
get_product id fault rows =
    answer respond_service_error (Products.get_product id fault rows)
      λ product. some (replied 200 (to_product_response product))

-- `GetInvoice`
unfoldable pub get_invoice :
    String → Option Error → List Invoice → Option (Response InvoiceResponse)
unfolding answer respond_service_error to_invoice_response InvoiceQueries.get_invoice
get_invoice id fault rows =
    answer respond_service_error (InvoiceQueries.get_invoice id fault rows)
      λ inv. some (replied 200 (to_invoice_response inv))

-- `ListCustomerInvoices`, with the errors of its two SELECTs
unfoldable pub list_customer_invoices :
    String → Option Error → Option Error → Database → Option (Response (List InvoiceResponse))
unfolding answer respond_service_error to_invoice_response Customers.get_customer
    InvoiceQueries.list_for_customer
list_customer_invoices id fault fault' db =
    answer respond_service_error (Customers.get_customer id fault db.customers) λ customer.
      answer respond_service_error (InvoiceQueries.list_for_customer customer.id fault' db.invoices)
        λ invoices. some (replied 200 (map to_invoice_response invoices))

-- `ListWebhookEndpoints`, with the errors of its two SELECTs
unfoldable pub list_webhook_endpoints :
    String
    → Option Error
    → Option Error
    → List Customer
    → List WebhookEndpoint
    → Option (Response (List WebhookEndpointResponse))
unfolding answer respond_service_error to_webhook_endpoint_response Customers.get_customer
    WebhookEndpoints.list_for_customer
list_webhook_endpoints id fault fault' customers rows =
    answer respond_service_error (Customers.get_customer id fault customers) λ customer.
      answer respond_service_error (WebhookEndpoints.list_for_customer customer.id fault' rows)
        λ endpoints. some (replied 200 (map (λ e. to_webhook_endpoint_response e false) endpoints))

-- `GetPrice`
unfoldable pub get_price :
    (Uuid → String) → String → Option Error → List Price → Option (Response PriceResponse)
unfolding answer respond_service_error to_price_response Prices.get_price_by_public_id
get_price uuid_text id fault rows =
    answer respond_service_error (Prices.get_price_by_public_id id fault rows)
      λ price. some (replied 200 (to_price_response price (uuid_text price.product_id)))

-- What a handler that writes answers, from the service's outcome and the tables that it leaves.
unfoldable pub reply : {A B D : Type 0} → Outcome A × D → (A → Response B) → Option (Response B) × D
unfolding answer respond_service_error
reply (r, d) respond = (answer respond_service_error r (λ a. some (respond a)), d)

-- What a handler answers that fails before it writes.
unfoldable pub before_write :
    {A B D : Type 0} → Outcome A → D → (A → Option (Response B) × D) → Option (Response B) × D
unfolding respond_service_error
before_write (Outcome.returns a) d rest = rest a
before_write (Outcome.fails e) d rest = (some (respond_service_error e), d)
before_write Outcome.panics d rest = (some (refused 500 "" false), d)
before_write Outcome.overflows d rest = (none, d)

module _ (raise : Raise) (c : Config) (weather : ℕ → Weather) (m : ℕ → Meets) where
  -- `CreateProduct`
  unfoldable pub create_product :
      Option CreateProductRequest → List Product → Option (Response ProductResponse) × List Product
  unfolding reply to_product_response Products.create_product
  create_product none rows = (some unbound, rows)
  create_product (some req) rows =
      reply (Products.create_product raise c weather m req.name req.description rows)
        λ product. replied 201 (to_product_response product)

  -- `CreatePrice`, with the error of its SELECT
  unfoldable pub create_price :
      Option CreatePriceRequest
      → Option Error
      → List Product
      → List Price
      → Option (Response PriceResponse) × List Price
  unfolding reply before_write to_price_response Products.get_product Prices.create_price
  create_price none fault products rows = (some unbound, rows)
  create_price (some req) fault products rows =
      before_write (Products.get_product req.product_id fault products) rows λ product.
        reply
          (Prices.create_price raise c weather m product.id req.amount req.currency req.interval
            (at_least_one req.interval_count) rows)
          λ price. replied 201 (to_price_response price product.public_id)

-- `CreatePaymentIntent`, with the error of its SELECT
unfoldable pub create_payment_intent :
    Config
    → (ℕ → Weather)
    → (ℕ → Meets)
    → Option CreatePaymentIntentRequest
    → Option Error
    → Database
    → Option (Response PaymentIntentResponse) × Database
unfolding reply before_write to_payment_intent_response InvoiceQueries.get_invoice
    Payment.create_payment_intent
create_payment_intent c weather m none fault db = (some unbound, db)
create_payment_intent c weather m (some req) fault db =
    before_write (InvoiceQueries.get_invoice req.invoice_id fault db.invoices) db λ inv.
      reply (Payment.create_payment_intent c weather m inv.id db)
        λ pi. replied 201 (to_payment_intent_response pi inv.public_id)

-- The text of the invoice's UUID, if the intent has one.
unfoldable pub text_or_empty : (Uuid → String) → Option Uuid → String
text_or_empty uuid_text none = ""
text_or_empty uuid_text (some id) = uuid_text id

-- `ConfirmPaymentIntent`
unfoldable pub confirm_payment_intent :
    (Uuid → String)
    → Raise
    → (Dto → Option String)
    → Config
    → (ℕ → Weather)
    → (ℕ → Meets)
    → String
    → Database
    → Option (Response PaymentIntentResponse) × Database
unfolding reply to_payment_intent_response text_or_empty Payment.confirm_payment
confirm_payment_intent uuid_text raise marshal c weather m id db =
    reply (Payment.confirm_payment raise marshal c weather m id db)
      λ pi. replied 200 (to_payment_intent_response pi (text_or_empty uuid_text pi.invoice_id))

-- The rest of `CreateWebhookEndpoint`, once the customer is found.
create_for :
    Config
    → (ℕ → Weather)
    → (ℕ → WebhookEndpoints.Meets)
    → Option (List ℕ)
    → Option CreateWebhookEndpointRequest
    → List WebhookEndpoint
    → Customer
    → Option (Response WebhookEndpointResponse) × List WebhookEndpoint
unfolding reply to_webhook_endpoint_response WebhookEndpoints.create_endpoint
create_for c weather m bytes none rows customer = (some unbound, rows)
create_for c weather m bytes (some req) rows customer =
    reply
      (WebhookEndpoints.create_endpoint c weather m bytes customer.id req.url req.description
        req.enabled_events rows)
      λ e. replied 201 (to_webhook_endpoint_response e true)

-- `CreateWebhookEndpoint`, with the error of its SELECT and the bytes that the secret draws
unfoldable pub create_webhook_endpoint :
    Config
    → (ℕ → Weather)
    → (ℕ → WebhookEndpoints.Meets)
    → Option (List ℕ)
    → String
    → Option CreateWebhookEndpointRequest
    → Option Error
    → List Customer
    → List WebhookEndpoint
    → Option (Response WebhookEndpointResponse) × List WebhookEndpoint
unfolding before_write create_for Customers.get_customer
create_webhook_endpoint c weather m bytes id req fault customers rows =
    before_write (Customers.get_customer id fault customers) rows
      λ customer. create_for c weather m bytes req rows customer
