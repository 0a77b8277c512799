-- ===== src/Transport/Response/Statuses.antt =====
-- internal/transport/http/error_handling.go, dto_resources.go and handlers_resoutces.go: where the
-- two ways to answer an error differ.
use billing_simulator.Base.{String, ◌≡◌, refl, Bool, true, false, leb, if◌then◌else◌}
use billing_simulator.Entity.Errors.{
  Error, data_not_found, conflicting_data, invalid_data, internal_error, customer_not_found,
  product_not_found, price_not_found, invalid_price, subscription_not_found,
  subscription_already_canceled, subscription_not_active, subscription_unpaid, invoice_not_found,
  invoice_already_paid, invoice_not_payable, payment_intent_not_found, invalid_capture_amount,
  webhook_endpoint_not_found, webhook_endpoint_disabled, transaction_timeout,
  transaction_conflicting_data, transaction_invalid_data, pg_error, deadline_exceeded,
  context_canceled, tx_closed, no_rows, message,
}
use billing_simulator.Transport.Response.{
  Response, replied, refused, handle_service_error, respond_service_error, extra_error_status,
  extra_or_switch, switch_error,
}

-- An answer that blames the server.
unfoldable pub is_internal {ℓ} : {A : Type ℓ} → Response A → Bool
is_internal (replied status _) = false
is_internal (refused status code own) = leb 500 status

-- The errors that `extraErrorStatus` knows and `handleServiceError` does not.
unfoldable pub only_resources : Error → Bool
only_resources product_not_found = true
only_resources price_not_found = true
only_resources payment_intent_not_found = true
only_resources webhook_endpoint_not_found = true
only_resources webhook_endpoint_disabled = true
only_resources _ = false

-- The errors that `handleServiceError` knows and `respondServiceError` does not.
unfoldable pub only_billing : Error → Bool
only_billing subscription_not_found = true
only_billing invoice_not_found = true
only_billing invoice_already_paid = true
only_billing subscription_already_canceled = true
only_billing _ = false

-- The two ways to answer an error of a service agree, but on nine errors. BillingHandler answers
-- five of them as an internal error, which ResourceHandlers answer as the client's: a product,
-- price, payment intent or endpoint that is not found, and an endpoint that is disabled.
-- ResourceHandlers answer the other four so, which BillingHandler answers as the client's: a
-- subscription or an invoice that is not found, an invoice that is paid already, and a subscription
-- that is canceled already.
pub statuses_compared :
    (e : Error)
    → if only_resources e
      then (is_internal (handle_service_error {A = String} e) ≡ true)
        × (is_internal (respond_service_error {A = String} e) ≡ false)
      else if only_billing e
      then (is_internal (respond_service_error {A = String} e) ≡ true)
        × (is_internal (handle_service_error {A = String} e) ≡ false)
      else respond_service_error {A = String} e ≡ handle_service_error e
unfolding respond_service_error handle_service_error extra_or_switch extra_error_status switch_error
    is_internal only_resources only_billing
statuses_compared data_not_found = refl
statuses_compared conflicting_data = refl
statuses_compared invalid_data = refl
statuses_compared internal_error = refl
statuses_compared customer_not_found = refl
statuses_compared product_not_found = (refl, refl)
statuses_compared price_not_found = (refl, refl)
statuses_compared invalid_price = refl
statuses_compared subscription_not_found = (refl, refl)
statuses_compared subscription_already_canceled = (refl, refl)
statuses_compared subscription_not_active = refl
statuses_compared subscription_unpaid = refl
statuses_compared invoice_not_found = (refl, refl)
statuses_compared invoice_already_paid = (refl, refl)
statuses_compared invoice_not_payable = refl
statuses_compared payment_intent_not_found = (refl, refl)
statuses_compared invalid_capture_amount = refl
statuses_compared webhook_endpoint_not_found = (refl, refl)
statuses_compared webhook_endpoint_disabled = (refl, refl)
statuses_compared transaction_timeout = refl
statuses_compared transaction_conflicting_data = refl
statuses_compared transaction_invalid_data = refl
statuses_compared (pg_error _) = refl
statuses_compared deadline_exceeded = refl
statuses_compared context_canceled = refl
statuses_compared tx_closed = refl
statuses_compared no_rows = refl
statuses_compared (message _) = refl
