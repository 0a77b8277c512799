-- ===== src/Transport/Resources/Disclosure.antt =====
-- internal/transport/http/handlers_resoutces.go: what an answer says of secrets, and of what does
-- not exist.
use billing_simulator.Base.{
  ℕ, ◌≡◌, refl, String, false, ◌&&◌, any, Option, none, some, List, [], ◌∷◌, All, map, arith,
  str_eq,
}
use billing_simulator.Entity.Errors.{
  Outcome, returns, fails, panics, overflows, Error, invoice_not_found,
}
use billing_simulator.Entity.Customer.{Customer}
use billing_simulator.Entity.Invoice.{Invoice}
use billing_simulator.Entity.WebhookEndpoint.{WebhookEndpoint}
use billing_simulator.Repository.Table.{find_first-missing, is_live}
use billing_simulator.Repository.Invoices
use billing_simulator.Service.Customers
use billing_simulator.Service.InvoiceQueries
use billing_simulator.Service.WebhookEndpoints
use billing_simulator.Transport.Response.{
  Response, replied, refused, answer, respond_service_error, extra_or_switch, extra_error_status,
  switch_error, WebhookEndpointResponse, to_webhook_endpoint_response,
}
use billing_simulator.Transport.Resources.{list_webhook_endpoints, get_invoice}

-- An answer of which every endpoint leaves out its secret.
unfoldable pub HidesSecrets : Option (Response (List WebhookEndpointResponse)) → Type 0
HidesSecrets none = Unit
HidesSecrets (some (refused status code own)) = Unit
HidesSecrets (some (replied status endpoints)) = All (λ e. e.secret ≡ "") endpoints

hidden :
    (endpoints : List WebhookEndpoint)
    → All (λ e. e.secret ≡ "") (map (λ e. to_webhook_endpoint_response e false) endpoints)
unfolding to_webhook_endpoint_response
hidden [] = tt
hidden (e ∷ es) = (refl, hidden es)

refusal : (e : Error) (o : Option (ℕ × String)) → HidesSecrets (some (extra_or_switch e o))
unfolding HidesSecrets extra_or_switch switch_error
refusal e (some (status, code)) = tt
refusal e none = ground arith

listed :
    (r : Outcome (List WebhookEndpoint))
    → HidesSecrets (
        answer respond_service_error r
          λ es. some (replied 200 (map (λ e. to_webhook_endpoint_response e false) es)))
unfolding HidesSecrets answer respond_service_error
listed (returns es) = hidden es
listed (fails e) = refusal e (extra_error_status e)
listed panics = tt
listed overflows = tt

-- No answer of GET /v1/customers/:id/webhook_endpoints holds a secret, whatever the tables hold and
-- whatever fails.
pub list_webhook_endpoints-HidesSecrets :
    (id : String) (fault fault' : Option Error) (customers : List Customer)
    (rows : List WebhookEndpoint)
    → HidesSecrets (list_webhook_endpoints id fault fault' customers rows)
unfolding list_webhook_endpoints answer HidesSecrets respond_service_error
list_webhook_endpoints-HidesSecrets id fault fault' customers rows =
    behind (Customers.get_customer id fault customers)
  where
    behind :
        (r : Outcome Customer)
        → HidesSecrets (
            answer respond_service_error r λ customer.
              answer respond_service_error
                (WebhookEndpoints.list_for_customer customer.id fault' rows)
                λ es. some (replied 200 (map (λ e. to_webhook_endpoint_response e false) es)))
    behind (returns customer) = listed (WebhookEndpoints.list_for_customer customer.id fault' rows)
    behind (fails e) = refusal e (extra_error_status e)
    behind panics = tt
    behind overflows = tt

-- Where the SELECT meets no error, and no live invoice has the public identifier,
-- GET /v1/invoices/:id answers 500, as for an internal error.
pub get_invoice-missing :
    (id : String) (rows : List Invoice)
    → any (λ x. str_eq x.public_id id && is_live x.deleted_at) rows ≡ false
    → get_invoice id none rows ≡ some (refused 500 "internal_error" false)
unfolding get_invoice InvoiceQueries.get_invoice Invoices.get_by_public_id
get_invoice-missing id rows h =
    rw
      (
        get_invoice,
        InvoiceQueries.get_invoice,
        Invoices.get_by_public_id,
        find_first-missing invoice_not_found (λ x. str_eq x.public_id id && is_live x.deleted_at)
            Invoices.scan_row rows h,
        answer,
        respond_service_error,
        extra_or_switch,
        switch_error,
      )
      refl
