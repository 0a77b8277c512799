-- ===== src/Service/InvoiceQueries.antt =====
-- internal/service/invoice_query.go
use billing_simulator.Base.{String, Option, List}
use billing_simulator.Entity.Errors.{Outcome, Error}
use billing_simulator.Entity.Events.{Uuid}
use billing_simulator.Entity.Invoice.{Invoice}
use billing_simulator.Repository.Invoices

-- `GetInvoice`
unfoldable pub get_invoice : String → Option Error → List Invoice → Outcome Invoice
unfolding Invoices.get_by_public_id
get_invoice = Invoices.get_by_public_id

-- `ListForCustomer`
unfoldable pub list_for_customer : Uuid → Option Error → List Invoice → Outcome (List Invoice)
unfolding Invoices.get_by_customer_id
list_for_customer = Invoices.get_by_customer_id
