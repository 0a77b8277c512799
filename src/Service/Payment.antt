-- ===== src/Service/Payment.antt =====
-- internal/service/payment.go: payment intents are made for invoices and confirmed.
pub mod Outcomes
use billing_simulator.Base.{
  ℕ, ◌+◌, String, Bool, true, false, Option, none, some, List, ◌++◌, leb, if◌then◌else◌,
}
use billing_simulator.Entity.Errors.{Outcome, returns, fails, panics, overflows, ◌>>=◌}
use billing_simulator.Entity.Status.{is_paid}
use billing_simulator.Entity.Events.{Uuid}
use billing_simulator.Entity.Aggregate.{Raise, no_events}
use billing_simulator.Entity.Invoice.{Invoice, mark_paid, mark_payment_failed}
use billing_simulator.Entity.PaymentIntent.{
  PaymentIntent, new_payment_intent, mark_succeeded, mark_failed,
}
use billing_simulator.Repository.Invoices
use billing_simulator.Repository.PaymentIntents
use billing_simulator.Repository.Database.{Database}
use billing_simulator.Platform.Transaction.{Config, Weather, execute_in_transaction}
use billing_simulator.Service.Call.{Meets, simulate_payment}
use billing_simulator.Service.EventDispatcher.{Dto, dispatch}

-- `*pi.InvoiceID`
abbrev dereference : Option Uuid → Outcome Uuid
dereference none = panics
dereference (some id) = returns id

-- `CreatePaymentIntent`
unfoldable pub create_payment_intent_body :
    Meets → Uuid → Database → Outcome (PaymentIntent × Database)
unfolding Invoices.get_by_id PaymentIntents.create new_payment_intent
create_payment_intent_body m invoice_id db = do
  inv ← Invoices.get_by_id invoice_id (m.fault 0) db.invoices
  pi ←
      new_payment_intent (m.draw 0) inv.customer_id (some inv.id) inv.amount inv.currency
        (m.clock 0)
  intents ← PaymentIntents.create pi (m.fault 1) db.payment_intents
  returns (pi, record db { payment_intents = intents })

unfoldable pub create_payment_intent :
    Config → (ℕ → Weather) → (ℕ → Meets) → Uuid → Database → Outcome PaymentIntent × Database
unfolding create_payment_intent_body execute_in_transaction
create_payment_intent c weather m invoice_id =
    execute_in_transaction c weather λ i. create_payment_intent_body (m i) invoice_id

module _ (raise : Raise) where
  -- The two branches of `ConfirmPayment`: the intent and the invoice as they leave them.
  unfoldable pub settle_payment :
      Meets → PaymentIntent → Database → Outcome (PaymentIntent × Invoice)
  unfolding is_paid simulate_payment mark_succeeded mark_failed mark_paid mark_payment_failed
      Invoices.get_by_id
  settle_payment m pi db =
      if is_paid (simulate_payment m)
      then (do
        done ← mark_succeeded raise pi (m.clock 0)
        id ← dereference done.invoice_id
        inv ← Invoices.get_by_id id (m.fault 1) db.invoices
        settled ← mark_paid raise inv (m.clock 1)
        returns (done, settled))
      else (do
        declined ← mark_failed raise pi (m.clock 0) "card_declined" "insufficient_funds"
        id ← dereference declined.invoice_id
        inv ← Invoices.get_by_id id (m.fault 1) db.invoices
        owed ←
            mark_payment_failed raise inv (m.clock 1) "card_declined"
              (leb 3 (inv.attempt_count + 1))
        returns (declined, owed))

module _ (raise : Raise) (marshal : Dto → Option String) where
  -- `ConfirmPayment`
  unfoldable pub confirm_payment_body :
      Meets → String → Database → Outcome (PaymentIntent × Database)
  unfolding PaymentIntents.get_by_public_id PaymentIntents.update Invoices.update settle_payment
      dispatch
  confirm_payment_body m id db = do
    pi ← PaymentIntents.get_by_public_id id (m.fault 0) db.payment_intents
    settled ← settle_payment raise m pi db
    invoices ← Invoices.update settled.1 (m.fault 2) db.invoices
    intents ← PaymentIntents.update settled.0 (m.fault 3) db.payment_intents
    outbox ←
        dispatch marshal m 2 (settled.0.root.domain_events ++ settled.1.root.domain_events)
          (m.fault 4) db.outbox
    returns (
      record settled.0 { root = no_events },
      record db { invoices = invoices; payment_intents = intents; outbox = outbox },
    )

  unfoldable pub confirm_payment :
      Config → (ℕ → Weather) → (ℕ → Meets) → String → Database → Outcome PaymentIntent × Database
  unfolding confirm_payment_body execute_in_transaction
  confirm_payment c weather m id =
      execute_in_transaction c weather λ i. confirm_payment_body (m i) id
