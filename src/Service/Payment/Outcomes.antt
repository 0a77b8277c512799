-- ===== src/Service/Payment/Outcomes.antt =====
-- What ConfirmPayment of internal/service/payment.go makes of the intent and of its invoice.
use billing_simulator.Base.{◌+◌, ◌≡◌, true, false, some, pos, leb, arith, if◌then◌else◌}
use billing_simulator.Entity.Errors.{returns, fails, Ensures, invoice_already_paid}
use billing_simulator.Entity.Status.{
  is_paid, paid, open_, uncollectible, succeeded, requires_payment_method,
}
use billing_simulator.Entity.Events.{Uuid}
use billing_simulator.Entity.Aggregate.{raise_event}
use billing_simulator.Entity.Invoice.{Invoice, can_be_paid}
use billing_simulator.Entity.PaymentIntent.{PaymentIntent}
use billing_simulator.Repository.Invoices
use billing_simulator.Repository.Database.{Database}
use billing_simulator.Service.Call.{Meets, simulate_payment}
use billing_simulator.Service.Payment.{settle_payment}

-- With the Raise of DomainEvents, a payment of an invoice that is found and can be paid ends in one
-- of two ways. When the payment succeeds, the intent has succeeded with its whole amount captured,
-- and the invoice is paid with nothing remaining; otherwise the intent needs a payment method, and
-- the invoice has one attempt more and is open, or uncollectible from the third attempt on.
pub settle_payment-agrees :
    (m : Meets) (pi : PaymentIntent) (db : Database) (id : Uuid) (inv : Invoice)
    → pi.invoice_id ≡ some id
    → Invoices.get_by_id id (m.fault 1) db.invoices ≡ returns inv
    → can_be_paid inv.status ≡ true
    → Ensures (settle_payment raise_event m pi db) (λ r.
      if is_paid (simulate_payment m)
      then (r.0.status ≡ succeeded)
        × (r.0.amount_captured ≡ pi.amount)
        × (r.1.status ≡ paid)
        × (r.1.amount_paid ≡ inv.amount)
        × (r.1.amount_remaining ≡ pos 0)
      else (r.0.status ≡ requires_payment_method)
        × (r.1.attempt_count ≡ inv.attempt_count + 1)
        × (r.1.status ≡ (if leb 3 (inv.attempt_count + 1) then uncollectible else open_)))
unfolding settle_payment raise_event can_be_paid
settle_payment-agrees m pi db id inv e found h = ground (arith, e, found, h)

-- With the Raise of DomainEvents, confirming a payment intent again, of an invoice that is paid
-- already, is refused only if the payment succeeds. If it is declined, the intent asks for another
-- payment method, and the invoice, though paid, has one attempt more and becomes open again, or
-- uncollectible from the third attempt on, with what was paid still on it.
pub settle_payment-reopens :
    (m : Meets) (pi : PaymentIntent) (db : Database) (id : Uuid) (inv : Invoice)
    → pi.invoice_id ≡ some id
    → Invoices.get_by_id id (m.fault 1) db.invoices ≡ returns inv
    → inv.status ≡ paid
    → (is_paid (simulate_payment m) ≡ true
        → settle_payment raise_event m pi db ≡ fails invoice_already_paid)
      × (is_paid (simulate_payment m) ≡ false
          → Ensures (settle_payment raise_event m pi db) (λ r.
            (r.0.status ≡ requires_payment_method)
            × (r.1.status ≡ (if leb 3 (inv.attempt_count + 1) then uncollectible else open_))
            × (r.1.attempt_count ≡ inv.attempt_count + 1)
            × (r.1.amount_paid ≡ inv.amount_paid)))
unfolding settle_payment raise_event
settle_payment-reopens m pi db id inv e found h = ground (arith, e, found, h)
