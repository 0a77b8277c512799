-- ===== src/Entity/Invoice/Balance.antt =====
-- What an invoice says that is paid and what it says that remains, under the operations of
-- internal/entity/invoice.go.
use billing_simulator.Base.{
  ◌+◌, ◌≡◌, ◌≢◌, refl, ◌⊎◌, sym, ◌∙◌, String, Bool, true, false, Option, ℤ, pos, Time, arith,
  if◌then◌else◌,
}
use billing_simulator.Entity.Errors.{
  returns, Ensures, is_returned, fails, invoice_already_paid, invoice_not_payable,
}
use billing_simulator.Entity.Status.{open_, paid, uncollectible, void}
use billing_simulator.Entity.Events.{Uuid}
use billing_simulator.Entity.Aggregate.{Raise, Draw, raise_event}
use billing_simulator.Entity.Invoice.{
  Invoice, can_be_paid, new_invoice, mark_paid, mark_payment_failed,
}

-- A paid invoice is paid in full, any other not at all.
pub record IsBalanced (inv : Invoice) : Type 0 where
  pub settled : inv.status ≡ paid → (inv.amount_paid ≡ inv.amount) × (inv.amount_remaining ≡ pos 0)
  pub owed : inv.status ≢ paid → (inv.amount_paid ≡ pos 0) × (inv.amount_remaining ≡ inv.amount)

-- Whatever Raise does, a new invoice that is returned is open, owes its whole amount, and is
-- balanced.
pub new_invoice-IsBalanced :
    (raise : Raise) (d : Draw) (customer : Uuid) (public : String) (sub : Option Uuid)
    (sub_public : Option String) (amount : ℤ) (currency : String) (now : Time) (inv : Invoice)
    → new_invoice raise d customer public sub sub_public amount currency now ≡ returns inv
    → IsBalanced inv × (inv.status ≡ open_) × (inv.amount_remaining ≡ amount)
unfolding new_invoice
new_invoice-IsBalanced raise d customer public sub sub_public amount currency now inv h =
    ground arith

-- Whatever Raise does, MarkPaid leaves an invoice that is paid in full, of the same amount, which
-- no second MarkPaid accepts.
pub mark_paid-once :
    (raise : Raise) (inv settled : Invoice) (now later : Time)
    → mark_paid raise inv now ≡ returns settled
    → IsBalanced settled
      × (settled.status ≡ paid)
      × (settled.amount ≡ inv.amount)
      × (mark_paid raise settled later ≡ fails invoice_already_paid)
unfolding mark_paid
mark_paid-once raise inv settled now later h = ground arith

-- With the Raise of DomainEvents, MarkPaid succeeds on open and draft invoices, and on no other:
-- a paid one is refused as already paid, a void or uncollectible one as not payable.
pub mark_paid_iff :
    (inv : Invoice) (now : Time)
    → (is_returned (mark_paid raise_event inv now) ≡ can_be_paid inv.status)
      × (inv.status ≡ paid → mark_paid raise_event inv now ≡ fails invoice_already_paid)
      × ((inv.status ≡ void) ⊎ (inv.status ≡ uncollectible)
          → mark_paid raise_event inv now ≡ fails invoice_not_payable)
unfolding mark_paid raise_event
mark_paid_iff inv now = ground arith

-- Recording a failed attempt keeps an invoice that is not paid balanced, counts the attempt, and
-- leaves the invoice open, or uncollectible after the final attempt.
pub mark_payment_failed-IsBalanced :
    (raise : Raise) (inv failed_inv : Invoice) (now : Time) (code : String) (final : Bool)
    → IsBalanced inv
    → inv.status ≢ paid
    → mark_payment_failed raise inv now code final ≡ returns failed_inv
    → IsBalanced failed_inv
      × (failed_inv.attempt_count ≡ inv.attempt_count + 1)
      × (failed_inv.status ≡ (if final then uncollectible else open_))
unfolding mark_payment_failed
mark_payment_failed-IsBalanced raise inv failed_inv now code final b u h = ground arith

-- MarkPaymentFailed does not look at the status: it takes a paid invoice of any amount but 0 back
-- to open or uncollectible, with nothing left to pay, so that the invoice is no longer balanced;
-- one that is open again can then be paid a second time.
pub mark_payment_failed-reopens :
    (inv : Invoice) (now later : Time) (code : String) (final : Bool)
    → IsBalanced inv
    → inv.status ≡ paid
    → inv.amount ≢ pos 0
    → Ensures (mark_payment_failed raise_event inv now code final) (λ again.
      (¬ IsBalanced again)
      × (again.amount_remaining ≡ pos 0)
      × (final ≡ false → is_returned (mark_paid raise_event again later) ≡ true))
unfolding mark_payment_failed mark_paid raise_event
mark_payment_failed-reopens inv now later code true b e z =
    (λ k. absurd (z (sym (b.settled e).0 ∙ (k.owed (λ p. cc)).0)), (b.settled e).1, λ p. cc)
mark_payment_failed-reopens inv now later code false b e z =
    (λ k. absurd (z (sym (b.settled e).0 ∙ (k.owed (λ p. cc)).0)), (b.settled e).1, λ p. refl)
