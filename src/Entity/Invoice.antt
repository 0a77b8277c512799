-- ===== src/Entity/Invoice.antt =====
-- internal/entity/invoice.go: an invoice and its payments.
pub mod Balance
use billing_simulator.Base.{
  ℕ, ◌+◌, String, Bool, true, false, Option, none, some, ℤ, pos, Time, if◌then◌else◌,
}
use billing_simulator.Entity.Errors.{
  Outcome, returns, fails, ◌>>=◌, invoice_already_paid, invoice_not_payable,
}
use billing_simulator.Entity.Status.{InvoiceStatus, draft, open_, paid, uncollectible, is_paid}
use billing_simulator.Entity.Events.{
  Uuid, invoice_was_created, invoice_was_paid, invoice_payment_has_failed,
}
use billing_simulator.Entity.Aggregate.{AggregateRoot, Raise, no_events, Draw, generate_public_id}

-- Metadata, HostedInvoiceURL and InvoicePDFURL are never set but to their zero values.
pub record Invoice : Type 0 where
  pub id : Uuid
  pub public_id : String
  pub subscription_id : Option Uuid
  pub subscription_public_id : Option String
  pub customer_id : Uuid
  pub customer_public_id : String
  pub amount : ℤ
  pub amount_paid : ℤ
  pub amount_remaining : ℤ
  pub currency : String
  pub status : InvoiceStatus
  pub period_start : Option Time
  pub period_end : Option Time
  pub due_date : Option Time
  pub attempt_count : ℕ
  pub attempted_at : Option Time
  pub deleted_at : Option Time
  pub created_at : Time
  pub updated_at : Time
  pub root : AggregateRoot

-- `CanBePaid`
unfoldable pub can_be_paid : InvoiceStatus → Bool
can_be_paid open_ = true
can_be_paid draft = true
can_be_paid _ = false

module _ (raise : Raise) where
  -- The event that both constructors raise.
  unfoldable pub raise_created : Invoice → Outcome Invoice
  raise_created inv = do
    r ← raise inv.root (
        invoice_was_created (record {
          invoice_id = inv.id;
          invoice_public_id = inv.public_id;
          customer_id = inv.customer_id;
          customer_public_id = inv.customer_public_id;
          subscription_id = inv.subscription_id;
          subscription_public_id = inv.subscription_public_id;
          amount = inv.amount;
          currency = inv.currency;
          status = inv.status;
          created_at = inv.created_at;
        }))
    returns (record inv { root = r })

  -- `NewInvoice`
  unfoldable pub new_invoice :
      Draw → Uuid → String → Option Uuid → Option String → ℤ → String → Time → Outcome Invoice
  unfolding raise_created generate_public_id
  new_invoice d customer customer_public subscription subscription_public amount currency now = do
    public ← generate_public_id "inv" d
    raise_created (record {
      id = d.uuid;
      public_id = public;
      subscription_id = subscription;
      subscription_public_id = subscription_public;
      customer_id = customer;
      customer_public_id = customer_public;
      amount = amount;
      amount_paid = pos 0;
      amount_remaining = amount;
      currency = currency;
      status = open_;
      period_start = none;
      period_end = none;
      due_date = none;
      attempt_count = 0;
      attempted_at = none;
      deleted_at = none;
      created_at = now;
      updated_at = now;
      root = no_events;
    })

  -- `MarkPaid`
  unfoldable pub mark_paid : Invoice → Time → Outcome Invoice
  unfolding can_be_paid is_paid
  mark_paid inv now =
      if can_be_paid inv.status
      then (do
        r ← raise inv.root (
            invoice_was_paid (record {
              invoice_id = inv.id;
              invoice_public_id = inv.public_id;
              customer_id = inv.customer_id;
              customer_public_id = inv.customer_public_id;
              subscription_id = inv.subscription_id;
              subscription_public_id = none;
              amount = inv.amount;
              currency = inv.currency;
              paid_at = now;
            }))
        returns (record inv {
          status = paid;
          amount_paid = inv.amount;
          attempted_at = some now;
          amount_remaining = pos 0;
          updated_at = now;
          root = r;
        }))
      else if is_paid inv.status
      then fails invoice_already_paid
      else fails invoice_not_payable

  -- `MarkPaymentFailed`
  unfoldable pub mark_payment_failed : Invoice → Time → String → Bool → Outcome Invoice
  mark_payment_failed inv now error_code is_final_attempt = do
    r ← raise inv.root (
        invoice_payment_has_failed (record {
          invoice_id = inv.id;
          invoice_public_id = inv.public_id;
          customer_id = inv.customer_id;
          customer_public_id = inv.customer_public_id;
          subscription_id = inv.subscription_id;
          subscription_public_id = none;
          amount = inv.amount;
          currency = inv.currency;
          error_code = error_code;
          failed_at = now;
        }))
    returns (record inv {
      attempt_count = inv.attempt_count + 1;
      attempted_at = some now;
      updated_at = now;
      status = if is_final_attempt then uncollectible else open_;
      root = r;
    })
