-- ===== src/Worker/InvoiceDue.antt =====
-- internal/worker/invoice_due.go: the worker that marks the subscriptions of overdue invoices. The
-- interface of its subscriptions has a method GetByInvoiceID that internal/repository does not
-- implement; it is an argument, which answers with a subscription, with none, or with an error.
pub mod Overdue
use billing_simulator.Base.{
  ℕ, zero, suc, ◌*◌, Bool, true, false, Option, none, some, List, [], ◌∷◌, Time, Duration, pos,
  second, if◌then◌else◌,
}
use billing_simulator.Entity.Errors.{Outcome, returns, fails, panics, overflows, Error, ◌>>=◌}
use billing_simulator.Entity.Events.{Uuid}
use billing_simulator.Entity.Aggregate.{Raise}
use billing_simulator.Entity.Invoice.{Invoice}
use billing_simulator.Entity.Status.{is_active}
use billing_simulator.Entity.Subscription.{Subscription, mark_past_due}
use billing_simulator.Repository.Invoices.{get_overdue}
use billing_simulator.Repository.Subscriptions.{update}

pub record InvoiceDueConfig : Type 0 where
  pub poll_interval : Duration
  pub batch_size : ℕ

-- `DefaultInvoiceDueConfig`
abbrev pub default_due_config : InvoiceDueConfig
default_due_config = record { poll_interval = pos (300 * second); batch_size = 100 }

-- What a lookup of a subscription answers.
abbrev pub Lookup : Type 0
Lookup = Uuid → List Subscription → Outcome (Option Subscription)

-- An update that fails is logged.
unfoldable pub or_unchanged :
    Outcome (List Subscription) → List Subscription → Outcome (List Subscription)
or_unchanged (returns subs') subs = returns subs'
or_unchanged (fails e) subs = returns subs
or_unchanged panics subs = panics
or_unchanged overflows subs = overflows

module _ (raise : Raise) (get_by_invoice_id : Lookup) where
  -- What is done with the subscription that was found, with the error of its update.
  unfoldable pub mark_active :
      Time → Option Error → Subscription → List Subscription → Outcome (List Subscription)
  unfolding is_active mark_past_due or_unchanged update
  mark_active now fault s subs =
      if is_active s.status
      then mark_past_due raise s now >>= (λ late. or_unchanged (update late fault subs) subs)
      else returns subs

  unfoldable pub mark_found :
      Time
      → Option Error
      → Outcome (Option Subscription)
      → List Subscription
      → Outcome (List Subscription)
  unfolding mark_active
  mark_found now fault (returns none) subs = returns subs
  mark_found now fault (returns (some s)) subs = mark_active now fault s subs
  mark_found now fault (fails e) subs = returns subs
  mark_found now fault panics subs = panics
  mark_found now fault overflows subs = overflows

  -- `processOverdueInvoice`, for the subscription of the invoice
  unfoldable pub process_subscription :
      Time → Option Error → Option Uuid → List Subscription → Outcome (List Subscription)
  unfolding mark_found
  process_subscription now fault none subs = returns subs
  process_subscription now fault (some id) subs =
      mark_found now fault (get_by_invoice_id id subs) subs

  -- `processOverdueInvoice`
  unfoldable pub process_overdue_invoice :
      Time → Option Error → Invoice → List Subscription → Outcome (List Subscription)
  unfolding process_subscription
  process_overdue_invoice now fault inv = process_subscription now fault inv.subscription_id

  -- The loop of `processOverdueInvoices`, with the clock and the error of each invoice by its number.
  unfoldable pub process_each_overdue :
      (ℕ → Time)
      → (ℕ → Option Error)
      → ℕ
      → List Invoice
      → List Subscription
      → Outcome (List Subscription)
  unfolding process_overdue_invoice
  process_each_overdue clock fault n [] subs = returns subs
  process_each_overdue clock fault n (inv ∷ invs) subs =
      process_overdue_invoice (clock n) (fault n) inv subs
      >>= process_each_overdue clock fault (suc n) invs

  process_answer :
      (ℕ → Time)
      → (ℕ → Option Error)
      → Outcome (List Invoice)
      → List Subscription
      → Outcome (List Subscription)
  unfolding process_each_overdue
  process_answer clock fault (returns invs) subs = process_each_overdue clock fault 0 invs subs
  process_answer clock fault (fails e) subs = returns subs
  process_answer clock fault panics subs = panics
  process_answer clock fault overflows subs = overflows

  -- `processOverdueInvoices`: the subscriptions that it leaves.
  unfoldable pub process_overdue_invoices :
      InvoiceDueConfig
      → Time
      → Option Error
      → (ℕ → Time)
      → (ℕ → Option Error)
      → List Invoice
      → List Subscription
      → Outcome (List Subscription)
  unfolding process_answer get_overdue
  process_overdue_invoices c now failure clock fault invoices subs =
      process_answer clock fault (get_overdue now c.batch_size failure invoices) subs
