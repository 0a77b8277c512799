-- ===== src/Worker/Ticker/Due.antt =====
-- internal/worker: Start of the worker for overdue invoices, over its rounds.
use billing_simulator.Base.{ℕ, ◌≡◌, refl, sym, subst, Option, List, Time, All}
use billing_simulator.Entity.Errors.{Outcome, returns, fails, panics, overflows, Error}
use billing_simulator.Entity.Aggregate.{Raise}
use billing_simulator.Entity.Invoice.{Invoice}
use billing_simulator.Entity.Subscription.{Subscription}
use billing_simulator.Worker.InvoiceDue.{InvoiceDueConfig, Lookup, process_overdue_invoices}
use billing_simulator.Worker.InvoiceDue.Overdue.{FindsByInvoice, IsOther, overdue_marks_nothing}
use billing_simulator.Worker.Ticker.{Signal, Progress, run_ticks, end_of, Keeps, run_ticks-Keeps}

-- What a round meets: the instant and the error of GetOverdue, the clock and the error of each
-- update by the number of its invoice, and the table of invoices as it is by then.
pub record Round : Type 0 where
  pub at : Time
  pub failure : Option Error
  pub clock : ℕ → Time
  pub fault : ℕ → Option Error
  pub invoices : List Invoice

module _ (raise : Raise) (lookup : Lookup) (c : InvoiceDueConfig) where
  with_table :
      List Subscription → Outcome (List Subscription) → Outcome (Unit {0}) × List Subscription
  with_table subs (returns subs') = (returns tt, subs')
  with_table subs (fails e) = (fails e, subs)
  with_table subs panics = (panics, subs)
  with_table subs overflows = (overflows, subs)

  due_round : Round → List Subscription → Outcome (Unit {0}) × List Subscription
  unfolding with_table process_overdue_invoices
  due_round r subs =
      with_table subs
        (process_overdue_invoices raise lookup c r.at r.failure r.clock r.fault r.invoices subs)

  -- `Start` of InvoiceDueWorker
  unfoldable pub start_due :
      (ℕ → Round) → List Signal → List Subscription → Progress × List Subscription
  unfolding due_round run_ticks
  start_due rounds = run_ticks (λ n. due_round (rounds n)) 0

  due_round-idle :
      (r : Round) (subs : List Subscription)
      → FindsByInvoice lookup r.invoices
      → All (λ inv. IsOther r.invoices inv.subscription_id) r.invoices
      → (subs' : List Subscription) → subs' ≡ subs
      → Keeps (λ s. s ≡ subs) (due_round r subs')
  unfolding due_round with_table
  due_round-idle r subs honest h subs' e =
      let idle =
        overdue_marks_nothing raise lookup r.invoices honest c r.at r.failure r.clock r.fault in
      subst (λ o. Keeps (λ s. s ≡ subs) (with_table subs' o)) (sym (idle subs' h)) e

  -- Start of InvoiceDueWorker never marks a subscription. It looks the subscription up by the
  -- identifier of a subscription, where the interface wants that of an invoice: over a lookup that
  -- finds no subscription under what is no invoice's identifier, and where no subscription of an
  -- invoice has the identifier of one, its rounds leave the subscriptions as they are, whatever is
  -- overdue, whatever fails, and whatever signals its select takes. No round ends it: it waits until
  -- Stop or the end of its context, and then returns.
  pub start_due_marks_nothing :
      (rounds : ℕ → Round) (signals : List Signal) (subs : List Subscription)
      → ((n : ℕ) → FindsByInvoice lookup (rounds n).invoices)
      → ((n : ℕ) → All (λ inv. IsOther (rounds n).invoices inv.subscription_id) (rounds n).invoices)
      → start_due rounds signals subs ≡ (end_of signals, subs)
  unfolding start_due
  start_due_marks_nothing rounds signals subs honest h =
      let (ended, same) =
        run_ticks-Keeps (λ s. s ≡ subs) (λ n. due_round (rounds n))
          (λ n. due_round-idle (rounds n) subs (honest n) (h n)) 0 signals subs refl in
      cc
