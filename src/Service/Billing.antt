-- ===== src/Service/Billing.antt =====
-- internal/service/billing.go: subscriptions are made, canceled and renewed, each in a transaction
-- that also stores the events. The function that `ExecuteInTransaction` runs has `_body` in its
-- name. A pool of open connections and the logger are left out.
pub mod Collection
pub mod Records
pub mod Renewals
pub mod Creation
pub mod Once
pub mod Declined
use billing_simulator.Base.{
  ℕ, ◌+◌, String, Bool, true, false, Option, none, some, List, ◌++◌, leb, Time, after,
  if◌then◌else◌,
}
use billing_simulator.Entity.Errors.{Outcome, returns, fails, panics, overflows, ◌>>=◌}
use billing_simulator.Entity.Status.{InvoiceStatus, is_paid, cancel_immediate, cancel_at_period_end}
use billing_simulator.Entity.Events.{Uuid}
use billing_simulator.Entity.Aggregate.{Raise, no_events}
use billing_simulator.Entity.Price.{Price, next_billing_date}
use billing_simulator.Entity.Invoice.{Invoice, new_invoice, mark_paid, mark_payment_failed}
use billing_simulator.Entity.Subscription.{
  Subscription, new_subscription, cancel, renew, mark_subscription_paid, mark_past_due,
  mark_canceled,
}
use billing_simulator.Repository.Customers
use billing_simulator.Repository.Prices
use billing_simulator.Repository.Subscriptions
use billing_simulator.Repository.Invoices
use billing_simulator.Repository.Database.{Database}
use billing_simulator.Platform.Transaction.{Config, Weather, execute_in_transaction}
use billing_simulator.Service.Call.{Meets, simulate_payment}
use billing_simulator.Service.EventDispatcher.{Dto, dispatch}

module _ (raise : Raise) where
  -- What `RenewSubscription` does with the outcome of the payment.
  unfoldable pub collect :
      InvoiceStatus → Subscription → Invoice → Time → Outcome (Subscription × Invoice)
  unfolding is_paid mark_paid mark_payment_failed mark_subscription_paid mark_past_due mark_canceled
  collect status sub inv now =
      if is_paid status
      then (do
        settled ← mark_paid raise inv now
        paid_sub ← mark_subscription_paid raise sub now
        returns (paid_sub, settled))
      else (do
        let is_final_attempt = leb 3 (inv.attempt_count + 1)
        late_sub ←
            (if is_final_attempt then mark_canceled raise sub now else mark_past_due raise sub now)
        owed ← mark_payment_failed raise inv now "card_declined" is_final_attempt
        returns (late_sub, owed))

module _ (raise : Raise) (marshal : Dto → Option String) where
  -- `CreateSubscription`
  unfoldable pub create_subscription_body :
      Meets → Uuid → Uuid → Database → Outcome (Subscription × Database)
  unfolding Customers.get_by_id Prices.get_by_id Subscriptions.create Invoices.create
      new_subscription new_invoice mark_paid next_billing_date dispatch
  create_subscription_body m customer_id price_id db = do
    customer ← Customers.get_by_id customer_id (m.fault 0) db.customers
    price ← Prices.get_by_id price_id (m.fault 1) db.prices
    let now = m.clock 0
    sub ←
        new_subscription raise (m.draw 0) customer_id price.id customer.public_id price.public_id
          now (next_billing_date price now) now
    subscriptions ← Subscriptions.create sub (m.fault 2) db.subscriptions
    inv ←
        new_invoice raise (m.draw 1) customer_id customer.public_id (some sub.id)
          (some sub.public_id) price.amount price.currency now
    settled ← mark_paid raise inv now
    invoices ← Invoices.create settled (m.fault 3) db.invoices
    outbox ←
        dispatch marshal m 1 (sub.root.domain_events ++ settled.root.domain_events) (m.fault 4)
          db.outbox
    returns (
      record sub { root = no_events },
      record db { subscriptions = subscriptions; invoices = invoices; outbox = outbox },
    )

  -- `CancelSubscription`
  unfoldable pub cancel_subscription_body :
      Meets → String → Bool → Database → Outcome (Unit {0} × Database)
  unfolding Subscriptions.get_by_public_id Subscriptions.update cancel dispatch
  cancel_subscription_body m id at_period_end db = do
    sub ← Subscriptions.get_by_public_id id (m.fault 0) db.subscriptions
    ended ←
        cancel raise sub (if at_period_end then cancel_at_period_end else cancel_immediate)
          (m.clock 0)
    subscriptions ← Subscriptions.update ended (m.fault 1) db.subscriptions
    outbox ← dispatch marshal m 1 ended.root.domain_events (m.fault 2) db.outbox
    returns (tt, record db { subscriptions = subscriptions; outbox = outbox })

  -- The part of `RenewSubscription` behind its test of the time.
  unfoldable pub renew_due :
      Meets → Subscription → Price → Database → Outcome (Option Invoice × Database)
  unfolding Invoices.create Subscriptions.update renew collect dispatch simulate_payment
  renew_due m sub price db = do
    let now = m.clock 0
    renewed ← renew raise (m.draw 0) sub now price
    collected ← collect raise (simulate_payment m) renewed.0 renewed.1 now
    invoices ← Invoices.create collected.1 (m.fault 2) db.invoices
    subscriptions ← Subscriptions.update collected.0 (m.fault 3) db.subscriptions
    outbox ←
        dispatch marshal m 1 (collected.0.root.domain_events ++ collected.1.root.domain_events)
          (m.fault 4) db.outbox
    returns (
      some (record collected.1 { root = no_events }),
      record db { subscriptions = subscriptions; invoices = invoices; outbox = outbox },
    )

  -- `RenewSubscription`: the invoice that its variable holds at the end, given the one that it
  -- holds from the attempts before.
  unfoldable pub renew_subscription_body :
      Meets → Option Invoice → Uuid → Database → Outcome (Option Invoice × Database)
  unfolding Subscriptions.get_by_id Prices.get_by_id renew_due
  renew_subscription_body m held id db = do
    sub ← Subscriptions.get_by_id id (m.fault 0) db.subscriptions
    price ← Prices.get_by_id sub.price_id (m.fault 1) db.prices
    if after sub.next_billing_at (m.clock 0) then returns (held, db) else renew_due m sub price db

  -- The three operations: each attempt of the transaction meets its own `m i`.
  module _ (c : Config) (weather : ℕ → Weather) (m : ℕ → Meets) where
    unfoldable pub create_subscription : Uuid → Uuid → Database → Outcome Subscription × Database
    unfolding create_subscription_body execute_in_transaction
    create_subscription customer_id price_id =
        execute_in_transaction c weather λ i. create_subscription_body (m i) customer_id price_id

    unfoldable pub cancel_subscription : String → Bool → Database → Outcome (Unit {0}) × Database
    unfolding cancel_subscription_body execute_in_transaction
    cancel_subscription id at_period_end =
        execute_in_transaction c weather λ i. cancel_subscription_body (m i) id at_period_end

    unfoldable pub renew_subscription :
        (ℕ → Option Invoice) → Uuid → Database → Outcome (Option Invoice) × Database
    unfolding renew_subscription_body execute_in_transaction
    renew_subscription held id =
        execute_in_transaction c weather λ i. renew_subscription_body (m i) (held i) id
