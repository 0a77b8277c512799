-- ===== src/Service/Billing/Renewals.antt =====
-- What RenewSubscription of internal/service/billing.go writes.
use billing_simulator.Base.{
  String, ℕ, ◌≡◌, ◌≢◌, ◌≤◌, ◌<◌, refl, ◌==◌, ==_iff, ltb, List, [], ◌∷◌, ◌++◌, All, any, true,
  false, Option, none, some, ℤ, arith, if◌then◌else◌,
}
use billing_simulator.Entity.Errors.{returns, Ensures, Ensures->>=, subscription_not_found}
use billing_simulator.Entity.Status.{
  InvoiceStatus, is_paid, paid, open_, active, past_due, canceled, unpaid,
}
use billing_simulator.Entity.Events.{Uuid}
use billing_simulator.Entity.Aggregate.{raise_event}
use billing_simulator.Entity.Price.{Price}
use billing_simulator.Entity.Invoice.{Invoice}
use billing_simulator.Entity.Invoice.Balance.{IsBalanced}
use billing_simulator.Entity.Subscription.{Subscription}
use billing_simulator.Entity.Outbox.{OutboxEvent}
use billing_simulator.Repository.Table.{
  update_where, update_where-updated, update_or, find_first-any, insert,
}
use billing_simulator.Repository.Subscriptions
use billing_simulator.Repository.Prices
use billing_simulator.Repository.Invoices
use billing_simulator.Repository.Database.{Database}
use billing_simulator.Repository.Outbox.{save_batch}
use billing_simulator.Service.Call.{Meets, simulate_payment}
use billing_simulator.Service.EventDispatcher.{Dto, outbox_events}
use billing_simulator.Service.Billing.{renew_subscription_body, renew_due}
use billing_simulator.Service.Billing.Collection.{Collected, Fresh, collect_lem, renew-Fresh}

-- What a renewal that is due leaves in the tables: one invoice more, over the price and balanced,
-- and every row of the subscription with the status that the payment gave it.
pub record Billed (status : InvoiceStatus) (s : Subscription) (amount : ℤ) (db db' : Database)
    : Type 0 where
  pub bill : Invoice
  pub appended : db'.invoices ≡ db.invoices ++ bill ∷ []
  pub charged : bill.amount ≡ amount
  pub balanced : IsBalanced bill
  pub paid_or_open : bill.status ≡ (if is_paid status then paid else open_)
  pub marked :
      All
        (λ row.
          (row.id == s.id) ≡ true → row.status ≡ (if is_paid status then active else past_due))
        db'.subscriptions

pub not_after : (t now : ℕ) → t ≤ now → ltb now t ≡ false
not_after t now h = ground arith

module _ (marshal : Dto → Option String) (m : Meets) where
  found_row :
      (id : Uuid) (rows : List Subscription) (s : Subscription)
      → Subscriptions.get_by_id id none rows ≡ returns s
      → any (λ row. row.id == s.id) rows ≡ true
  unfolding Subscriptions.get_by_id Subscriptions.scan_row
  found_row id rows s h =
      find_first-any subscription_not_found _ Subscriptions.scan_row none rows s
        (λ y row. row.id == y.id) h λ x. (==_iff x.id x.id).1 refl

  bill_of :
      (status : InvoiceStatus) (s t : Subscription) (inv : Invoice) (amount : ℤ) (db : Database)
      (outbox : List OutboxEvent)
      → Collected status s.id amount t inv
      → Billed status s amount db (record db {
        invoices = db.invoices ++ Invoices.scan_row inv ∷ [];
        subscriptions =
            update_where (λ row. row.id == t.id) (Subscriptions.set_columns t) db.subscriptions;
        outbox = outbox;
      })
  unfolding Invoices.scan_row Subscriptions.set_columns
  bill_of status s t inv amount db outbox c = record {
    bill = Invoices.scan_row inv;
    appended = refl;
    charged = c.charged;
    balanced = record { settled = c.balanced.settled; owed = c.balanced.owed };
    paid_or_open = c.invoice;
    marked = rw⁻¹ c.same (
        update_where-updated _ (λ row. row.id == t.id) (Subscriptions.set_columns t)
          db.subscriptions λ row e. c.subscription);
  }

  pub saved :
      (events rows : List OutboxEvent) → Ensures (save_batch events none rows) (λ rows'. Unit {0})
  unfolding save_batch
  saved [] rows = tt
  saved (e ∷ es) rows = tt

  pub row_of :
      (id : Uuid) (db : Database) (s t : Subscription)
      → Subscriptions.get_by_id id none db.subscriptions ≡ returns s
      → t.id ≡ s.id
      → any (λ row. row.id == t.id) db.subscriptions ≡ true
  row_of id db s t found same = rw same (found_row id db.subscriptions s found)

  -- With the Raise of DomainEvents, where no statement fails, a renewal of a subscription that is
  -- found with its price, whose billing date and period end have come, and which is neither
  -- canceled nor unpaid, returns. It leaves one invoice more, over the amount of the price and
  -- balanced, which is paid if the payment succeeds and open otherwise; every row of the
  -- subscription is active if it succeeds and past due otherwise.
  pub renew_subscription_body-Billed :
      (held : Option Invoice) (id : Uuid) (db : Database) (s : Subscription) (price : Price)
      (bytes : List ℕ)
      → ((k : ℕ) → m.fault k ≡ none)
      → Subscriptions.get_by_id id none db.subscriptions ≡ returns s
      → Prices.get_by_id s.price_id none db.prices ≡ returns price
      → (m.draw 0).bytes ≡ some bytes
      → s.status ≢ canceled
      → s.status ≢ unpaid
      → s.current_period_start < s.current_period_end
      → s.current_period_end ≤ m.clock 0
      → s.next_billing_at ≤ m.clock 0
      → Ensures
          (renew_subscription_body raise_event marshal m held id db)
          (λ r. Billed (simulate_payment m) s price.amount db r.1)
  unfolding renew_subscription_body renew_due Subscriptions.update Invoices.create insert update_or
  renew_subscription_body-Billed held id db s price bytes quiet found priced drawn c u p h k =
      let now = m.clock 0 in
      rw
        (
          renew_subscription_body,
          renew_due,
          quiet 0,
          quiet 1,
          quiet 2,
          quiet 3,
          quiet 4,
          found,
          priced,
          not_after s.next_billing_at now k,
        )
        (Ensures->>= (Fresh s.id price.amount) _ _ _
          (renew-Fresh (m.draw 0) bytes s now price drawn c u p h)
          λ r w.
            Ensures->>= (λ t. Collected (simulate_payment m) s.id price.amount t.0 t.1) _ _ _
              (collect_lem (simulate_payment m) s.id price.amount r now w)
              λ t c. rw (row_of id db s t.0 found c.same) (
                Ensures->>= (λ rows'. Unit {0}) _ _ _
                  (saved
                    (outbox_events marshal m 1 0 (t.0.root.domain_events ++ t.1.root.domain_events))
                    db.outbox)
                  λ outbox _. bill_of (simulate_payment m) s t.0 t.1 price.amount db outbox c))
